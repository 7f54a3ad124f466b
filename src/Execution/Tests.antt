-- ===== src/Execution/Tests.antt =====
-- Procedures on two keys.
use slog.Base.{
  ℕ, ◌≡◌, refl, Bool, true, false, not, Option, none, some, List, [], ◌∷◌, elem, lookup, bytes_Eq,
  if◌then◌else◌,
}
use slog.Txn.{Transaction, TransactionStatus, Program}
use slog.Locks.Request.{read, write}
use slog.Locks.Fixtures.{single_home_txn, key_entry}
use slog.Storage.{Table}
use slog.Execution.{
  execute, run_procedures, run_procedure, run_set, run_del, run_copy, run_eq, run_sleep, key_index,
  apply_writes, write_keys, delete_keys, procedures, set_word, del_word, copy_word, eq_word,
}
use slog.Execution.Writes.{last_write}
use slog.Execution.Index.{SameKeys, any_mismatched}
use slog.Execution.Procedures.{execute_lem}

-- The value of B goes to A, and A's is set again.
abbrev txn : Transaction
txn = record (single_home_txn 1 (key_entry b'A' write ∷ key_entry b'B' read ∷ [])) {
  program = Program.code (
      (eq_word ∷ (b'A' ∷ []) ∷ [] ∷ [])
      ∷ (copy_word ∷ (b'B' ∷ []) ∷ (b'A' ∷ []) ∷ [])
      ∷ (set_word ∷ (b'A' ∷ []) ∷ (b'7' ∷ []) ∷ [])
      ∷ (del_word ∷ (b'A' ∷ []) ∷ [])
      ∷ []);
}

abbrev storage_after : Table
storage_after =
    (b'A' ∷ [], record { metadata = record { master = 0; counter = 0 }; value = b'7' ∷ [] }) ∷ []

abbrev always : List ℕ → Bool
always key = true

abbrev after : Transaction
after = record txn {
  keys =
      record (key_entry b'A' write) {
        value_entry = record (key_entry b'A' write).value_entry { new_value = b'7' ∷ [] };
      }
      ∷ key_entry b'B' read
      ∷ [];
  status = TransactionStatus.committed;
}

executes : execute always always txn [] ≡ some (after, storage_after)
unfolding execute run_procedures run_procedure run_set run_del run_copy run_eq run_sleep key_index
    apply_writes write_keys delete_keys slog.Base.insert lookup
executes = refl

execute_lem_example :
    let aborts = any_mismatched txn.keys (procedures txn.program) in
    (after.status ≡ (if aborts then TransactionStatus.aborted else TransactionStatus.committed))
    × SameKeys txn.keys after.keys
    × (after.deleted_keys ≡ txn.deleted_keys)
    × ((k : List ℕ)
        → lookup k storage_after ≡ (
            if aborts
            then lookup k []
            else if elem k txn.deleted_keys
            then none
            else last_write always k after.keys (lookup k [])))
execute_lem_example = execute_lem always always txn after [] storage_after executes

-- A key that is not there cannot be deleted.
deletes_nothing :
    execute always always
      (record txn { program = Program.code ((del_word ∷ (b'X' ∷ []) ∷ []) ∷ []) })
      []
    ≡ none
unfolding execute run_procedures run_procedure run_del key_index lookup slog.Base.insert
deletes_nothing = refl
