-- ===== src/Execution.antt =====
-- execution/execution.cpp and execution/key_value.cpp: the procedures of a transaction on its keys,
-- and the writes that a commit applies. Whether a key is local is the sharder's answer, a parameter,
-- and so is whether `std::stoi` reads a number, else it throws. A throw and an access out of range
-- are `none`.
pub mod Writes
pub mod Index
pub mod Branches
pub mod Procedures
mod Tests
use slog.Base.{
  ℕ, zero, suc, Bool, true, false, not, ◌&&◌, ◌||◌, Option, none, some, List, [], ◌∷◌, ◌++◌,
  list_eq, get_elem?, if◌then◌else◌, ◌>>=◌, ◌>>◌, guard, Map, has, lookup, insert, bytes_Eq,
}
use slog.Txn.{KeyValueEntry, ValueEntry, Program, Transaction, TransactionStatus, metadata}
use slog.Locks.Request.{KeyType}
use slog.ProtoUtils.Partition.{is_write}
use slog.Storage.{Table, Record, write, delete}

module _ (is_local_key : List ℕ → Bool) where
  -- The loop over the keys.
  unfoldable pub write_keys : List KeyValueEntry → Table → Table
  write_keys [] storage = storage
  write_keys (kv ∷ kvs) storage = write_keys kvs (
      if not (is_local_key kv.key) || not (is_write kv.value_entry.type)
      then storage
      else write kv.key
          (record { metadata = metadata kv.value_entry; value = kv.value_entry.new_value }) storage)

  unfoldable pub delete_keys : List (List ℕ) → Table → Table
  delete_keys [] storage = storage
  delete_keys (key ∷ keys) storage = delete_keys keys (delete key storage)

  -- `ApplyWrites`
  unfoldable pub apply_writes : Transaction → Table → Table
  unfolding write_keys delete_keys
  apply_writes txn storage = delete_keys txn.deleted_keys (write_keys txn.keys storage)

-- `key_index`: the index of the first entry of each key.
unfoldable pub key_index : ℕ → List KeyValueEntry → Map (List ℕ) ℕ → Map (List ℕ) ℕ
key_index i [] index = index
key_index i (kv ∷ kvs) index =
    key_index (suc i) kvs (if has kv.key index then index else insert kv.key i index)

abbrev pub set_word : List ℕ
set_word = b'S' ∷ b'E' ∷ b'T' ∷ []

abbrev pub del_word : List ℕ
del_word = b'D' ∷ b'E' ∷ b'L' ∷ []

abbrev pub copy_word : List ℕ
copy_word = b'C' ∷ b'O' ∷ b'P' ∷ b'Y' ∷ []

abbrev pub eq_word : List ℕ
eq_word = b'E' ∷ b'Q' ∷ []

abbrev pub sleep_word : List ℕ
sleep_word = b'S' ∷ b'L' ∷ b'E' ∷ b'E' ∷ b'P' ∷ []

-- What the procedures change: the keys, the deleted keys, and whether and why they abort.
pub record Running : Type 0 where
  pub keys : List KeyValueEntry
  pub deleted_keys : List (List ℕ)
  pub aborted : Bool
  pub abort_reason : List ℕ

-- `set_new_value` on entry `i`
abbrev pub set_new_value : ℕ → List ℕ → List KeyValueEntry → List KeyValueEntry
set_new_value i value [] = []
set_new_value zero value (kv ∷ kvs) =
    record kv { value_entry = record kv.value_entry { new_value = value } } ∷ kvs
set_new_value (suc i) value (kv ∷ kvs) = kv ∷ set_new_value i value kvs

-- The text of a failed comparison.
abbrev pub expected_text : List ℕ
expected_text =
    b'.' ∷ b' ' ∷ b'E' ∷ b'x' ∷ b'p' ∷ b'e' ∷ b'c' ∷ b't' ∷ b'e' ∷ b'd' ∷ b' ' ∷ b'v' ∷ b'a' ∷ b'l'
    ∷ b'u' ∷ b'e' ∷ b' ' ∷ b'=' ∷ b' ' ∷ []

abbrev pub actual_text : List ℕ
actual_text =
    b'.' ∷ b' ' ∷ b'A' ∷ b'c' ∷ b't' ∷ b'u' ∷ b'a' ∷ b'l' ∷ b' ' ∷ b'v' ∷ b'a' ∷ b'l' ∷ b'u' ∷ b'e'
    ∷ b' ' ∷ b'=' ∷ b' ' ∷ []

abbrev pub mismatch : List ℕ → List ℕ → List ℕ → List ℕ
mismatch key wanted actual =
    (b'K' ∷ b'e' ∷ b'y' ∷ b' ' ∷ b'=' ∷ b' ' ∷ key)
    ++ expected_text
    ++ wanted
    ++ actual_text
    ++ actual

abbrev pub set_at : List (List ℕ) → Running → ℕ → Option Running
set_at args s i = do
  kv ← get_elem? s.keys i
  (if is_write kv.value_entry.type
      then (do value ← get_elem? args 2; some (record s { keys = set_new_value i value s.keys }))
      else some s)

-- The branch of "SET".
unfoldable pub run_set : Map (List ℕ) ℕ → List (List ℕ) → Running → Option Running
run_set index args s = do
  key ← get_elem? args 1
  elim (lookup key index) [ none ↦ some s | some i ↦ set_at args s i ]

-- The branch of "DEL": a key that is there is passed over, and for one that is not the code follows
-- the iterator to nowhere.
unfoldable pub run_del : Map (List ℕ) ℕ → List (List ℕ) → Running → Option Running
run_del index args s = do
  key ← get_elem? args 1
  elim (lookup key index) [ none ↦ none | some i ↦ some s ]

abbrev pub copy_between : ℕ → ℕ → Running → Option Running
copy_between src dst s = do
  from ← get_elem? s.keys src
  to ← get_elem? s.keys dst
  (if is_write to.value_entry.type
      then some (record s { keys = set_new_value dst from.value_entry.value s.keys })
      else some s)

abbrev pub copy_found : Option ℕ → Option ℕ → Running → Option Running
copy_found (some src) (some dst) s = copy_between src dst s
copy_found _ _ s = some s

-- The branch of "COPY".
unfoldable pub run_copy : Map (List ℕ) ℕ → List (List ℕ) → Running → Option Running
run_copy index args s = do
  src ← get_elem? args 1
  dst ← get_elem? args 2
  copy_found (lookup src index) (lookup dst index) s

abbrev pub compare_at : List ℕ → List (List ℕ) → ℕ → Running → Option Running
compare_at key args i s = do
  kv ← get_elem? s.keys i
  wanted ← get_elem? args 2
  (if list_eq kv.value_entry.value wanted
      then some s
      else some (record s {
        aborted = true;
        abort_reason = s.abort_reason ++ mismatch key wanted kv.value_entry.value;
      }))

-- The branch of "EQ".
unfoldable pub run_eq : Map (List ℕ) ℕ → List (List ℕ) → Running → Option Running
run_eq index args s = do
  key ← get_elem? args 1
  elim (lookup key index) [ none ↦ some s | some i ↦ compare_at key args i s ]

module _ (is_number : List ℕ → Bool) where
  -- The branch of "SLEEP".
  unfoldable pub run_sleep : List (List ℕ) → Running → Option Running
  run_sleep args s = do ms ← get_elem? args 1; guard (is_number ms); some s

  -- One round of the loop over the procedures.
  unfoldable pub run_procedure : Map (List ℕ) ℕ → List (List ℕ) → Running → Option Running
  unfolding run_set run_del run_copy run_eq run_sleep
  run_procedure index [] s = some s
  run_procedure index (word ∷ args) s =
      if list_eq word set_word
      then run_set index (word ∷ args) s
      else if list_eq word del_word
      then run_del index (word ∷ args) s
      else if list_eq word copy_word
      then run_copy index (word ∷ args) s
      else if list_eq word eq_word
      then run_eq index (word ∷ args) s
      else if list_eq word sleep_word
      then run_sleep (word ∷ args) s
      else some s

  unfoldable pub run_procedures : Map (List ℕ) ℕ → List (List (List ℕ)) → Running → Option Running
  unfolding run_procedure
  run_procedures index [] s = some s
  run_procedures index (p ∷ ps) s = run_procedure index p s >>= run_procedures index ps

-- `code().procedures()`, which is empty for another program
abbrev pub procedures : Program → List (List (List ℕ))
procedures (Program.code ps) = ps
procedures _ = []

-- `KeyValueExecution::Execute`
unfoldable pub execute :
    (List ℕ → Bool) → (List ℕ → Bool) → Transaction → Table → Option (Transaction × Table)
unfolding run_procedures apply_writes
execute is_local_key is_number txn storage = do
  s ← run_procedures is_number (key_index 0 txn.keys []) (procedures txn.program) (record {
    keys = txn.keys;
    deleted_keys = txn.deleted_keys;
    aborted = false;
    abort_reason = [];
  })
  let ran = record txn { keys = s.keys; deleted_keys = s.deleted_keys }
  let committed = record ran { status = TransactionStatus.committed }
  some (
      if s.aborted
      then (
        record ran { status = TransactionStatus.aborted; abort_reason = s.abort_reason },
        storage,
      )
      else (committed, apply_writes is_local_key committed storage))
