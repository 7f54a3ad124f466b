-- ===== src/ProtoUtils/Equality.antt =====
-- common/proto_utils.cpp, the operators `==`: which parts of two transactions are compared.
use slog.Base.{ℕ, Bool, true, ◌&&◌, List, ◌∷◌, nat_eq, list_eq, length}
use slog.Txn.{
  MasterMetadata, ValueEntry, KeyValueEntry, TransactionStatus, Program, Transaction, metadata,
}
use slog.Locks.Request.{KeyType}
use slog.ProtoUtils.Merge.{type_number}

abbrev pub key_type_number : KeyType → ℕ
key_type_number KeyType.read = 0
key_type_number KeyType.write = 1

abbrev pub status_number : TransactionStatus → ℕ
status_number TransactionStatus.not_started = 0
status_number TransactionStatus.committed = 1
status_number TransactionStatus.aborted = 2

-- `program_case`
abbrev pub program_case : Program → ℕ
program_case Program.not_set = 0
program_case (Program.code procedures) = 2
program_case (Program.remaster new_master lock_only) = 3

unfoldable pub metadata_eq : MasterMetadata → MasterMetadata → Bool
metadata_eq a b = nat_eq a.master b.master && nat_eq a.counter b.counter

unfoldable pub value_entry_eq : ValueEntry → ValueEntry → Bool
unfolding metadata_eq
value_entry_eq a b =
    list_eq a.value b.value
    && (list_eq a.new_value b.new_value
        && (nat_eq (key_type_number a.type) (key_type_number b.type)
            && metadata_eq (metadata a) (metadata b)))

unfoldable pub key_value_entry_eq : KeyValueEntry → KeyValueEntry → Bool
unfolding value_entry_eq
key_value_entry_eq a b = list_eq a.key b.key && value_entry_eq a.value_entry b.value_entry

-- The loop over the keys, of which both have as many.
unfoldable pub keys_eq : List KeyValueEntry → List KeyValueEntry → Bool
unfolding key_value_entry_eq
keys_eq (a ∷ more) (b ∷ others) = key_value_entry_eq a b && keys_eq more others
keys_eq _ _ = true

unfoldable pub transaction_eq : Transaction → Transaction → Bool
unfolding keys_eq
transaction_eq a b =
    nat_eq (status_number a.status) (status_number b.status)
    && (nat_eq (length a.keys) (length b.keys)
        && (nat_eq (program_case a.program) (program_case b.program)
            && (list_eq a.abort_reason b.abort_reason
                && (nat_eq a.internal.id b.internal.id
                    && (nat_eq (type_number a.internal.type) (type_number b.internal.type)
                        && keys_eq a.keys b.keys)))))
