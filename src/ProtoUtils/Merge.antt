-- ===== src/ProtoUtils/Merge.antt =====
-- common/proto_utils.cpp, MergeTransaction: the results of two partitions in one transaction.
pub mod Laws
use slog.Base.{
  ℕ, ◌≡◌, Bool, true, false, not, ◌&&◌, Option, none, some, List, [], ◌∷◌, ◌++◌, nat_eq, elem,
  bytes_Eq, sort_unique, if◌then◌else◌, ◌>>=◌, ◌>>◌, guard, ℤ, negsuc,
}
use slog.Txn.{KeyValueEntry, TransactionType, TransactionStatus, Transaction}

-- The numbers of the enumerations, which `==` compares.
abbrev pub type_number : TransactionType → ℕ
type_number TransactionType.unknown = 0
type_number TransactionType.single_home = 1
type_number TransactionType.multi_home_or_lock_only = 2

abbrev pub is_aborted : Transaction → Bool
is_aborted txn = elim txn.status [ TransactionStatus.aborted ↦ true | _ ↦ false ]

abbrev pub key_names : List KeyValueEntry → List (List ℕ)
key_names [] = []
key_names (kv ∷ kvs) = kv.key ∷ key_names kvs

-- The entries with a key that is none of `existing_keys`.
abbrev pub missing : List (List ℕ) → List KeyValueEntry → List KeyValueEntry
missing existing_keys [] = []
missing existing_keys (kv ∷ kvs) =
    if elem kv.key existing_keys then missing existing_keys kvs else kv ∷ missing existing_keys kvs

-- The status, the reason of an abort, and the keys.
abbrev pub merge_results : Transaction → Transaction → Transaction
merge_results txn other =
    if is_aborted other
    then record txn { status = TransactionStatus.aborted; abort_reason = other.abort_reason }
    else if is_aborted txn
    then txn
    else record txn { keys = txn.keys ++ missing (key_names txn.keys) other.keys }

-- What is merged whatever the status is.
abbrev pub merge_internal : Transaction → Transaction → Transaction
merge_internal txn other = record txn {
  internal = record txn.internal {
    events = txn.internal.events ++ other.internal.events;
    global_log_positions =
        txn.internal.global_log_positions ++ (negsuc 0 ∷ other.internal.global_log_positions);
    involved_replicas =
        sort_unique (txn.internal.involved_replicas ++ other.internal.involved_replicas);
  };
}

-- `MergeTransaction`
unfoldable pub merge_transaction : Transaction → Transaction → Option Transaction
merge_transaction txn other = do
  guard (nat_eq txn.internal.id other.internal.id)
  guard (nat_eq (type_number txn.internal.type) (type_number other.internal.type))
  some (merge_internal (merge_results txn other) other)
