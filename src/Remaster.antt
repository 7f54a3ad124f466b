-- ===== src/Remaster.antt =====
-- module/scheduler_components/remaster_manager.h: whether a transaction's master metadata is that of
-- the storage, behind it, or ahead of it.
pub mod Counters
pub mod Simple
pub mod Fifo
pub mod PerKey
mod Tests
use slog.Base.{
  ℕ, Bool, true, false, not, ◌&&◌, Option, none, some, List, [], ◌∷◌, ltb, nat_eq, if◌then◌else◌,
}
use slog.Txn.{MasterMetadata, Transaction, KeyValueEntry, metadata, is_at_home}

pub data VerifyMasterResult : Type 0 where
  valid waiting abort : VerifyMasterResult

pub record RemasterOccurredResult : Type 0 where
  pub unblocked : List Transaction
  pub should_abort : List Transaction

abbrev pub no_result : RemasterOccurredResult
no_result = record { unblocked = []; should_abort = [] }

-- The metadata that the storage has for a key, if it has the key.
abbrev pub Storage : Type 0
Storage = List ℕ → Option MasterMetadata

-- A key that is not there has the metadata of a new record.
abbrev pub stored : Storage → List ℕ → MasterMetadata
stored storage key = elim (storage key) [ none ↦ record { master = 0; counter = 0 } | some m ↦ m ]

-- The keys that a check skips, if it is for the transaction's home only.
abbrev pub is_checked : Bool → Transaction → KeyValueEntry → Bool
is_checked filter_by_home txn kv = not (filter_by_home && not (is_at_home txn kv))

abbrev pub result_of : Bool → VerifyMasterResult
result_of false = valid
result_of true = waiting

-- The loop of `CheckCounters`; a `CHECK` that fails is `none`.
unfoldable pub check_keys :
    Storage → Bool → Transaction → List KeyValueEntry → Bool → Option VerifyMasterResult
check_keys storage filter_by_home txn [] is_waiting = some (result_of is_waiting)
check_keys storage filter_by_home txn (kv ∷ kvs) is_waiting =
    let found = stored storage kv.key in
    let in_txn = metadata kv.value_entry in
    let skipped = check_keys storage filter_by_home txn kvs is_waiting in
    let later = check_keys storage filter_by_home txn kvs true in
    if is_checked filter_by_home txn kv
    then if ltb in_txn.counter found.counter
      then some abort
      else if ltb found.counter in_txn.counter
      then later
      else if nat_eq in_txn.master found.master
      then skipped
      else none
    else skipped

-- `CheckCounters`
unfoldable pub check_counters : Storage → Bool → Transaction → Option VerifyMasterResult
unfolding check_keys
check_counters storage filter_by_home txn = check_keys storage filter_by_home txn txn.keys false
