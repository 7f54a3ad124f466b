-- ===== src/TxnHolder.antt =====
-- module/scheduler_components/txn_holder.h and .cpp: the lock-only transactions of a transaction, one
-- for each region that it involves. A failed `CHECK_LT` and an index out of range are `none`.
pub mod Counts
pub mod Finalize
pub mod Events
mod Tests
use slog.Base.{
  ℕ, zero, suc, ◌+◌, Bool, true, false, ◌&&◌, Option, none, some, List, [], ◌∷◌, if◌then◌else◌,
  length, ◌>>=◌, nat_eq,
}
use slog.Txn.{Transaction, to_uint32}

pub record TxnHolder : Type 0 where
  pub txn_id : ℕ
  pub main_txn_idx : ℕ
  pub lo_txns : List (Option Transaction)
  pub remaster_result : Option (List ℕ × ℕ)
  pub aborting : Bool
  pub done : Bool
  pub num_lo_txns : ℕ
  pub expected_num_lo_txns : ℕ
  pub num_dispatches : ℕ

-- The vector of `n` null pointers
abbrev pub nulls : ℕ → List (Option Transaction)
nulls zero = []
nulls (suc n) = none ∷ nulls n

-- `lo_txns_[i]`
abbrev pub slot : ℕ → List (Option Transaction) → Option (Option Transaction)
slot i [] = none
slot zero (t ∷ ts) = some t
slot (suc i) (t ∷ ts) = slot i ts

-- `lo_txns_[i].reset(txn)`
abbrev pub reset : ℕ → Transaction → List (Option Transaction) → List (Option Transaction)
reset i txn [] = []
reset zero txn (t ∷ ts) = some txn ∷ ts
reset (suc i) txn (t ∷ ts) = t ∷ reset i txn ts

-- The home as an index: a negative one is beyond every vector.
abbrev pub index : Transaction → ℕ
index txn = to_uint32 txn.internal.home

-- The constructor
unfoldable pub new_holder : ℕ → Transaction → Option TxnHolder
new_holder num_replicas txn = do
  free ← slot (index txn) (nulls num_replicas)
  some (record {
    txn_id = txn.internal.id;
    main_txn_idx = index txn;
    lo_txns = reset (index txn) txn (nulls num_replicas);
    remaster_result = none;
    aborting = false;
    done = false;
    num_lo_txns = 1;
    expected_num_lo_txns = length txn.internal.involved_replicas;
    num_dispatches = 0;
  })

-- `AddLockOnlyTxn`
unfoldable pub add_lock_only_txn : Transaction → TxnHolder → Option (TxnHolder × Bool)
add_lock_only_txn txn h = do
  there ← slot (index txn) h.lo_txns
  elim there [
    | some _ ↦ some (h, false)
    | none ↦ some (
      record h { lo_txns = reset (index txn) txn h.lo_txns; num_lo_txns = h.num_lo_txns + 1 },
      true,
    )
  ]

-- `SetRemasterResult`, `SetDone`, `SetAborting`, `IncNumDispatches`
abbrev pub set_remaster_result : List ℕ → ℕ → TxnHolder → TxnHolder
set_remaster_result key counter h = record h { remaster_result = some (key, counter) }

abbrev pub set_done : TxnHolder → TxnHolder
set_done h = record h { done = true }

abbrev pub set_aborting : TxnHolder → TxnHolder
set_aborting h = record h { aborting = true }

abbrev pub inc_num_dispatches : TxnHolder → TxnHolder
inc_num_dispatches h = record h { num_dispatches = h.num_dispatches + 1 }

-- `is_ready_for_gc`
abbrev pub is_ready_for_gc : TxnHolder → Bool
is_ready_for_gc h = h.done && nat_eq h.num_lo_txns h.expected_num_lo_txns
