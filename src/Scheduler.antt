-- ===== src/Scheduler.antt =====
-- module/scheduler.h and .cpp: transactions go through the lock manager to the workers. The lock
-- manager is a parameter, the record LockManager; Scheduler/Managers and Scheduler/DdrManager have two
-- of the code. The build flag LOCK_MANAGER_DDR, which takes TriggerPreDispatchAbort away, is its field
-- `aborts`. The branches of the remaster protocols are not compiled in here.
pub mod Managers
pub mod DdrManager
pub mod Active
pub mod Releases
pub mod Answers
pub mod Dispatched
mod Tests
use slog.Base.{
  ℕ, ◌+◌, ◌≡◌, Bool, true, false, not, ◌&&◌, ◌||◌, Option, none, some, List, [], ◌∷◌, ◌++◌, nat_eq,
  nat_Eq, elem, if◌then◌else◌, Map, lookup, insert, erase_key, ℤ, pos,
}
use slog.Txn.{Transaction, TransactionStatus}
use slog.TxnHolder.{
  TxnHolder, new_holder, add_lock_only_txn, set_done, set_aborting, inc_num_dispatches,
  is_ready_for_gc,
}
use slog.Worker.{main_txn, put_main}

-- common/types.h
pub data AcquireLocksResult : Type 0 where
  acquired waiting abort : AcquireLocksResult

-- What a scheduler uses of a lock manager, and what it relies on: a transaction that a release makes
-- ready has asked for locks and not released them.
pub record LockManager (S : Type 0) : Type 0 where
  pub new : S
  pub acquire : Transaction → S → S × AcquireLocksResult
  pub release : ℕ → S → Option (S × List ℕ)
  pub aborts : Bool
  pub tracks : ℕ → S → Bool
  pub new-tracks : (j : ℕ) → tracks j new ≡ false
  pub acquire-tracks :
      (txn : Transaction) (s : S) (j : ℕ)
      → tracks j (acquire txn s).0 ≡ true
      → (nat_eq txn.internal.id j || tracks j s) ≡ true
  pub release-tracks :
      (t : ℕ) (s s' : S) (ready : List ℕ) (j : ℕ)
      → release t s ≡ some (s', ready)
      → tracks j s' ≡ true
      → (tracks j s && not (nat_eq t j)) ≡ true
  pub release-ready :
      (t : ℕ) (s s' : S) (ready : List ℕ) (j : ℕ)
      → release t s ≡ some (s', ready)
      → elem j ready ≡ true
      → tracks j s ≡ true

-- An operation returns, or fails a `CHECK` or throws, or follows the iterator of a transaction that is
-- not there.
pub data Outcome (A : Type 0) : Type 0 where
  returns : A → Outcome A
  fails missing_txn : Outcome A

infixl 5 ◌>>=◌
abbrev pub ◌>>=◌ : {A B : Type 0} → Outcome A → (A → Outcome B) → Outcome B
Outcome.returns a >>= f = f a
Outcome.fails >>= f = Outcome.fails
Outcome.missing_txn >>= f = Outcome.missing_txn

-- A `CHECK` on what is there.
abbrev pub check : {A : Type 0} → Option A → Outcome A
check none = Outcome.fails
check (some a) = Outcome.returns a

-- `find`, and the use of what it found.
abbrev pub follow : {A : Type 0} → Option A → Outcome A
follow none = Outcome.missing_txn
follow (some a) = Outcome.returns a

-- The messages to the workers are in `dispatched`.
pub record Scheduler (S : Type 0) : Type 0 where
  pub lock_manager : S
  pub active_txns : Map ℕ TxnHolder
  pub global_log_counter : ℕ
  pub dispatched : List ℕ

-- `holder.txn()`, changed
abbrev pub change_main : (Transaction → Transaction) → TxnHolder → Option TxnHolder
change_main f h = elim (main_txn h) [
  | none ↦ none
  | some txn ↦ some (record h { lo_txns = put_main h.main_txn_idx (f txn) h.lo_txns })
]

-- The home of the transaction and the counter
abbrev pub add_global_log_positions : ℤ → ℕ → Transaction → Transaction
add_global_log_positions home counter txn = record txn {
  internal = record txn.internal {
    global_log_positions = txn.internal.global_log_positions ++ home ∷ pos counter ∷ [];
  };
}

abbrev pub abort_txn : Transaction → Transaction
abort_txn txn = record txn { status = TransactionStatus.aborted }

-- `try_emplace`, or else `AddLockOnlyTxn`; false if the transaction has been received before.
unfoldable pub enter : ℕ → Transaction → Option TxnHolder → Option (TxnHolder × Bool)
enter num_replicas txn none = elim (new_holder num_replicas txn) [
  | none ↦ none
  | some h ↦ some (h, true)
]
enter num_replicas txn (some h) = add_lock_only_txn txn h

module _ {S : Type 0} (m : LockManager S) where
  abbrev pub empty : Scheduler S
  empty = record { lock_manager = m.new; active_txns = []; global_log_counter = 0; dispatched = [] }

  -- `Dispatch`
  unfoldable pub dispatch : ℕ → Scheduler S → Outcome (Scheduler S)
  dispatch txn_id s = do
    h ← follow (lookup txn_id s.active_txns)
    Outcome.returns (record s {
      active_txns = insert txn_id (inc_num_dispatches h) s.active_txns;
      dispatched = s.dispatched ++ txn_id ∷ [];
    })

  unfoldable pub dispatch_all : List ℕ → Scheduler S → Outcome (Scheduler S)
  unfolding dispatch
  dispatch_all [] s = Outcome.returns s
  dispatch_all (t ∷ ts) s = dispatch t s >>= dispatch_all ts

  -- `ReleaseLocks`, and the dispatch of those that become ready.
  unfoldable pub release_and_dispatch : ℕ → Scheduler S → Outcome (Scheduler S)
  unfolding dispatch_all
  release_and_dispatch txn_id s = do
    (lock_manager, ready) ← check (m.release txn_id s.lock_manager)
    dispatch_all ready (record s { lock_manager = lock_manager })

  -- `TriggerPreDispatchAbort`; `CHECK(!txn_holder.is_aborting())` comes first.
  unfoldable pub trigger_abort : ℕ → Scheduler S → Outcome (Scheduler S)
  unfolding release_and_dispatch
  trigger_abort txn_id s = do
    h ← check (lookup txn_id s.active_txns)
    aborting ← check (if h.aborting then none else some (set_aborting h))
    main ← check (main_txn h)
    released ←
        release_and_dispatch txn_id
          (record s { active_txns = insert txn_id aborting s.active_txns })
    h' ← follow (lookup txn_id released.active_txns)
    aborted ← check (change_main abort_txn h')
    dispatch txn_id (record released { active_txns = insert txn_id aborted released.active_txns })

  unfoldable pub trigger_pre_dispatch_abort : ℕ → Scheduler S → Outcome (Scheduler S)
  unfolding trigger_abort
  trigger_pre_dispatch_abort txn_id s =
      if m.aborts then trigger_abort txn_id s else Outcome.returns s

  abbrev pub on_result : AcquireLocksResult → ℕ → Scheduler S → Outcome (Scheduler S)
  on_result AcquireLocksResult.acquired txn_id s = dispatch txn_id s
  on_result AcquireLocksResult.abort txn_id s = trigger_pre_dispatch_abort txn_id s
  on_result AcquireLocksResult.waiting txn_id s = Outcome.returns s

  -- `SendToLockManager`
  unfoldable pub send_to_lock_manager : Transaction → Scheduler S → Outcome (Scheduler S)
  unfolding trigger_pre_dispatch_abort
  send_to_lock_manager txn s =
      let (lock_manager, result) = m.acquire txn s.lock_manager in
      on_result result txn.internal.id (record s { lock_manager = lock_manager })

  -- A transaction that is aborting takes no locks, and goes when all its parts have come.
  abbrev pub proceed : Transaction → TxnHolder → Scheduler S → Outcome (Scheduler S)
  proceed txn h s =
      if h.aborting
      then Outcome.returns (
          if is_ready_for_gc h
          then record s { active_txns = erase_key txn.internal.id s.active_txns }
          else s)
      else send_to_lock_manager txn s

  -- What follows when the transaction was new to its holder.
  abbrev pub accept : Transaction → TxnHolder → Scheduler S → Outcome (Scheduler S)
  accept txn h s = do
    h' ← check (change_main (add_global_log_positions txn.internal.home s.global_log_counter) h)
    proceed txn h' (record s { active_txns = insert txn.internal.id h' s.active_txns })

  -- `ProcessTransaction`
  unfoldable pub process_transaction : ℕ → Transaction → Scheduler S → Outcome (Scheduler S)
  unfolding send_to_lock_manager enter
  process_transaction num_replicas txn s = do
    (h, is_new) ← check (enter num_replicas txn (lookup txn.internal.id s.active_txns))
    (let counted = record s { global_log_counter = s.global_log_counter + 1 } in
        if is_new then accept txn h counted else Outcome.returns counted)

  -- One message of the loop in `OnCustomSocket`: a worker is done with a transaction.
  unfoldable pub on_done : ℕ → Scheduler S → Outcome (Scheduler S)
  unfolding release_and_dispatch
  on_done txn_id s = do
    released ← release_and_dispatch txn_id s
    h ← check (lookup txn_id released.active_txns)
    Outcome.returns (record released {
      active_txns =
          if is_ready_for_gc (set_done h)
          then erase_key txn_id released.active_txns
          else insert txn_id (set_done h) released.active_txns;
    })
