-- ===== src/Locks/LockState.antt =====
-- module/scheduler_components/rma_lock_manager.h and .cpp, the class LockState: who holds the lock
-- of a key, and who waits for it.
pub mod Refines
pub mod Safety
mod Tests
use slog.Base.{
  ℕ, Bool, true, false, ◌||◌, List, [], ◌∷◌, ◌++◌, is_empty, elem, erase, if◌then◌else◌, nat_Eq,
  ◌==◌,
}

-- common/types.h
pub data LockMode : Type 0 where
  unlocked read write : LockMode

pub record LockState : Type 0 where
  pub mode : LockMode
  pub holders : List ℕ
  pub waiter_queue : List (ℕ × LockMode)

abbrev pub new_lock : LockState
new_lock = record { mode = unlocked; holders = []; waiter_queue = [] }

abbrev wait : ℕ → LockMode → LockState → LockState × Bool
wait txn_id mode s = (record s { waiter_queue = s.waiter_queue ++ (txn_id, mode) ∷ [] }, false)

-- `AcquireReadLock`
unfoldable pub acquire_read_lock : ℕ → LockState → LockState × Bool
acquire_read_lock txn_id s = elim s.mode [
  | unlocked ↦ (record s { holders = s.holders ++ txn_id ∷ []; mode = read }, true)
  | read ↦
      if is_empty s.waiter_queue
      then (record s { holders = s.holders ++ txn_id ∷ [] }, true)
      else wait txn_id read s
  | write ↦ wait txn_id read s
]

-- `AcquireWriteLock`
unfoldable pub acquire_write_lock : ℕ → LockState → LockState × Bool
acquire_write_lock txn_id s = elim s.mode [
  | unlocked ↦ (record s { holders = s.holders ++ txn_id ∷ []; mode = write }, true)
  | read ↦ wait txn_id write s
  | write ↦ wait txn_id write s
]

abbrev pub waits : ℕ → List (ℕ × LockMode) → Bool
waits txn_id [] = false
waits txn_id (w ∷ ws) = w.0 == txn_id || waits txn_id ws

-- `Contains`
unfoldable pub contains : ℕ → LockState → Bool
contains txn_id s = elem txn_id s.holders || waits txn_id s.waiter_queue

-- `remove_if` on the queue of waiters
abbrev pub remove_waiter : ℕ → List (ℕ × LockMode) → List (ℕ × LockMode)
remove_waiter txn_id [] = []
remove_waiter txn_id (w ∷ ws) =
    if w.0 == txn_id then remove_waiter txn_id ws else w ∷ remove_waiter txn_id ws

-- The `do … while` that moves the readers at the head of the queue to the holders. It is entered
-- with a reader at the head, where it is the same as a `while`.
abbrev pub grant_readers : List ℕ → List (ℕ × LockMode) → LockState
grant_readers holders [] = record { mode = read; holders = holders; waiter_queue = [] }
grant_readers holders ((txn_id, read) ∷ ws) = grant_readers (holders ++ txn_id ∷ []) ws
grant_readers holders (w ∷ ws) = record { mode = read; holders = holders; waiter_queue = w ∷ ws }

-- The end of `Release`, with no holder left.
abbrev pub hand_on : LockState → List (ℕ × LockMode) → LockState
hand_on s [] = record s { mode = unlocked }
hand_on s ((txn_id, read) ∷ ws) = grant_readers s.holders ((txn_id, read) ∷ ws)
hand_on s ((txn_id, write) ∷ ws) = record {
  mode = write;
  holders = s.holders ++ txn_id ∷ [];
  waiter_queue = ws;
}
hand_on s ((txn_id, unlocked) ∷ ws) = s

-- `Release`, with the transactions that get the lock by it.
unfoldable pub release : ℕ → LockState → LockState × List ℕ
release txn_id s =
    if elem txn_id s.holders
    then (let rest = record s { holders = erase txn_id s.holders } in
        if is_empty rest.holders
        then (let handed = hand_on rest s.waiter_queue in
            (handed, if is_empty s.waiter_queue then [] else handed.holders))
        else (rest, []))
    else (record s { waiter_queue = remove_waiter txn_id s.waiter_queue }, [])
