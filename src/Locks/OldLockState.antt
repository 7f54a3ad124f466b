-- ===== src/Locks/OldLockState.antt =====
-- module/scheduler_components/old_lock_manager.h and .cpp, the class OldLockState: the lock of a key
-- with its holders and waiters in sets. A set is a list without duplicates; nothing depends on its
-- order. The front of a queue that is empty is `none`.
pub mod Same
pub mod Runs
mod Tests
use slog.Base.{
  ℕ, Bool, true, false, ◌||◌, Option, none, some, List, [], ◌∷◌, ◌++◌, is_empty, elem, erase,
  if◌then◌else◌, nat_Eq,
}
use slog.Locks.LockState.{LockMode, remove_waiter}

pub record OldLockState : Type 0 where
  pub mode : LockMode
  pub holders : List ℕ
  pub waiters : List ℕ
  pub waiter_queue : List (ℕ × LockMode)

-- `insert` on a set
abbrev pub add : ℕ → List ℕ → List ℕ
add t xs = if elem t xs then xs else xs ++ t ∷ []

abbrev wait : ℕ → LockMode → OldLockState → OldLockState × Bool
wait txn_id mode s = (
  record s { waiters = add txn_id s.waiters; waiter_queue = s.waiter_queue ++ (txn_id, mode) ∷ [] },
  false,
)

-- `AcquireReadLock`
unfoldable pub acquire_read_lock : ℕ → OldLockState → OldLockState × Bool
acquire_read_lock txn_id s = elim s.mode [
  | LockMode.unlocked ↦ (record s { holders = add txn_id s.holders; mode = LockMode.read }, true)
  | LockMode.read ↦
      if is_empty s.waiters
      then (record s { holders = add txn_id s.holders }, true)
      else wait txn_id LockMode.read s
  | LockMode.write ↦ wait txn_id LockMode.read s
]

-- `AcquireWriteLock`
unfoldable pub acquire_write_lock : ℕ → OldLockState → OldLockState × Bool
acquire_write_lock txn_id s = elim s.mode [
  | LockMode.unlocked ↦ (record s { holders = add txn_id s.holders; mode = LockMode.write }, true)
  | LockMode.read ↦ wait txn_id LockMode.write s
  | LockMode.write ↦ wait txn_id LockMode.write s
]

-- `Contains`
unfoldable pub contains : ℕ → OldLockState → Bool
contains txn_id s = elem txn_id s.holders || elem txn_id s.waiters

-- The `do … while` over the readers at the head of the queue.
unfoldable pub grant_readers : List ℕ → List ℕ → List (ℕ × LockMode) → OldLockState
grant_readers holders waiters [] = record {
  mode = LockMode.read;
  holders = holders;
  waiters = waiters;
  waiter_queue = [];
}
grant_readers holders waiters ((txn_id, LockMode.read) ∷ ws) =
    grant_readers (add txn_id holders) (erase txn_id waiters) ws
grant_readers holders waiters (w ∷ ws) = record {
  mode = LockMode.read;
  holders = holders;
  waiters = waiters;
  waiter_queue = w ∷ ws;
}

-- The end of `Release`, with nobody left that holds the lock and somebody that waits.
unfoldable pub hand_on : OldLockState → List (ℕ × LockMode) → Option OldLockState
unfolding grant_readers
hand_on s [] = none
hand_on s ((txn_id, LockMode.read) ∷ ws) =
    some (grant_readers s.holders s.waiters ((txn_id, LockMode.read) ∷ ws))
hand_on s ((txn_id, LockMode.write) ∷ ws) = some (record {
  mode = LockMode.write;
  holders = add txn_id s.holders;
  waiters = erase txn_id s.waiters;
  waiter_queue = ws;
})
hand_on s ((txn_id, LockMode.unlocked) ∷ ws) = some s

-- `Release`
unfoldable pub release : ℕ → OldLockState → Option (OldLockState × List ℕ)
unfolding hand_on
release txn_id s =
    if elem txn_id s.holders
    then (let rest = record s { holders = erase txn_id s.holders } in
        if is_empty rest.holders
        then if is_empty s.waiters
          then some (record rest { mode = LockMode.unlocked }, [])
          else elim (hand_on rest s.waiter_queue) [ none ↦ none | some s' ↦ some (s', s'.holders) ]
        else some (rest, []))
    else some (
      record s {
        waiter_queue = remove_waiter txn_id s.waiter_queue;
        waiters = erase txn_id s.waiters;
      },
      [],
    )
