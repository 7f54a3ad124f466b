-- ===== src/Locks/Rma/Runs.antt =====
-- A RMALockManager in use: its locks and its counter of locked keys over sequences of calls.
use slog.Base.{
  ℕ, ◌%◌, ◌^◌, ◌≡◌, sym, subst, subst₂, Option, some, List, [], ◌∷◌, arith, lookup, bytes_Eq,
  nat_Eq, ◌>>=◌, >>=-eq-some,
}
use slog.Txn.{Transaction}
use slog.Locks.LockState.{LockState}
use slog.Locks.LockState.Safety.{IsExclusive, state_of-IsExclusive}
use slog.Locks.Rma.{RmaLockManager, init, acquire_locks, release_locks}
use slog.Locks.Rma.Table.{locked, locked-empty}
use slog.Locks.Rma.Invariant.{Kept, acquire_locks-Kept, release_locks-Kept}

-- The calls of the scheduler on its lock manager.
pub data Call : Type 0 where
  acquires : Transaction → Call
  releases : ℕ → Call

unfoldable pub run : List Call → RmaLockManager → Option RmaLockManager
run [] lm = some lm
run (acquires txn ∷ cs) lm = run cs (acquire_locks txn lm).0
run (releases t ∷ cs) lm = do (lm', result) ← release_locks t lm; run cs lm'

run-Kept :
    (cs : List Call) (lm last : RmaLockManager)
    → Kept lm.lock_table lm.num_locked_keys
    → run cs lm ≡ some last
    → Kept last.lock_table last.num_locked_keys
unfolding run
run-Kept [] lm last v e =
    subst₂ Kept {x = lm.lock_table} {u = lm.num_locked_keys} (ground arith) (ground arith) v
run-Kept (acquires txn ∷ cs) lm last v e =
    run-Kept cs (acquire_locks txn lm).0 last (acquire_locks-Kept txn lm v) e
run-Kept (releases t ∷ cs) lm last v e =
    let ((lm', result), released, rest) = >>=-eq-some (release_locks t lm) (λ r. run cs r.0) e in
    run-Kept cs lm' last (release_locks-Kept t lm lm' result v released).0 rest

init-Kept : Kept [] 0
unfolding lookup
init-Kept = record {
  sound = λ k s e. absurd (ground arith);
  counter = ground (arith, locked-empty);
}

-- After any calls, every lock of the table is exclusive: a write lock has one holder, a read lock at
-- least one, and a lock that nobody holds has nobody waiting.
pub locks-IsExclusive :
    (cs : List Call) (last : RmaLockManager) (k : List ℕ) (s : LockState)
    → run cs init ≡ some last
    → lookup k last.lock_table ≡ some s
    → IsExclusive s
locks-IsExclusive cs last k s e found =
    let (a, is, v) = (run-Kept cs init last init-Kept e).sound k s found in
    subst IsExclusive (sym is) (state_of-IsExclusive a.granted a.waiting v)

-- After any calls, `num_locked_keys_` is the number of keys with a lock that is held, as a uint32.
pub num_locked_keys_exact :
    (cs : List Call) (last : RmaLockManager)
    → run cs init ≡ some last
    → last.num_locked_keys ≡ locked last.lock_table % 2 ^ 32
num_locked_keys_exact cs last e = (run-Kept cs init last init-Kept e).counter
