-- ===== src/Scheduler/Tests.antt =====
-- Two transactions that write the same key: the second is dispatched when the first is done.
use slog.Base.{ℕ, ◌≡◌, ◌≢◌, refl, List, [], ◌∷◌, lookup, insert, erase_key, sort_unique, ◌-ℤ◌, ◌+ℤ◌}
use slog.Locks.Fixtures.{writer, second_writer}
use slog.Locks.Rma.{
  RmaLockManager, acquire_locks, acquire_keys, acquire_key, release_locks, release_keys,
  release_key, grant_all,
}
use slog.TxnHolder.{new_holder}
use slog.Locks.LockState.{acquire_read_lock, acquire_write_lock, release}
use slog.Scheduler.{
  Scheduler, Outcome, empty, process_transaction, enter, send_to_lock_manager, dispatch, on_done,
  release_and_dispatch, dispatch_all,
}
use slog.Scheduler.Active.{Good}
use slog.Scheduler.Managers.{rma}
use slog.Scheduler.DdrManager.{ddr}
use slog.Scheduler.Dispatched.{Happening, run, step, never_missing}

abbrev happenings : List Happening
happenings = Happening.received writer ∷ Happening.received second_writer ∷ Happening.done 100 ∷ []

never_missing_example :
    (run rma 1 happenings (empty rma) ≢ Outcome.missing_txn)
    × ((s : Scheduler RmaLockManager)
        → run rma 1 happenings (empty rma) ≡ Outcome.returns s
        → Good rma s)
never_missing_example = never_missing rma 1 happenings

abbrev dispatched : Outcome (Scheduler RmaLockManager) → List ℕ
dispatched (Outcome.returns s) = s.dispatched
dispatched _ = []

dispatches : dispatched (run rma 1 happenings (empty rma)) ≡ 100 ∷ 200 ∷ []
unfolding slog.Locks.KeyReplica.make_key_replica run step process_transaction enter new_holder
    send_to_lock_manager dispatch on_done release_and_dispatch dispatch_all acquire_locks
    acquire_keys acquire_key release_locks release_keys release_key grant_all lookup insert
    erase_key sort_unique acquire_read_lock acquire_write_lock release ◌-ℤ◌ ◌+ℤ◌
dispatches = refl

-- The same with the other lock manager.
ddr_never_missing : run ddr 1 happenings (empty ddr) ≢ Outcome.missing_txn
ddr_never_missing = (never_missing ddr 1 happenings).0
