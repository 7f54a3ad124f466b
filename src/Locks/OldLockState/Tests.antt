-- ===== src/Locks/OldLockState/Tests.antt =====
-- A writer, two readers behind it, and a release.
use slog.Base.{◌≡◌, refl, some, List, [], ◌∷◌, nat_Eq}
use slog.Locks.Request.{read, write}
use slog.Locks.LockState
use slog.Locks.LockState.{new_lock}
use slog.Locks.LockState.Safety.{Call, acquires, releases, run}
use slog.Locks.OldLockState.Same.{old_of}
use slog.Locks.OldLockState.Runs.{Once, run_old, grantees, run_old-eq-run_new}

abbrev calls : List Call
calls = acquires (1, write) ∷ acquires (2, read) ∷ acquires (3, read) ∷ releases 1 ∷ []

calls-Once : Once calls new_lock
unfolding LockState.contains LockState.acquire_read_lock LockState.acquire_write_lock
    LockState.release
calls-Once = (refl, (refl, (refl, tt)))

run_old-eq-run_new_example :
    run_old calls (old_of new_lock) ≡ some (old_of (run calls new_lock), grantees calls new_lock)
run_old-eq-run_new_example = run_old-eq-run_new calls calls-Once
