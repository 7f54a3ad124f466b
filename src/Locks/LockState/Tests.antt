-- ===== src/Locks/LockState/Tests.antt =====
-- One lock in use.
use slog.Base.{◌≡◌, refl, ◌&&◌, List, [], ◌∷◌, is_empty, inr}
use slog.Locks.Request.{read, write, Requests, IsSound, request, leave, served, is_compatible}
use slog.Locks.LockState.{new_lock, release}
use slog.Locks.LockState.Refines.{state_of, acquire, acquire-refines, release-refines}
use slog.Locks.LockState.Safety.{Call, acquires, releases, run, IsExclusive, run-IsExclusive}

-- A writer holds the lock; two readers and a writer wait.
abbrev busy : Requests
busy = record { granted = (1, write) ∷ []; waiting = (2, read) ∷ (3, read) ∷ (4, write) ∷ [] }

busy-IsSound : IsSound busy
busy-IsSound = record { shared = inr (1, refl); used = tt }

acquire-refines_example : acquire (5, read) (state_of busy) ≡ (
  state_of (request (5, read) busy),
  is_empty busy.waiting && is_compatible (5, read) busy.granted,
)
acquire-refines_example = acquire-refines (5, read) busy busy-IsSound

release-refines_example : release 1 (state_of busy) ≡ (state_of (leave 1 busy), served 1 busy)
release-refines_example = release-refines 1 busy busy-IsSound

abbrev calls : List Call
calls =
    acquires (1, write)
    ∷ acquires (2, read)
    ∷ acquires (3, read)
    ∷ acquires (4, write)
    ∷ releases 1
    ∷ []

run-IsExclusive_example : IsExclusive (run calls new_lock)
run-IsExclusive_example = run-IsExclusive calls
