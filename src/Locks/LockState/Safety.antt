-- ===== src/Locks/LockState/Safety.antt =====
-- A lock state in use: sequences of acquires and releases.
use slog.Base.{
  ℕ, ◌≡◌, refl, sym, ap, subst, ◌∙◌, false, List, [], ◌∷◌, length, arith, inl, nat_Eq, is_empty,
}
use slog.Locks.Request.{KeyType, Request, Requests, IsSound, request, leave, no_requests}
use slog.Locks.Request.Laws.{request-IsSound, leave-IsSound}
use slog.Locks.LockState.{LockMode, LockState, new_lock, release}
use slog.Locks.LockState.Refines.{state_of, acquire, acquire-refines, release-refines}

-- A call on the lock of one key.
pub data Call : Type 0 where
  acquires : Request → Call
  releases : ℕ → Call

unfoldable pub call : Call → LockState → LockState
call (acquires r) s = (acquire r s).0
call (releases t) s = (release t s).0

unfoldable pub run : List Call → LockState → LockState
unfolding call
run [] s = s
run (c ∷ cs) s = run cs (call c s)

-- The same calls on the requests.
abbrev pub requests : List Call → Requests → Requests
requests [] a = a
requests (acquires r ∷ cs) a = requests cs (request r a)
requests (releases t ∷ cs) a = requests cs (leave t a)

pub run-eq-requests :
    (cs : List Call) (a : Requests)
    → IsSound a
    → (run cs (state_of a) ≡ state_of (requests cs a)) × IsSound (requests cs a)
unfolding run
run-eq-requests [] a v = (refl, v)
run-eq-requests (acquires r ∷ cs) a v =
    let (e, v') = run-eq-requests cs (request r a) (request-IsSound r a v) in
    (ap (λ p. run cs p.0) (acquire-refines r a v) ∙ e, v')
run-eq-requests (releases t ∷ cs) a v =
    let (e, v') = run-eq-requests cs (leave t a) (leave-IsSound t a v) in
    (ap (λ p. run cs p.0) (release-refines t a v) ∙ e, v')

no_requests-IsSound : IsSound no_requests
no_requests-IsSound = record { shared = inl refl; used = refl }

-- A write lock has one holder, a read lock at least one, and where nobody holds the lock nobody
-- waits for it.
abbrev pub IsExclusive : LockState → Type 0
IsExclusive s = elim s.mode [
  | LockMode.write ↦ length s.holders ≡ 1
  | LockMode.read ↦ is_empty s.holders ≡ false
  | LockMode.unlocked ↦ (s.holders ≡ []) × (s.waiter_queue ≡ [])
]

pub state_of-IsExclusive :
    (gs : List Request) (ws : List Request)
    → IsSound (record { granted = gs; waiting = ws })
    → IsExclusive (state_of (record { granted = gs; waiting = ws }))
state_of-IsExclusive [] ws v = (refl, rw (v.used))
state_of-IsExclusive ((t, KeyType.read) ∷ gs) ws v = refl
state_of-IsExclusive ((t, KeyType.write) ∷ []) ws v = refl
state_of-IsExclusive ((t, KeyType.write) ∷ g ∷ gs) ws v = absurd (ground (arith, v.shared))

-- After any sequence of acquires and releases on a new lock, a write lock has exactly one holder, a
-- read lock at least one, and an unlocked one neither holders nor waiters.
pub run-IsExclusive : (cs : List Call) → IsExclusive (run cs new_lock)
run-IsExclusive cs =
    let (e, v) = run-eq-requests cs no_requests no_requests-IsSound in
    let a = requests cs no_requests in
    subst IsExclusive (sym e) (state_of-IsExclusive a.granted a.waiting v)
