-- ===== src/Locks/Request/Laws.antt =====
-- Requests and departures, against what a lock promises.
use mathlib.Core.List.{append_assoc, append-nil}
use slog.Base.{
  ℕ, ◌≡◌, refl, ap, ◌∙◌, true, false, ◌&&◌, List, [], ◌∷◌, ◌++◌, is_empty, elem, arith,
  if◌then◌else◌, nat_Eq, ◌==◌, inl, inr, Bool-cases,
}
use slog.Locks.Request.{
  read, write, Request, Requests, IsSound, Shared, Used, request, leave, readers, after_readers,
  promote, txns, all_read, is_compatible, drop_first, drop_all, left_with,
}

-- All that is asked of the lock, in the order in which it was asked.
abbrev pub in_order : Requests → List Request
in_order a = a.granted ++ a.waiting

all_read-append :
    (gs : List Request) (t : ℕ) → all_read gs ≡ true → all_read (gs ++ (t, read) ∷ []) ≡ true
all_read-append [] t h = refl
all_read-append ((u, read) ∷ gs) t h = all_read-append gs t h
all_read-append ((u, write) ∷ gs) t h = absurd (ground arith)

all_read-drop_first :
    (t : ℕ) (gs : List Request) → all_read gs ≡ true → all_read (drop_first t gs) ≡ true
all_read-drop_first t [] h = refl
all_read-drop_first t ((u, read) ∷ gs) h = ground (arith, all_read-drop_first t gs h)
all_read-drop_first t ((u, write) ∷ gs) h = absurd (ground arith)

all_read-readers : (ws : List Request) → all_read (readers ws) ≡ true
all_read-readers [] = refl
all_read-readers ((t, read) ∷ ws) = all_read-readers ws
all_read-readers ((t, write) ∷ ws) = refl

Used-append : (gs ws : List Request) (r : Request) → Used (gs ++ r ∷ []) []
Used-append [] ws r = tt
Used-append (g ∷ gs) ws r = tt

request-IsSound' :
    (r : Request) (gs ws : List Request)
    → Shared gs
    → Used gs ws
    → IsSound (request r (record { granted = gs; waiting = ws }))
request-IsSound' (t, read) [] [] s u = record { shared = inl refl; used = tt }
request-IsSound' (t, write) [] [] s u = record { shared = inr (t, refl); used = tt }
request-IsSound' r [] (w ∷ ws) s u = absurd (ground arith)
request-IsSound' (t, write) (g ∷ gs) [] s u = record { shared = s; used = tt }
request-IsSound' (t, write) (g ∷ gs) (w ∷ ws) s u = record { shared = s; used = tt }
request-IsSound' (t, read) (g ∷ gs) [] s u = elim (Bool-cases (all_read (g ∷ gs))) [
  | inl h ↦ rw h (record { shared = inl (all_read-append (g ∷ gs) t h); used = tt })
  | inr h ↦ rw h (record { shared = s; used = tt })
]
request-IsSound' (t, read) (g ∷ gs) (w ∷ ws) s u = record { shared = s; used = tt }

promote-IsSound : (ws : List Request) → IsSound (promote ws)
promote-IsSound [] = record { shared = inl refl; used = refl }
promote-IsSound ((t, read) ∷ ws) = record { shared = inl (all_read-readers ws); used = tt }
promote-IsSound ((t, write) ∷ ws) = record { shared = inr (t, refl); used = tt }

Shared-drop_first : (t : ℕ) (gs : List Request) → Shared gs → Shared (drop_first t gs)
Shared-drop_first t gs (inl h) = inl (all_read-drop_first t gs h)
Shared-drop_first t gs (inr (u, e)) =
    rw e (elim (Bool-cases (u == t)) [ inl h ↦ rw h (inl refl) | inr h ↦ rw h (inr (u, refl)) ])

left_with-IsSound : (gs ws : List Request) → Shared gs → IsSound (left_with gs ws)
left_with-IsSound [] ws s = promote-IsSound ws
left_with-IsSound (g ∷ gs) ws s = record { shared = s; used = tt }

Used-drop_all : (t : ℕ) (gs ws : List Request) → Used gs ws → Used gs (drop_all t ws)
Used-drop_all t [] ws u = rw u
Used-drop_all t (g ∷ gs) ws u = tt

pub request-IsSound : (r : Request) (a : Requests) → IsSound a → IsSound (request r a)
request-IsSound r a v = request-IsSound' r a.granted a.waiting v.shared v.used

pub leave-IsSound : (t : ℕ) (a : Requests) → IsSound a → IsSound (leave t a)
leave-IsSound t a v = elim (Bool-cases (elem t (txns a.granted))) [
  | inl h ↦ rw h (
      left_with-IsSound (drop_first t a.granted) a.waiting (Shared-drop_first t a.granted v.shared))
  | inr h ↦ rw h (record { shared = v.shared; used = Used-drop_all t a.granted a.waiting v.used })
]

-- A new request comes last.
pub in_order-request : (r : Request) (a : Requests) → in_order (request r a) ≡ in_order a ++ r ∷ []
in_order-request r a = elim (Bool-cases (is_empty a.waiting && is_compatible r a.granted)) [
  | inl h ↦ ground (
    arith,
    append_assoc a.granted a.waiting (r ∷ []),
    append-nil a.granted,
    append-nil (a.granted ++ r ∷ []),
  )
  | inr h ↦ ground (arith, append_assoc a.granted a.waiting (r ∷ []))
]

readers-append : (ws : List Request) → readers ws ++ after_readers ws ≡ ws
readers-append [] = refl
readers-append ((t, read) ∷ ws) = ap (◌∷◌ (t, read)) (readers-append ws)
readers-append ((t, write) ∷ ws) = refl

in_order-promote : (ws : List Request) → in_order (promote ws) ≡ ws
in_order-promote [] = refl
in_order-promote ((t, read) ∷ ws) = ap (◌∷◌ (t, read)) (readers-append ws)
in_order-promote ((t, write) ∷ ws) = refl

in_order-left_with : (gs ws : List Request) → in_order (left_with gs ws) ≡ gs ++ ws
in_order-left_with [] ws = in_order-promote ws
in_order-left_with (g ∷ gs) ws = refl

drop_first-append :
    (t : ℕ) (gs ws : List Request)
    → elem t (txns gs) ≡ true
    → drop_first t gs ++ ws ≡ drop_first t (gs ++ ws)
drop_first-append t [] ws h = absurd (ground arith)
drop_first-append t (g ∷ gs) ws h = ground (arith, drop_first-append t gs ws)

drop_all-append :
    (t : ℕ) (gs ws : List Request)
    → elem t (txns gs) ≡ false
    → gs ++ drop_all t ws ≡ drop_all t (gs ++ ws)
drop_all-append t [] ws h = refl
drop_all-append t (g ∷ gs) ws h = ground (arith, drop_all-append t gs ws)

-- A departure takes out requests of that transaction only, and moves no other: whoever asked
-- before another is still before it, granted or waiting.
pub in_order-leave :
    (t : ℕ) (a : Requests)
    → in_order (leave t a)
      ≡ (if elem t (txns a.granted) then drop_first t (in_order a) else drop_all t (in_order a))
in_order-leave t a = elim (Bool-cases (elem t (txns a.granted))) [
  | inl h ↦ rw h (
      in_order-left_with (drop_first t a.granted) a.waiting
      ∙ drop_first-append t a.granted a.waiting h)
  | inr h ↦ rw h (drop_all-append t a.granted a.waiting h)
]
