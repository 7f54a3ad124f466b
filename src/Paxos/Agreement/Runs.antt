-- ===== src/Paxos/Agreement/Runs.antt =====
-- What a leader sends over a whole run, for one slot.
use slog.Base.{
  ℕ, ◌+◌, ◌/◌, ◌≤◌, ◌≡◌, refl, sym, subst, ◌∙◌, Option, none, some, some_inj, List, [], ◌∷◌, ◌⊎◌,
  inl, inr, All, All-append, All-imp, arith, Map, lookup, nat_Eq, length,
}
use slog.Paxos.{Message, propose, accept, commit, accepted, committed, Effect, sends, reports}
use slog.Paxos.Leader.{Leader}
use slog.Paxos.Agreement.{
  handle, run, Fitting, acks, Allowed, Inv, Extends, Extends-refl, handle-After,
}

-- The messages got, newest first.
abbrev received : List Message → List Message → List Message
received [] got = got
received (m ∷ ms) got = received ms (m ∷ got)

acks-cons :
    (s : ℕ) (m : Message) (ms : List Message) → acks s (m ∷ ms) ≡ acks s (m ∷ []) + acks s ms
acks-cons s (accepted b s') ms = omega arith
acks-cons s (propose w) ms = omega arith
acks-cons s (accept b s' w) ms = omega arith
acks-cons s (commit s' w l') ms = omega arith
acks-cons s (committed s') ms = omega arith

acks-received : (s : ℕ) (ms got : List Message) → acks s (received ms got) ≡ acks s ms + acks s got
acks-received s [] got = omega arith
acks-received s (m ∷ ms) got =
    omega (arith, acks-received s ms (m ∷ got), acks-cons s m ms, acks-cons s m got)

-- What was allowed stays allowed to the end of the run.
Allowed-later :
    (q : ℕ) (c c' : Map ℕ ℕ) (ms got : List Message) (e : Effect)
    → Extends c c'
    → Allowed q c got e
    → Allowed q c' (received ms got) e
Allowed-later q c c' ms got (sends (accept b s v) to) x h = x.keeps s v h
Allowed-later q c c' ms got (sends (commit s v l) to) x h =
    (x.keeps s v h.0, omega (arith, h.1, acks-received s ms got))
Allowed-later q c c' ms got (sends (propose w) to) x h = tt
Allowed-later q c c' ms got (sends (accepted b s) to) x h = tt
Allowed-later q c c' ms got (sends (committed s) to) x h = tt
Allowed-later q c c' ms got (reports s v l) x h = tt

run-Allowed :
    (q : ℕ) (chosen : Map ℕ ℕ) (got ms : List Message) (l : Leader)
    → Inv q chosen got l
    → Fitting ms l
    → (chosen' : Map ℕ ℕ) × Extends chosen chosen'
      × All (Allowed q chosen' (received ms got)) (run ms l).1
unfolding run
run-Allowed q chosen got [] l v f = (chosen, Extends-refl chosen, tt)
run-Allowed q chosen got (m ∷ ms) l v f =
    let (c₁, x₁, v₁, now) = handle-After q chosen got l v m f.0 in
    let (c₂, x₂, later) = run-Allowed q c₁ (m ∷ got) ms (handle m l).0 v₁ f.1 in
    (
      c₂,
      record { keeps = λ s w h. x₂.keeps s w (x₁.keeps s w h) },
      All-append (Allowed q c₂ (received ms (m ∷ got))) (handle m l).1 (run ms (handle m l).0).1
          (All-imp (Allowed q c₁ (m ∷ got)) (Allowed q c₂ (received ms (m ∷ got))) (handle m l).1
            (λ e h. Allowed-later q c₁ c₂ ms (m ∷ got) e x₂ h) now)
          later,
    )

-- The effect is one of the list.
abbrev pub Has : Effect → List Effect → Type 0
Has e [] = ⊥
Has e (x ∷ xs) = (x ≡ e) ⊎ Has e xs

-- The slot and the value that an accept or a commit request carries.
abbrev pub carries : Effect → Option (ℕ × ℕ)
carries (sends (accept b s v) to) = some (s, v)
carries (sends (commit s v l) to) = some (s, v)
carries _ = none

All-Has : (P : Effect → Type 0) (e : Effect) (xs : List Effect) → All P xs → Has e xs → P e
All-Has P e [] h m = absurd m
All-Has P e (x ∷ xs) h (inl is) = subst P is h.0
All-Has P e (x ∷ xs) h (inr m) = All-Has P e xs h.1 m

carried :
    (q : ℕ) (chosen : Map ℕ ℕ) (got : List Message) (e : Effect) (s v : ℕ)
    → carries e ≡ some (s, v)
    → Allowed q chosen got e
    → lookup s chosen ≡ some v
carried q chosen got (sends (accept b s' w) to) s v e h = ground arith
carried q chosen got (sends (commit s' w l) to) s v e h = ground arith
carried q chosen got (sends (propose w) to) s v e h = absurd (ground arith)
carried q chosen got (sends (accepted b s') to) s v e h = absurd (ground arith)
carried q chosen got (sends (committed s') to) s v e h = absurd (ground arith)
carried q chosen got (reports s' w l) s v e h = absurd (ground arith)

module _ (ms : List Message) (l : Leader) (fresh : l.instances ≡ []) (fits : Fitting ms l) where
  start : Inv (length l.acceptors / 2 + 1) [] [] l
  unfolding lookup
  start = record {
    quorum = refl;
    below = λ s v h. absurd (ground arith);
    started = λ s i h. absurd (ground arith);
  }

  -- All accept and commit requests that a leader sends for one slot carry the same value, from any
  -- messages in any order, as long as slot numbers do not wrap.
  pub agreement :
      (e e' : Effect) (s v w : ℕ)
      → Has e (run ms l).1
      → Has e' (run ms l).1
      → carries e ≡ some (s, v)
      → carries e' ≡ some (s, w)
      → v ≡ w
  agreement e e' s v w m m' c c' =
      let (chosen, _, allowed) = run-Allowed (length l.acceptors / 2 + 1) [] [] ms l start fits in
      let P = Allowed (length l.acceptors / 2 + 1) chosen (received ms []) in
      some_inj (
        sym (carried _ chosen (received ms []) e s v c (All-Has P e (run ms l).1 allowed m))
        ∙ carried _ chosen (received ms []) e' s w c' (All-Has P e' (run ms l).1 allowed m'))

  -- As long as no slot number wraps at 2^32, a leader that starts without instances sends the commit
  -- of a slot only when at least a majority, in number, of accept responses for that slot has come.
  pub commit_at_majority :
      (s v leader : ℕ) (to : List ℕ)
      → Has (sends (commit s v leader) to) (run ms l).1
      → length l.acceptors / 2 + 1 ≤ acks s ms
  commit_at_majority s v leader to m =
      let (chosen, _, allowed) = run-Allowed (length l.acceptors / 2 + 1) [] [] ms l start fits in
      let P = Allowed (length l.acceptors / 2 + 1) chosen (received ms []) in
      omega (
        arith,
        (All-Has P (sends (commit s v leader) to) (run ms l).1 allowed m).1,
        acks-received s ms [],
      )
