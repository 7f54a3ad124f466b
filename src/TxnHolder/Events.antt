-- ===== src/TxnHolder/Events.antt =====
-- module/scheduler_components/txn_holder.cpp, FinalizeAndRelease: where each event ends up.
use slog.Base.{
  ℕ, zero, suc, ◌+◌, ◌-◌, ◌≤◌, ◌<◌, ◌≡◌, refl, subst, ◌∙◌, true, false, Option, none, some,
  some_inj, List, [], ◌∷◌, ◌++◌, map, if◌then◌else◌, length, nat_eq, ltb, arith, Option-cases,
  Bool-cases, inl, inr, ℤ, pos, negsuc,
}
use slog.Txn.{Transaction, int_eq}
use slog.TxnHolder.{TxnHolder, slot}
use slog.TxnHolder.Finalize.{
  Event, same_event, nth, drop, homed, lower, cutoff_in, cutoff_of, moved, finalize_and_release,
}

-- One of the events is the same, but for the home.
abbrev pub Kept : Event → List Event → Type 0
Kept e es = (k : ℕ) × (m : Event) × (nth k es ≡ some m) × (same_event m e ≡ true)

lower-le : (main : List Event) (i c : ℕ) (e : Event) → lower main i e c ≤ c
lower-le main i c e = ground arith

cutoff_in-le : (main : List Event) (i c : ℕ) (es : List Event) → cutoff_in main i es c ≤ c
unfolding cutoff_in
cutoff_in-le main i c [] = omega arith
cutoff_in-le main i c (e ∷ es) =
    omega (arith, cutoff_in-le main (suc i) (lower main i e c) es, lower-le main i c e)

nth-below : (k : ℕ) (es : List Event) → k < length es → (m : Event) × (nth k es ≡ some m)
nth-below k [] h = absurd (omega arith)
nth-below zero (e ∷ es) h = (e, refl)
nth-below (suc k) (e ∷ es) h = nth-below k es (omega arith)

-- What one event below the cutoff says.
lower-same :
    (main : List Event) (i c : ℕ) (e : Event)
    → c ≤ length main
    → i < lower main i e c
    → (m : Event) × (nth i main ≡ some m) × (same_event m e ≡ true)
lower-same main i c e fits h =
    let below : i < length main = omega (arith, lower-le main i c e) in
    let (m, found) = nth-below i main below in (m, found, ground arith)

-- Below the cutoff, the events are those of the main transaction.
cutoff_in-same :
    (main : List Event) (i c : ℕ) (es : List Event)
    → c ≤ length main
    → (k : ℕ) (e : Event) → nth k es ≡ some e
    → i + k < cutoff_in main i es c
    → (m : Event) × (nth (i + k) main ≡ some m) × (same_event m e ≡ true)
unfolding cutoff_in
cutoff_in-same main i c [] fits k e found h = absurd (ground arith)
cutoff_in-same main i c (e₁ ∷ es) fits zero e found h =
    let here : i < lower main i e₁ c =
      omega (arith, cutoff_in-le main (suc i) (lower main i e₁ c) es) in
    let (m, there, same) = lower-same main i c e₁ fits here in
    (
      m,
      subst (λ j. nth j main ≡ some m) (omega arith) there,
      subst (λ x. same_event m x ≡ true) (some_inj found) same,
    )
cutoff_in-same main i c (e₁ ∷ es) fits (suc k) e found h =
    let (m, there, same) =
      cutoff_in-same main (suc i) (lower main i e₁ c) es (omega (arith, lower-le main i c e₁)) k e
        found (omega arith) in
    (m, subst (λ j. nth j main ≡ some m) (omega arith) there, same)

cutoff_of-le :
    (main : List Event) (ts : List (Option Transaction)) (c : ℕ) → cutoff_of main ts c ≤ c
unfolding cutoff_of
cutoff_of-le main [] c = omega arith
cutoff_of-le main (none ∷ ts) c = cutoff_of-le main ts c
cutoff_of-le main (some t ∷ ts) c = omega (
  arith,
  cutoff_of-le main ts (cutoff_in main 0 t.internal.events c),
  cutoff_in-le main 0 c t.internal.events,
)

cutoff_of-same :
    (main : List Event) (ts : List (Option Transaction)) (c : ℕ)
    → c ≤ length main
    → (j : ℕ) (t : Transaction) → slot j ts ≡ some (some t)
    → (k : ℕ) (e : Event) → nth k t.internal.events ≡ some e
    → k < cutoff_of main ts c
    → (m : Event) × (nth k main ≡ some m) × (same_event m e ≡ true)
unfolding cutoff_of
cutoff_of-same main [] c fits j t there k e found h = absurd (ground arith)
cutoff_of-same main (none ∷ ts) c fits zero t there k e found h = absurd (ground arith)
cutoff_of-same main (none ∷ ts) c fits (suc j) t there k e found h =
    cutoff_of-same main ts c fits j t there k e found h
cutoff_of-same main (some u ∷ ts) c fits zero t there k e found h =
    let is : u ≡ t = some_inj (some_inj there) in
    let below : k < cutoff_in main 0 u.internal.events c =
      omega (arith, cutoff_of-le main ts (cutoff_in main 0 u.internal.events c)) in
    let (m, found_main, same) =
      cutoff_in-same main 0 c u.internal.events fits k e
        (subst (λ x. nth k x.internal.events ≡ some e) {x = t} {y = u} (ground arith) found)
        (omega arith) in
    (m, subst (λ i. nth i main ≡ some m) (omega arith) found_main, same)
cutoff_of-same main (some u ∷ ts) c fits (suc j) t there k e found h =
    cutoff_of-same main ts (cutoff_in main 0 u.internal.events c)
      (omega (arith, cutoff_in-le main 0 c u.internal.events)) j t there k e found h

nth-append_left :
    (k : ℕ) (xs ys : List Event) (m : Event) → nth k xs ≡ some m → nth k (xs ++ ys) ≡ some m
nth-append_left k [] ys m h = absurd (ground arith)
nth-append_left zero (x ∷ xs) ys m h = h
nth-append_left (suc k) (x ∷ xs) ys m h = nth-append_left k xs ys m h

nth-append_right : (k : ℕ) (xs ys : List Event) → nth (length xs + k) (xs ++ ys) ≡ nth k ys
nth-append_right k [] ys = subst (λ j. nth j ys ≡ nth k ys) {x = k} (omega arith) refl
nth-append_right k (x ∷ xs) ys =
    subst (λ j. nth j (x ∷ xs ++ ys) ≡ nth k ys) {x = suc (length xs + k)} (omega arith)
      (nth-append_right k xs ys)

nth-drop : (c k : ℕ) (xs : List Event) → nth k (drop c xs) ≡ nth (c + k) xs
nth-drop zero k xs = subst (λ j. nth k xs ≡ nth j xs) {x = k} (omega arith) refl
nth-drop (suc c) k [] = refl
nth-drop (suc c) k (x ∷ xs) =
    subst (λ j. nth k (drop c xs) ≡ nth j (x ∷ xs)) {x = suc (c + k)} (omega arith)
      (nth-drop c k xs)

nth-map :
    (f : Event → Event) (k : ℕ) (xs : List Event) (m : Event)
    → nth k xs ≡ some m
    → nth k (map f xs) ≡ some (f m)
nth-map f k [] m h = absurd (ground arith)
nth-map f zero (x ∷ xs) m h = ground arith
nth-map f (suc k) (x ∷ xs) m h = nth-map f k xs m h

moved-nth :
    (main_idx c i : ℕ) (ts : List (Option Transaction)) (j : ℕ) (t : Transaction)
    → slot j ts ≡ some (some t)
    → nat_eq (i + j) main_idx ≡ false
    → (k : ℕ) (m : Event) → nth k (drop c (homed t)) ≡ some m
    → (k' : ℕ) × (nth k' (moved main_idx c i ts) ≡ some m)
unfolding moved
moved-nth idx c i [] j t there ne k m found = absurd (ground arith)
moved-nth idx c i (none ∷ ts) zero t there ne k m found = absurd (ground arith)
moved-nth idx c i (none ∷ ts) (suc j) t there ne k m found =
    moved-nth idx c (suc i) ts j t there (ground arith) k m found
moved-nth idx c i (some u ∷ ts) zero t there ne k m found =
    let is : t ≡ u = ground arith in
    let here : nat_eq i idx ≡ false = ground arith in
    (
      k,
      rw here (
          nth-append_left k (drop c (homed u)) (moved idx c (suc i) ts) m
            (subst (λ x. nth k (drop c (homed x)) ≡ some m) is found)),
    )
moved-nth idx c i (some u ∷ ts) (suc j) t there ne k m found =
    let before = if nat_eq i idx then [] else drop c (homed u) in
    let (k', later) = moved-nth idx c (suc i) ts j t there (ground arith) k m found in
    (length before + k', nth-append_right k' before (moved idx c (suc i) ts) ∙ later)

int_eq_refl : (a : ℤ) → int_eq a a ≡ true
int_eq_refl (pos n) = ground arith
int_eq_refl (negsuc n) = ground arith

same_event_refl : (e : Event) → same_event e e ≡ true
same_event_refl e = ground (arith, int_eq_refl e.time, int_eq_refl e.machine)

-- The events after the second loop.
abbrev all_events : TxnHolder → Transaction → List Event
all_events h main =
    homed main
    ++ moved h.main_txn_idx (cutoff_of main.internal.events h.lo_txns (length main.internal.events))
        0 h.lo_txns

all_events-Kept :
    (h : TxnHolder) (main : Transaction)
    → slot h.main_txn_idx h.lo_txns ≡ some (some main)
    → (j : ℕ) (t : Transaction) → slot j h.lo_txns ≡ some (some t)
    → (k : ℕ) (e : Event) → nth k t.internal.events ≡ some e
    → Kept e (all_events h main)
all_events-Kept h main is_main j t there k e found = elim (Bool-cases (ltb k cutoff)) [
  | inl below ↦
      (let (m, at, same) =
          cutoff_of-same main.internal.events h.lo_txns (length main.internal.events) (omega arith)
            j t there k e found (ground arith) in
        (
          k,
          record m { home = main.internal.home },
          nth-append_left k (homed main) rest _ (nth-map _ k main.internal.events m at),
          same,
        ))
  | inr after ↦ elim (Bool-cases (nat_eq j h.main_txn_idx)) [
    | inl main_one ↦
        (let is : t ≡ main = ground arith in
          (
            k,
            record e { home = main.internal.home },
            nth-append_left k (homed main) rest _ (
                nth-map _ k main.internal.events e
                  (subst (λ x. nth k x.internal.events ≡ some e) is found)),
            same_event_refl e,
          ))
    | inr other ↦
        (let dropped : nth (k - cutoff) (drop cutoff (homed t))
              ≡ some (record e { home = t.internal.home }) =
            nth-drop cutoff (k - cutoff) (homed t)
            ∙ subst (λ i. nth i (homed t) ≡ some (record e { home = t.internal.home })) {x = k}
                (ground arith) (nth-map _ k t.internal.events e found) in
          let (k', at) =
            moved-nth h.main_txn_idx cutoff 0 h.lo_txns j t there (ground arith) (k - cutoff)
              (record e { home = t.internal.home }) dropped in
          (
            length (homed main) + k',
            record e { home = t.internal.home },
            nth-append_right k' (homed main) rest ∙ at,
            same_event_refl e,
          ))
  ]
]
  where
    cutoff : ℕ
    cutoff = cutoff_of main.internal.events h.lo_txns (length main.internal.events)

    rest : List Event
    rest = moved h.main_txn_idx cutoff 0 h.lo_txns

-- Finalizing loses no event: each event of each transaction of the holder is in the transaction
-- that is returned, up to the home of the event.
pub finalize_and_release-Kept :
    (h h' : TxnHolder) (txn : Transaction)
    → finalize_and_release h ≡ some (txn, h')
    → (j : ℕ) (t : Transaction) → slot j h.lo_txns ≡ some (some t)
    → (k : ℕ) (e : Event) → nth k t.internal.events ≡ some e
    → Kept e txn.internal.events
unfolding finalize_and_release
finalize_and_release-Kept h h' txn done j t there k e found =
    elim (Option-cases (slot h.main_txn_idx h.lo_txns)) [
      | inl beyond ↦ absurd (ground arith)
      | inr (none, missing) ↦ absurd (ground arith)
      | inr (some main, is_main) ↦
          subst (Kept e) {x = all_events h main} (ground arith)
            (all_events-Kept h main is_main j t there k e found)
    ]
