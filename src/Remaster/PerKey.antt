-- ===== src/Remaster/PerKey.antt =====
-- module/scheduler_components/per_key_remaster_manager.cpp, InsertIntoBlockedQueue: the queue of a
-- key, lowest counter first, earliest arrival first among equals.
use mathlib.Core.List.{append-nil}
use slog.Base.{
  ℕ, ◌≤◌, ◌≡◌, ◌≢◌, refl, subst, list_eq_iff, false, List, [], ◌∷◌, ◌++◌, arith, All, Map, get_or,
  lookup, insert, bytes_Eq, leb, nat_eq, if◌then◌else◌, lookup-insert, Bool-cases, inl, inr,
}
use slog.Txn.{Transaction}

abbrev pub Queue : Type 0
Queue = List (Transaction × ℕ)

-- The loop that finds the place, and the insertion there.
unfoldable pub insert_by_counter : Transaction → ℕ → Queue → Queue
insert_by_counter txn counter [] = (txn, counter) ∷ []
insert_by_counter txn counter (e ∷ q) =
    let later = e ∷ insert_by_counter txn counter q in
    if leb e.1 counter then later else (txn, counter) ∷ e ∷ q

-- `InsertIntoBlockedQueue`
unfoldable pub insert_into_blocked_queue :
    List ℕ → ℕ → Transaction → Map (List ℕ) Queue → Map (List ℕ) Queue
unfolding insert_by_counter
insert_into_blocked_queue key counter txn blocked_queue =
    insert key (insert_by_counter txn counter (get_or key [] blocked_queue)) blocked_queue

abbrev pub Sorted : Queue → Type 0
Sorted [] = Unit
Sorted (e ∷ q) = All (λ x. e.1 ≤ x.1) q × Sorted q

-- The transactions that wait with a counter, in their order.
abbrev pub with_counter : ℕ → Queue → List Transaction
with_counter c [] = []
with_counter c (e ∷ q) = if nat_eq e.1 c then e.0 ∷ with_counter c q else with_counter c q

All-insert_by_counter :
    (lo c : ℕ) (txn : Transaction) (q : Queue)
    → lo ≤ c
    → All (λ x. lo ≤ x.1) q
    → All (λ x. lo ≤ x.1) (insert_by_counter txn c q)
unfolding insert_by_counter
All-insert_by_counter lo c txn [] h a = (h, tt)
All-insert_by_counter lo c txn (e ∷ q) h a = elim (Bool-cases (leb e.1 c)) [
  | inl le ↦ rw le (a.0, All-insert_by_counter lo c txn q h a.1)
  | inr gt ↦ rw gt (h, a)
]

All-weaken : (lo hi : ℕ) (q : Queue) → lo ≤ hi → All (λ x. hi ≤ x.1) q → All (λ x. lo ≤ x.1) q
All-weaken lo hi [] h a = tt
All-weaken lo hi (e ∷ q) h a = (omega arith, All-weaken lo hi q h a.1)

insert_by_counter-Sorted :
    (txn : Transaction) (c : ℕ) (q : Queue) → Sorted q → Sorted (insert_by_counter txn c q)
unfolding insert_by_counter
insert_by_counter-Sorted txn c [] s = (tt, tt)
insert_by_counter-Sorted txn c (e ∷ q) s = elim (Bool-cases (leb e.1 c)) [
  | inl le ↦
      rw le
        (All-insert_by_counter e.1 c txn q (ground arith) s.0, insert_by_counter-Sorted txn c q s.1)
  | inr gt ↦ rw gt ((ground arith, All-weaken c e.1 q (ground arith) s.0), s)
]

none_with :
    (c d : ℕ) (q : Queue)
    → c ≤ d
    → nat_eq c d ≡ false
    → All (λ x. d ≤ x.1) q
    → with_counter c q ≡ []
none_with c d [] h ne a = refl
none_with c d (e ∷ q) h ne a = ground (arith, none_with c d q)

with_counter-insert :
    (c d : ℕ) (txn : Transaction) (q : Queue)
    → Sorted q
    → with_counter d (insert_by_counter txn c q)
      ≡ with_counter d q ++ (if nat_eq c d then txn ∷ [] else [])
unfolding insert_by_counter
with_counter-insert c d txn [] s = ground arith
with_counter-insert c d txn (e ∷ q) s = elim (Bool-cases (leb e.1 c)) [
  | inl le ↦ ground (arith, with_counter-insert c d txn q s.1)
  | inr gt ↦ elim (Bool-cases (nat_eq c d)) [
    | inl same ↦ ground (arith, none_with d e.1 q)
    | inr other ↦ ground (arith, append-nil (with_counter d (e ∷ q)))
  ]
]

-- An insertion into the sorted queue of a key leaves it sorted, with the transaction behind those of
-- its counter and no other moved, and leaves the queues of other keys as they are.
pub insert_into_blocked_queue-Sorted :
    (key : List ℕ) (counter : ℕ) (txn : Transaction) (blocked_queue : Map (List ℕ) Queue)
    → Sorted (get_or key [] blocked_queue)
    → let after = insert_into_blocked_queue key counter txn blocked_queue in
      Sorted (get_or key [] after)
      × ((d : ℕ)
          → with_counter d (get_or key [] after)
            ≡ with_counter d (get_or key [] blocked_queue)
              ++ (if nat_eq counter d then txn ∷ [] else []))
      × ((j : List ℕ) → j ≢ key → lookup j after ≡ lookup j blocked_queue)
unfolding insert_into_blocked_queue
insert_into_blocked_queue-Sorted key c txn m s =
    let old = get_or key [] m in
    let new = insert_by_counter txn c old in
    let is : new ≡ get_or key [] (insert key new m) =
      ground (arith, list_eq_iff key key, lookup-insert key key new m) in
    (
      subst Sorted is (insert_by_counter-Sorted txn c old s),
      (λ d.
          subst
            (λ q. with_counter d q ≡ with_counter d old ++ (if nat_eq c d then txn ∷ [] else [])) is
            (with_counter-insert c d txn old s)),
      (λ j ne. ground (arith, list_eq_iff key j, lookup-insert key j new m)),
    )
