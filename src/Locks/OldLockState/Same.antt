-- ===== src/Locks/OldLockState/Same.antt =====
-- OldLockState beside LockState: the state with a set of waiters that stands for one without, and the
-- lemmas on sets and queues.
use slog.Base.{
  ℕ, ◌+◌, ◌≤◌, ◌≡◌, refl, ap, false, List, [], ◌∷◌, ◌++◌, is_empty, elem, erase, count,
  count-append, nat_Eq, nat_eq, arith, Bool-cases, inl, inr,
}
use slog.Locks.LockState
use slog.Locks.LockState.{LockMode, LockState, remove_waiter, waits}
use slog.Locks.OldLockState.{OldLockState, grant_readers}

abbrev pub txns_of : List (ℕ × LockMode) → List ℕ
txns_of [] = []
txns_of (w ∷ ws) = w.0 ∷ txns_of ws

-- The same lock, with the set of those that wait.
abbrev pub old_of : LockState → OldLockState
old_of l = record {
  mode = l.mode;
  holders = l.holders;
  waiters = txns_of l.waiter_queue;
  waiter_queue = l.waiter_queue;
}

-- No transaction holds the lock or waits for it twice.
abbrev pub Apart : LockState → Type 0
Apart l = (t : ℕ) → count t l.holders + count t (txns_of l.waiter_queue) ≤ 1

pub txns_of-append : (xs ys : List (ℕ × LockMode)) → txns_of (xs ++ ys) ≡ txns_of xs ++ txns_of ys
txns_of-append [] ys = refl
txns_of-append (x ∷ xs) ys = ap (◌∷◌ x.0) (txns_of-append xs ys)

pub elem_of_absent : (t : ℕ) (xs : List ℕ) → count t xs ≡ 0 → elem t xs ≡ false
elem_of_absent t [] h = refl
elem_of_absent t (x ∷ xs) h = ground (arith, elem_of_absent t xs)

pub count_of_absent : (t : ℕ) (xs : List ℕ) → elem t xs ≡ false → count t xs ≡ 0
count_of_absent t [] h = refl
count_of_absent t (x ∷ xs) h = ground (arith, count_of_absent t xs)

pub waits-eq : (t : ℕ) (q : List (ℕ × LockMode)) → waits t q ≡ elem t (txns_of q)
waits-eq t [] = refl
waits-eq t (w ∷ q) = ground (arith, waits-eq t q)

pub is_empty-txns_of : (q : List (ℕ × LockMode)) → is_empty (txns_of q) ≡ is_empty q
is_empty-txns_of [] = refl
is_empty-txns_of (w ∷ q) = refl

erase_absent : (t : ℕ) (xs : List ℕ) → elem t xs ≡ false → erase t xs ≡ xs
erase_absent t [] h = refl
erase_absent t (x ∷ xs) h = ground (arith, erase_absent t xs)

remove_absent :
    (t : ℕ) (q : List (ℕ × LockMode)) → elem t (txns_of q) ≡ false → remove_waiter t q ≡ q
remove_absent t [] h = refl
remove_absent t (w ∷ q) h = ground (arith, remove_absent t q)

-- A transaction that waits once leaves the set as it leaves the queue.
pub erase-txns_of :
    (t : ℕ) (q : List (ℕ × LockMode))
    → count t (txns_of q) ≤ 1
    → erase t (txns_of q) ≡ txns_of (remove_waiter t q)
erase-txns_of t [] h = refl
erase-txns_of t (w ∷ q) h = elim (Bool-cases (nat_eq w.0 t)) [
  | inl same ↦
      (let gone : elem t (txns_of q) ≡ false = elem_of_absent t (txns_of q) (ground arith) in
        ground (arith, gone, remove_absent t q gone))
  | inr other ↦ ground (arith, erase-txns_of t q)
]

pub grant_readers-eq :
    (hs : List ℕ) (q : List (ℕ × LockMode))
    → ((t : ℕ) → count t hs + count t (txns_of q) ≤ 1)
    → grant_readers hs (txns_of q) q ≡ old_of (LockState.grant_readers hs q)
unfolding grant_readers
grant_readers-eq hs [] h = refl
grant_readers-eq hs ((t, LockMode.unlocked) ∷ q) h = refl
grant_readers-eq hs ((t, LockMode.write) ∷ q) h = refl
grant_readers-eq hs ((t, LockMode.read) ∷ q) h =
    let new : elem t hs ≡ false = elem_of_absent t hs (ground (arith, h t)) in
    let rest =
      grant_readers-eq (hs ++ t ∷ []) q (λ u. ground (arith, h u, count-append u hs (t ∷ []))) in
    ground (arith, new, rest)
