-- ===== src/Locks/OldLockState/Runs.antt =====
-- The calls of OldLockState against those of LockState, one by one and in sequence.
use slog.Base.{
  ℕ, ◌+◌, ◌≤◌, ◌≡◌, refl, ap, sym, subst, ◌∙◌, Bool, true, false, Option, some, List, [], ◌∷◌, ◌++◌,
  is_empty, elem, erase, count, count-append, if◌then◌else◌, nat_Eq, nat_eq, arith, Bool-cases, inl,
  inr, ◌>>=◌,
}
use slog.Locks.Request.{KeyType, Request}
use slog.Locks.LockState
use slog.Locks.LockState.{LockMode, LockState, new_lock, remove_waiter, waits}
use slog.Locks.LockState.Refines.{acquire}
use slog.Locks.LockState.Safety.{Call, acquires, releases, run, call}
use slog.Locks.OldLockState.{
  OldLockState, acquire_read_lock, acquire_write_lock, grant_readers, hand_on, release,
}
use slog.Locks.OldLockState.Same.{
  txns_of, old_of, Apart, erase-txns_of, grant_readers-eq, txns_of-append, count_of_absent,
  waits-eq, is_empty-txns_of,
}

abbrev pub acquire_old : Request → OldLockState → OldLockState × Bool
acquire_old (t, KeyType.read) s = acquire_read_lock t s
acquire_old (t, KeyType.write) s = acquire_write_lock t s

acquire-eq :
    (r : Request) (l : LockState)
    → LockState.contains r.0 l ≡ false
    → acquire_old r (old_of l) ≡ (old_of (acquire r l).0, (acquire r l).1)
unfolding acquire_read_lock acquire_write_lock LockState.acquire_read_lock
    LockState.acquire_write_lock LockState.contains
acquire-eq (t, KeyType.read) l h = ground (
  arith,
  waits-eq t l.waiter_queue,
  is_empty-txns_of l.waiter_queue,
  txns_of-append l.waiter_queue ((t, LockMode.read) ∷ []),
)
acquire-eq (t, KeyType.write) l h =
    ground
      (arith, waits-eq t l.waiter_queue, txns_of-append l.waiter_queue ((t, LockMode.write) ∷ []))

count-asked :
    (u : ℕ) (r : Request) (l : LockState)
    → count u (acquire r l).0.holders + count u (txns_of (acquire r l).0.waiter_queue)
      ≡ count u l.holders + count u (txns_of l.waiter_queue) + (if nat_eq r.0 u then 1 else 0)
unfolding LockState.acquire_read_lock LockState.acquire_write_lock
count-asked u (t, KeyType.read) l = ground (
  arith,
  count-append u l.holders (t ∷ []),
  txns_of-append l.waiter_queue ((t, LockMode.read) ∷ []),
  count-append u (txns_of l.waiter_queue) (t ∷ []),
)
count-asked u (t, KeyType.write) l = ground (
  arith,
  count-append u l.holders (t ∷ []),
  txns_of-append l.waiter_queue ((t, LockMode.write) ∷ []),
  count-append u (txns_of l.waiter_queue) (t ∷ []),
)

acquire-Apart :
    (r : Request) (l : LockState)
    → Apart l
    → LockState.contains r.0 l ≡ false
    → Apart (acquire r l).0
unfolding LockState.contains
acquire-Apart r l a h u = ground (
  arith,
  count-asked u r l,
  a u,
  count_of_absent r.0 l.holders,
  count_of_absent r.0 (txns_of l.waiter_queue),
  waits-eq r.0 l.waiter_queue,
)

count-erase_le : (u t : ℕ) (xs : List ℕ) → count u (erase t xs) ≤ count u xs
count-erase_le u t [] = omega arith
count-erase_le u t (x ∷ xs) = ground (arith, count-erase_le u t xs)

count-remove_le :
    (u t : ℕ) (q : List (ℕ × LockMode))
    → count u (txns_of (remove_waiter t q)) ≤ count u (txns_of q)
count-remove_le u t [] = omega arith
count-remove_le u t (w ∷ q) = ground (arith, count-remove_le u t q)

count-granted :
    (u : ℕ) (hs : List ℕ) (q : List (ℕ × LockMode))
    → count u (LockState.grant_readers hs q).holders
        + count u (txns_of (LockState.grant_readers hs q).waiter_queue)
      ≡ count u hs + count u (txns_of q)
count-granted u hs [] = refl
count-granted u hs ((t, LockMode.unlocked) ∷ q) = refl
count-granted u hs ((t, LockMode.write) ∷ q) = refl
count-granted u hs ((t, LockMode.read) ∷ q) =
    ground (arith, count-granted u (hs ++ t ∷ []) q, count-append u hs (t ∷ []))

count-handed :
    (u : ℕ) (s : LockState) (q : List (ℕ × LockMode))
    → s.waiter_queue ≡ q
    → count u (LockState.hand_on s q).holders
        + count u (txns_of (LockState.hand_on s q).waiter_queue)
      ≡ count u s.holders + count u (txns_of q)
count-handed u s [] e = ground (arith, e)
count-handed u s ((t, LockMode.unlocked) ∷ q) e = ground (arith, e)
count-handed u s ((t, LockMode.write) ∷ q) e = ground (arith, count-append u s.holders (t ∷ []))
count-handed u s ((t, LockMode.read) ∷ q) e = count-granted u s.holders ((t, LockMode.read) ∷ q)

release-Apart : (t : ℕ) (l : LockState) → Apart l → Apart (LockState.release t l).0
unfolding LockState.release
release-Apart t l a u = ground (
  arith,
  a u,
  count-erase_le u t l.holders,
  count-remove_le u t l.waiter_queue,
  count-handed u (record l { holders = erase t l.holders }) l.waiter_queue refl,
)

hand_on-eq :
    (l : LockState) (q : List (ℕ × LockMode))
    → l.waiter_queue ≡ q
    → l.holders ≡ []
    → is_empty q ≡ false
    → ((t : ℕ) → count t l.holders + count t (txns_of q) ≤ 1)
    → hand_on (old_of l) q ≡ some (old_of (LockState.hand_on l q))
unfolding hand_on
hand_on-eq l [] e n h c = absurd (ground arith)
hand_on-eq l ((t, LockMode.unlocked) ∷ q) e n h c = refl
hand_on-eq l ((t, LockMode.write) ∷ q) e n h c = ground (arith, e, n)
hand_on-eq l ((t, LockMode.read) ∷ q) e n h c = ap some (
    subst
      (λ x.
        grant_readers l.holders (txns_of x) ((t, LockMode.read) ∷ q)
        ≡ old_of (LockState.grant_readers l.holders ((t, LockMode.read) ∷ q)))
      (sym e) (grant_readers-eq l.holders ((t, LockMode.read) ∷ q) c))

empty_of {ℓ} : {A : Type ℓ} (xs : List A) → is_empty xs ≡ true → xs ≡ []
empty_of [] h = refl
empty_of (x ∷ xs) h = absurd (ground arith)

release-eq :
    (t : ℕ) (l : LockState)
    → Apart l
    → release t (old_of l) ≡ some (old_of (LockState.release t l).0, (LockState.release t l).1)
unfolding release LockState.release
release-eq t l a = elim (Bool-cases (elem t l.holders)) [
  | inr waits_only ↦ ground (arith, erase-txns_of t l.waiter_queue, a t)
  | inl holds ↦ elim (Bool-cases (is_empty (erase t l.holders))) [
    | inr others ↦ ground arith
    | inl last ↦ elim (Bool-cases (is_empty l.waiter_queue)) [
      | inl nobody ↦ ground (arith, empty_of l.waiter_queue nobody, is_empty-txns_of l.waiter_queue)
      | inr somebody ↦
          (let rest : LockState = record l { holders = erase t l.holders } in
            let handed =
              hand_on-eq rest l.waiter_queue refl (empty_of (erase t l.holders) last) somebody
                (λ u. omega (arith, a u, count-erase_le u t l.holders)) in
            ground (arith, handed, is_empty-txns_of l.waiter_queue))
    ]
  ]
]

-- No transaction asks for the lock while it holds it or waits for it.
abbrev pub Once : List Call → LockState → Type 0
Once [] l = Unit
Once (acquires r ∷ cs) l = (LockState.contains r.0 l ≡ false) × Once cs (acquire r l).0
Once (releases t ∷ cs) l = Once cs (LockState.release t l).0

-- The calls on an OldLockState, with what the releases return; and on a LockState.
unfoldable pub run_old : List Call → OldLockState → Option (OldLockState × List (List ℕ))
run_old [] s = some (s, [])
run_old (acquires r ∷ cs) s = run_old cs (acquire_old r s).0
run_old (releases t ∷ cs) s = do
  (s', new_grantees) ← release t s
  (last, later) ← run_old cs s'
  some (last, new_grantees ∷ later)

unfoldable pub grantees : List Call → LockState → List (List ℕ)
grantees [] l = []
grantees (acquires r ∷ cs) l = grantees cs (acquire r l).0
grantees (releases t ∷ cs) l = (LockState.release t l).1 ∷ grantees cs (LockState.release t l).0

run_old-eq-run :
    (cs : List Call) (l : LockState)
    → Apart l
    → Once cs l
    → run_old cs (old_of l) ≡ some (old_of (run cs l), grantees cs l)
unfolding run_old grantees run call
run_old-eq-run [] l a o = refl
run_old-eq-run (acquires r ∷ cs) l a o =
    ap (λ x. run_old cs x.0) (acquire-eq r l o.0)
    ∙ run_old-eq-run cs (acquire r l).0 (acquire-Apart r l a o.0) o.1
run_old-eq-run (releases t ∷ cs) l a o =
    ground
      (arith, release-eq t l a, run_old-eq-run cs (LockState.release t l).0 (release-Apart t l a) o)

-- On a new lock, any calls that do not ask for it twice lead OldLockState to the state of LockState,
-- with the set of waiters that the queue has, and every release returns the same transactions; it
-- never looks at the front of an empty queue.
pub run_old-eq-run_new :
    (cs : List Call)
    → Once cs new_lock
    → run_old cs (old_of new_lock) ≡ some (old_of (run cs new_lock), grantees cs new_lock)
run_old-eq-run_new cs o = run_old-eq-run cs new_lock (λ t. omega arith) o
