-- ===== src/Locks/Rma/Table.antt =====
-- How many keys of a lock table are locked.
use slog.Base.{
  ℕ, ◌+◌, ◌≡◌, refl, none, some, List, [], ◌∷◌, arith, Map, lookup, insert, bytes_Eq, get_or,
  Option-cases, inl, inr, if◌then◌else◌,
}
use slog.Locks.LockState.{LockState, new_lock}
use slog.Locks.Rma.{is_unlocked}

pub locked : Map (List ℕ) LockState → ℕ
locked [] = 0
locked ((k, s) ∷ m) = (if is_unlocked s.mode then 0 else 1) + locked m

pub locked-empty : locked [] ≡ 0
unfolding locked
locked-empty = refl

pub locked-insert_new :
    (k : List ℕ) (s : LockState) (m : Map (List ℕ) LockState)
    → lookup k m ≡ none
    → locked (insert k s m) ≡ locked m + (if is_unlocked s.mode then 0 else 1)
unfolding locked lookup insert
locked-insert_new k s [] h = ground arith
locked-insert_new k s ((j, w) ∷ m) h = ground (arith, locked-insert_new k s m)

pub locked-insert :
    (k : List ℕ) (s old : LockState) (m : Map (List ℕ) LockState)
    → lookup k m ≡ some old
    → locked (insert k s m) + (if is_unlocked old.mode then 0 else 1)
      ≡ locked m + (if is_unlocked s.mode then 0 else 1)
unfolding locked lookup insert
locked-insert k s old [] h = absurd (ground arith)
locked-insert k s old ((j, w) ∷ m) h = ground (arith, locked-insert k s old m)

-- The same, where the lock is made if it is not there.
abbrev pub weight : LockState → ℕ
weight s = if is_unlocked s.mode then 0 else 1

pub locked-insert_or :
    (k : List ℕ) (s : LockState) (m : Map (List ℕ) LockState)
    → locked (insert k s m) + weight (get_or k new_lock m) ≡ locked m + weight s
locked-insert_or k s m = elim (Option-cases (lookup k m)) [
  | inl e ↦ ground (arith, locked-insert_new k s m e)
  | inr (old, e) ↦ ground (arith, locked-insert k s old m e)
]
