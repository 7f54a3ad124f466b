-- ===== src/AsyncLog/Holds.antt =====
-- What a log holds, when all its items are those of one numbered sequence.
use slog.Base.{
  ℕ, suc, ◌≤◌, ◌<◌, ◌^◌, ◌≡◌, some, none, arith, lookup, lookup-insert, lookup-erase_key,
  length-erase_key-lt, length, nat_Eq, insert as put, Option-cases, inl, inr, erase_key, ◌+◌, ◌%◌,
}
use slog.AsyncLog.{AsyncLog, empty, insert, next}

module _ {ℓ} {T : Type ℓ} (content : ℕ → T) where
  -- Each item is that of its position, which has not been read; reading it does not wrap.
  pub record Holds (l : AsyncLog T) : Type ℓ where
    pub at :
        (p : ℕ) (x : T)
        → lookup p l.log ≡ some x
        → (x ≡ content p) × (l.next_position ≤ p) × (suc p < 2 ^ 32)

  pub Holds-empty : (start : ℕ) → Holds (empty start)
  unfolding lookup
  Holds-empty start = record { at = λ p x h. ground arith }

  pub insert-Holds :
      (p : ℕ) (l l' : AsyncLog T)
      → Holds l
      → suc p < 2 ^ 32
      → insert p (content p) l ≡ some l'
      → Holds l'
  unfolding insert
  insert-Holds p l l' h fits e = record {
    at = λ q x held. ground (arith, lookup-insert p q (content p) l.log, h.at q x);
  }

  pub next-Holds :
      (l l' : AsyncLog T) (p : ℕ) (x : T)
      → Holds l
      → next l ≡ some ((p, x), l')
      → (p ≡ l.next_position) × (x ≡ content p) × (l'.next_position ≡ suc p) × Holds l'
  unfolding next
  next-Holds l l' p x h e = elim (Option-cases (lookup l.next_position l.log)) [
    | inl gone ↦ absurd (ground arith)
    | inr (y, found) ↦ next_held y found (h.at l.next_position y found) (ground arith)
  ]
    where
      next_held :
          (y : T)
          → lookup l.next_position l.log ≡ some y
          → (y ≡ content l.next_position)
            × (l.next_position ≤ l.next_position)
            × (suc l.next_position < 2 ^ 32)
          → (l' ≡ record l {
            log = erase_key l.next_position l.log;
            next_position = (l.next_position + 1) % 2 ^ 32;
          })
            × (p ≡ l.next_position)
            × (x ≡ y)
          → (p ≡ l.next_position) × (x ≡ content p) × (l'.next_position ≡ suc p) × Holds l'
      next_held y found (is, _, fits) (e', ep, ex) = (
        ep,
        ground arith,
        ground arith,
        record {
          at = λ q z held. ground (arith, lookup-erase_key l.next_position q l.log, h.at q z);
        },
      )
      -- A read item leaves the log smaller.

pub length-next {ℓ} :
    {T : Type ℓ} (l l' : AsyncLog T) (r : ℕ × T)
    → next l ≡ some (r, l')
    → length l'.log < length l.log
unfolding next
length-next l l' r e = elim (Option-cases (lookup l.next_position l.log)) [
  | inl gone ↦ absurd (ground arith)
  | inr (y, found) ↦ ground (arith, length-erase_key-lt l.next_position l.log y)
]

pub next_position-insert {ℓ} :
    {T : Type ℓ} (p : ℕ) (x : T) (l l' : AsyncLog T)
    → insert p x l ≡ some l'
    → l'.next_position ≡ l.next_position
unfolding insert
next_position-insert p x l l' e = ground arith

-- A position that is neither read nor taken is accepted.
pub insert-free {ℓ} :
    {T : Type ℓ} (p : ℕ) (x : T) (l : AsyncLog T)
    → l.next_position ≤ p
    → lookup p l.log ≡ none
    → insert p x l ≡ some (record l { log = put p x l.log })
unfolding insert
insert-free p x l h e = ground arith

pub next-held {ℓ} :
    {T : Type ℓ} (l : AsyncLog T) (x : T)
    → lookup l.next_position l.log ≡ some x
    → suc l.next_position < 2 ^ 32
    → next l
      ≡ some (
        (l.next_position, x),
        record l { log = erase_key l.next_position l.log; next_position = suc l.next_position },
      )
unfolding next
next-held l x e h = ground arith
