-- ===== src/AsyncLog/Order.antt =====
-- What a reader gets from a log, whatever the order in which the items came.
use slog.Base.{
  ℕ, zero, suc, ◌+◌, ◌<◌, ◌^◌, ◌≡◌, refl, Option, none, some, List, [], ◌∷◌, arith, length, nat_Eq,
  erase_key, lookup-erase_key, ◌∙◌, ◌>>=◌, ◌≤◌, elem, All, ◌++◌, false, true, lookup, if◌then◌else◌,
  insert as put, lookup-insert, >>=-eq-some,
}
use slog.AsyncLog.{AsyncLog, empty, insert, next}
use slog.AsyncLog.Holds.{
  Holds, Holds-empty, insert-Holds, next-Holds, next_position-insert, insert-free, next-held,
}

-- A use of a log: items arrive, and the reader takes the next one.
pub data Op {ℓ} (T : Type ℓ) : Type ℓ where
  arrives : ℕ → T → Op T
  takes : Op T

module _ {ℓ} {T : Type ℓ} where
  -- The log after the uses, with what the reader got; `none` when one of them throws.
  unfoldable pub run : List (Op T) → AsyncLog T → Option (AsyncLog T × List (ℕ × T))
  run [] l = some (l, [])
  run (arrives p x ∷ ops) l = insert p x l >>= run ops
  run (takes ∷ ops) l = do
    (item, l') ← next l
    (last, items) ← run ops l'
    some (last, item ∷ items)

  -- The numbered items from `start` on.
  abbrev pub numbered : (ℕ → T) → ℕ → ℕ → List (ℕ × T)
  numbered content start zero = []
  numbered content start (suc n) = (start, content start) ∷ numbered content (suc start) n

  -- Every item that arrives is that of its position, and positions stay below 2^32 - 1.
  abbrev pub Follows : (ℕ → T) → List (Op T) → Type ℓ
  Follows content [] = Unit
  Follows content (arrives p x ∷ ops) = (x ≡ content p) × (suc p < 2 ^ 32) × Follows content ops
  Follows content (takes ∷ ops) = Follows content ops

  run-numbered :
      (content : ℕ → T) (ops : List (Op T)) (l last : AsyncLog T) (items : List (ℕ × T))
      → Holds content l
      → Follows content ops
      → run ops l ≡ some (last, items)
      → (items ≡ numbered content l.next_position (length items))
        × (last.next_position ≡ l.next_position + length items)
  unfolding run
  run-numbered content [] l last items h f e = ground arith
  run-numbered content (arrives p x ∷ ops) l last items h f e =
      let (l', inserted, rest) = >>=-eq-some (insert p x l) (run ops) e in
      let kept = next_position-insert p x l l' inserted in
      let held = insert-Holds content p l l' h f.1 (ground arith) in
      ground (arith, run-numbered content ops l' last items held f.2 rest)
  run-numbered content (takes ∷ ops) l last items h f e =
      let (((p, x), l'), taken, rest) =
        >>=-eq-some (next l) (λ r. run ops r.1 >>= λ s. some (s.0, r.0 ∷ s.1)) e in
      let ((last', items'), ran, done) =
        >>=-eq-some (run ops l') (λ s. some (s.0, (p, x) ∷ s.1)) rest in
      let (ep, ex, en, held) = next-Holds content l l' p x h taken in
      ground (arith, run-numbered content ops l' last' items' held f ran)

  -- Whatever the order of arrival, the reader gets a gapless run of the sequence, from the start.
  pub read_in_order :
      (content : ℕ → T) (start : ℕ) (ops : List (Op T)) (last : AsyncLog T) (items : List (ℕ × T))
      → Follows content ops
      → run ops (empty start) ≡ some (last, items)
      → items ≡ numbered content start (length items)
  read_in_order content start ops last items f e =
      (run-numbered content ops (empty start) last items (Holds-empty content start) f e).0

  abbrev pub arrivals : (ℕ → T) → List ℕ → List (Op T)
  arrivals content [] = []
  arrivals content (p ∷ ps) = arrives p (content p) ∷ arrivals content ps

  abbrev pub reads : ℕ → List (Op T)
  reads zero = []
  reads (suc n) = takes ∷ reads n

abbrev pub Distinct : List ℕ → Type 0
Distinct [] = Unit
Distinct (p ∷ ps) = (elem p ps ≡ false) × Distinct ps

abbrev pub InRange : ℕ → List ℕ → Type 0
InRange start = All (λ p. (start ≤ p) × (suc p < 2 ^ 32))

module _ {ℓ} {T : Type ℓ} (content : ℕ → T) where
  -- Arrivals at free positions are all accepted, and end up at their positions.
  run-arrivals :
      (ps : List ℕ) (l : AsyncLog T) (ops : List (Op T))
      → Distinct ps
      → InRange l.next_position ps
      → ((q : ℕ) → elem q ps ≡ true → lookup q l.log ≡ none)
      → (l' : AsyncLog T) × (run (arrivals content ps ++ ops) l ≡ run ops l')
        × (l'.next_position ≡ l.next_position)
        × ((q : ℕ) → lookup q l'.log ≡ (if elem q ps then some (content q) else lookup q l.log))
  unfolding run
  run-arrivals [] l ops d r free = (l, refl, refl, λ q. refl)
  run-arrivals (p ∷ ps) l ops d r free =
      let l₁ : AsyncLog T = record l { log = put p (content p) l.log } in
      let put_p = insert-free p (content p) l r.0.0 (free p (ground arith)) in
      let still_free : (q : ℕ) → elem q ps ≡ true → lookup q l₁.log ≡ none =
        λ q h. ground (arith, lookup-insert p q (content p) l.log, free q) in
      let (l', ran, kept, found) = run-arrivals ps l₁ ops d.1 r.1 still_free in
      (l', rw put_p ran, kept, λ q. ground (arith, found q, lookup-insert p q (content p) l.log))

  run-reads :
      (n : ℕ) (l : AsyncLog T)
      → ((q : ℕ)
          → l.next_position ≤ q
          → q < l.next_position + n
          → (lookup q l.log ≡ some (content q)) × (suc q < 2 ^ 32))
      → (last : AsyncLog T) × (run (reads n) l ≡ some (last, numbered content l.next_position n))
  unfolding run
  run-reads zero l h = (l, refl)
  run-reads (suc n) l h =
      let (found, fits) = h l.next_position (omega arith) (omega arith) in
      let l₁ : AsyncLog T = record l {
        log = erase_key l.next_position l.log;
        next_position = suc l.next_position;
      } in
      let later : (q : ℕ)
          → suc l.next_position ≤ q
          → q < suc l.next_position + n
          → (lookup q l₁.log ≡ some (content q)) × (suc q < 2 ^ 32) =
        λ q a b. ground (arith, lookup-erase_key l.next_position q l.log, h q) in
      let (last, ran) = run-reads n l₁ later in
      (last, rw (next-held l (content l.next_position) found fits, ran))

  -- Items that arrive in any order, each position once, none before `start` and all below 2^32 - 1,
  -- are all accepted; and when the `n` positions from `start` on are among them, and `start + n` is
  -- less than 2^32, then `n` reads succeed and give those in order.
  pub read_total :
      (start n : ℕ) (ps : List ℕ)
      → Distinct ps
      → InRange start ps
      → ((q : ℕ) → start ≤ q → q < start + n → elem q ps ≡ true)
      → start + n < 2 ^ 32
      → (last : AsyncLog T) × (run (arrivals content ps ++ reads n) (empty start)
          ≡ some (last, numbered content start n))
  unfolding lookup
  read_total start n ps d r covered fits =
      let (l, ran, kept, found) = run-arrivals ps (empty start) (reads n) d r (λ q h. refl) in
      let (last, done) = run-reads n l (λ q a b. ground (arith, found q, covered q)) in
      (last, ran ∙ done ∙ rw kept)
