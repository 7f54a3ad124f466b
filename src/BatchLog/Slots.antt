-- ===== src/BatchLog/Slots.antt =====
-- A batch log in use: what it hands out over any sequence of calls, and where its loop stops.
use slog.Base.{
  ℕ, zero, suc, ◌+◌, ◌<◌, ◌^◌, ◌≡◌, refl, subst, true, false, Option, none, some, List, [], ◌∷◌,
  arith, has, length, length-append, Bool-cases, nat_Eq, Option-cases, inl, inr, ◌>>=◌, ◌++◌, All,
  ℤ, if◌then◌else◌,
}
use slog.AsyncLog
use slog.AsyncLog.Holds.{length-next}
use slog.BatchLog.{
  Batch, BatchLog, empty, update_round, update_rounds, update_ready_batches, add_batch, add_slot,
  ack_replication, next_batch, is_replicated, has_next_batch,
}
use slog.BatchLog.Ready.{
  Inv, Listed-length, update_round-Moved, empty-Inv, add_batch-Inv, ack_replication-Inv,
  add_slot-Inv, next_batch-Inv,
}

-- The calls on a batch log. `takes` is the caller's `if (HasNextBatch()) NextBatch()`.
pub data Use (T : Type 0) : Type 0 where
  adds_batch : Batch T → Use T
  adds_slot : (slot_id batch_id : ℕ) → ℤ → Use T
  acks : ℕ → Use T
  takes : Use T

module _ {T : Type 0} where
  unfoldable pub take_batch : BatchLog T → Option (BatchLog T × List (ℕ × Batch T))
  take_batch l =
      if has_next_batch l
      then (do (item, l') ← next_batch l; some (l', item ∷ []))
      else some (l, [])

  unfoldable pub use_log : Use T → BatchLog T → Option (BatchLog T × List (ℕ × Batch T))
  unfolding take_batch
  use_log (adds_batch batch) l = some (add_batch batch l, [])
  use_log (adds_slot slot_id batch_id factor) l = do
    l' ← add_slot slot_id batch_id factor l
    some (l', [])
  use_log (acks batch_id) l = some (ack_replication batch_id l, [])
  use_log takes l = take_batch l

  unfoldable pub run : List (Use T) → BatchLog T → Option (BatchLog T × List (ℕ × Batch T))
  run [] l = some (l, [])
  run (u ∷ uses) l = do
    (l', items) ← use_log u l
    (last, rest) ← run uses l'
    some (last, items ++ rest)

  -- Every slot is given the batch that `order` has for it, and every batch that is added is the one
  -- that `content` has for its id; slots stay below 2^32 - 1.
  abbrev pub Follows : (ℕ → ℕ) → (ℕ → Batch T) → Use T → Type 0
  Follows order content (adds_slot slot_id batch_id factor) =
      (batch_id ≡ order slot_id) × (suc slot_id < 2 ^ 32)
  Follows order content (adds_batch batch) = batch ≡ content batch.id
  Follows order content (acks batch_id) = Unit
  Follows order content takes = Unit

  -- `items` are the batches of the slots from `k` on, without a gap, each with its whole content.
  abbrev pub InOrder : (ℕ → ℕ) → (ℕ → Batch T) → ℕ → List (ℕ × Batch T) → Type 0
  InOrder order content k [] = Unit
  InOrder order content k ((slot, batch) ∷ items) =
      (slot ≡ k)
      × (batch.id ≡ order k)
      × (batch ≡ content (order k))
      × InOrder order content (suc k) items

  module _ (order : ℕ → ℕ) (content : ℕ → Batch T)
      (inj : (a b : ℕ) → order a ≡ order b → a ≡ b) where
    -- A call that does not throw hands out the next batches, and the invariant holds after it.
    abbrev pub After : ℕ → Option (BatchLog T × List (ℕ × Batch T)) → Type 0
    After k none = Unit
    After k (some (l, items)) =
        InOrder order content k items × Inv order content (k + length items) l

    quiet : (k : ℕ) (l : BatchLog T) → Inv order content k l → After k (some (l, []))
    quiet k l v = (tt, subst (λ n. Inv order content n l) (omega arith) v)

    take_batch-After : (k : ℕ) (l : BatchLog T) → Inv order content k l → After k (take_batch l)
    unfolding take_batch
    take_batch-After k l v = elim (Bool-cases (has_next_batch l)) [
      | inr done ↦ rw done (quiet k l v)
      | inl more ↦
          (let waiting = Listed-length order k l.slots.next_position l.ready_batches v.listed in
            let (batch, l', taken, is, whole, _, v') =
              next_batch-Inv order content k l inj v (ground arith) in
            rw (more, taken)
              ((refl, is, whole, tt), subst (λ n. Inv order content n l') (omega arith) v'))
    ]

    use_log-After :
        (k : ℕ) (u : Use T) (l : BatchLog T)
        → Inv order content k l
        → Follows order content u
        → After k (use_log u l)
    unfolding use_log
    use_log-After k (adds_batch batch) l v f = quiet k _ (add_batch-Inv order content k batch l f v)
    use_log-After k (adds_slot s b factor) l v f = elim (Option-cases (add_slot s b factor l)) [
      | inl e ↦ rw e tt
      | inr (l', e) ↦ rw e (
          quiet k l' (
            add_slot-Inv order content k s factor l l' f.1 v
              (subst (λ x. add_slot s x factor l ≡ some l') f.0 e)))
    ]
    use_log-After k (acks b) l v f = quiet k _ (ack_replication-Inv order content k b l v)
    use_log-After k takes l v f = take_batch-After k l v

    InOrder-append :
        (k : ℕ) (xs ys : List (ℕ × Batch T))
        → InOrder order content k xs
        → InOrder order content (k + length xs) ys
        → InOrder order content k (xs ++ ys)
    InOrder-append k [] ys hx hy = subst (λ n. InOrder order content n ys) (omega arith) hy
    InOrder-append k (x ∷ xs) ys hx hy = (
      hx.0,
      hx.1,
      hx.2,
      InOrder-append (suc k) xs ys hx.3 (subst (λ n. InOrder order content n ys) (omega arith) hy),
    )

    After-append :
        (k : ℕ) (items : List (ℕ × Batch T)) (r : Option (BatchLog T × List (ℕ × Batch T)))
        → InOrder order content k items
        → After (k + length items) r
        → After k (r >>= λ s. some (s.0, items ++ s.1))
    After-append k items none h a = tt
    After-append k items (some (l, rest)) h a = (
      InOrder-append k items rest h a.0,
      subst (λ n. Inv order content n l) (omega (arith, length-append items rest)) a.1,
    )

    run-After :
        (k : ℕ) (uses : List (Use T)) (l : BatchLog T)
        → Inv order content k l
        → All (Follows order content) uses
        → After k (run uses l)
    unfolding run
    run-After k [] l v f = quiet k l v
    run-After k (u ∷ uses) l v f = elim (Option-cases (use_log u l)) [
      | inl e ↦ rw e tt
      | inr ((l', items), e) ↦
          (let a = subst (After k) e (use_log-After k u l v f.0) in
            rw e (
              After-append k items (run uses l') a.0
                (run-After (k + length items) uses l' a.1 f.1)))
    ]

    -- Let `order` give every slot one batch id, no two slots the same, and `content` every batch id
    -- one batch. If the calls on a new log give slots below 2^32 - 1 with the batch id of `order`
    -- and batches with the data of `content`, and none of the calls throws, then in whatever order
    -- slots, data and acknowledgements come in, the batches handed out are those of the slots 0, 1,
    -- 2, … without a gap: each has the id that `order` has for its slot, and is the batch, with its
    -- transactions, that `content` has for the id.
    pub handed_out-InOrder :
        (uses : List (Use T)) (last : BatchLog T) (items : List (ℕ × Batch T))
        → All (Follows order content) uses
        → run uses empty ≡ some (last, items)
        → InOrder order content 0 items
    handed_out-InOrder uses last items f e =
        (subst (After 0) e (run-After 0 uses empty (empty-Inv order content) f)).0

    -- If no two slots are given the same batch id, slots stay below 2^32 - 1 and take the id of
    -- `order`, and batches have the data of `content`, then after calls on a new log none of which
    -- throws, `NextBatch` succeeds whenever `HasNextBatch` holds: it hands out the slot that comes
    -- next, with the batch that `content` has for the id of that slot.
    pub next_batch_total :
        (uses : List (Use T)) (last : BatchLog T) (items : List (ℕ × Batch T))
        → All (Follows order content) uses
        → run uses empty ≡ some (last, items)
        → has_next_batch last ≡ true
        → (batch : Batch T) × (l' : BatchLog T) × (next_batch last
            ≡ some ((length items, batch), l'))
          × (batch.id ≡ order (length items))
          × (batch ≡ content (order (length items)))
    next_batch_total uses last items f e more =
        let v = (subst (After 0) e (run-After 0 uses empty (empty-Inv order content) f)).1 in
        let waiting =
          Listed-length order (0 + length items) last.slots.next_position last.ready_batches
            v.listed in
        let (batch, l', taken, is, whole, _, _) =
          next_batch-Inv order content (0 + length items) last inj v (ground arith) in
        (
          batch,
          l',
          subst (λ n. next_batch last ≡ some ((n, batch), l')) (omega arith) taken,
          subst (λ n. batch.id ≡ order n) (omega arith) is,
          subst (λ n. batch ≡ content (order n)) (omega arith) whole,
        )

-- The loop of `UpdateReadyBatches` ends by its own tests: the rounds that it is given are enough.
update_rounds-done :
    {T : Type 0} (fuel : ℕ) (l : BatchLog T)
    → length l.slots.log < fuel
    → update_round (update_rounds fuel l) ≡ none
unfolding update_rounds
update_rounds-done zero l lt = absurd (omega arith)
update_rounds-done (suc fuel) l lt = elim (Option-cases (update_round l)) [
  | inl e ↦ rw (e, update_rounds) e
  | inr (l', e) ↦
      (let m = update_round-Moved l l' e in
        rw (e, update_rounds)
          (update_rounds-done fuel l' (omega (arith, length-next l.slots l'.slots _ m.read))))
]

stuck :
    {T : Type 0} (l : BatchLog T) (b : ℕ)
    → update_round l ≡ none
    → AsyncLog.peek l.slots ≡ some b
    → has b l.batches ≡ true
    → is_replicated b l.replication ≡ false
unfolding update_round AsyncLog.next
stuck l b e next there = ground arith

-- After `UpdateReadyBatches`, if the next slot is known and the data of its batch is there, then its
-- replication count is missing or not zero: nothing that could be ready has been left.
pub update_ready_batches_complete :
    {T : Type 0} (l : BatchLog T) (b : ℕ)
    → AsyncLog.peek (update_ready_batches l).slots ≡ some b
    → has b (update_ready_batches l).batches ≡ true
    → is_replicated b (update_ready_batches l).replication ≡ false
unfolding update_ready_batches
update_ready_batches_complete l b next there =
    stuck (update_rounds (suc (length l.slots.log)) l) b
      (update_rounds-done (suc (length l.slots.log)) l (omega arith)) next there
