-- ===== src/LocalLog/Runs.antt =====
-- A local log in use: what it hands out over any sequence of calls.
use slog.Base.{
  ℕ, suc, ◌+◌, ◌<◌, ◌^◌, ◌≡◌, refl, subst, Option, none, some, List, [], ◌∷◌, ◌++◌, arith, All,
  length, length-append, nat_Eq, Option-cases, inl, inr, ◌>>=◌, if◌then◌else◌,
}
use slog.LocalLog.{LocalLog, empty, add_batch_id, add_slot, has_next_batch, next_batch}
use slog.LocalLog.Ready.{Entries, Inv, Listed, entry, empty-Inv, add_slot-Inv, add_batch_id-Inv}

-- The calls on a local log. `takes` is the caller's `if (HasNextBatch()) NextBatch()`.
pub data Use : Type 0 where
  adds_batch_id : (queue_id position batch_id : ℕ) → Use
  adds_slot : (slot_id queue_id leader : ℕ) → Use
  takes : Use

unfoldable pub take_next : LocalLog → Option (LocalLog × Entries)
take_next l =
    if has_next_batch l then (do (item, l') ← next_batch l; some (l', item ∷ [])) else some (l, [])

unfoldable pub use_log : Use → LocalLog → Option (LocalLog × Entries)
unfolding take_next
use_log (adds_batch_id queue_id position batch_id) l = do
  l' ← add_batch_id queue_id position batch_id l
  some (l', [])
use_log (adds_slot slot_id queue_id leader) l = do
  l' ← add_slot slot_id queue_id leader l
  some (l', [])
use_log takes l = take_next l

unfoldable pub run : List Use → LocalLog → Option (LocalLog × Entries)
run [] l = some (l, [])
run (u ∷ uses) l = do
  (l', items) ← use_log u l
  (last, rest) ← run uses l'
  some (last, items ++ rest)

module _ (order : ℕ → ℕ × ℕ) (batch : ℕ → ℕ → ℕ) where
  -- Slots name the queue and the leader that `order` has for them, and positions of the queues the
  -- batches that `batch` has; slots and positions stay below 2^32 - 1.
  abbrev pub Follows : Use → Type 0
  Follows (adds_batch_id queue_id position batch_id) =
      (batch_id ≡ batch queue_id position) × (suc position < 2 ^ 32)
  Follows (adds_slot slot_id queue_id leader) =
      (order slot_id ≡ (queue_id, leader)) × (suc slot_id < 2 ^ 32)
  Follows takes = Unit

  -- `items` are the entries of the slots from `k` on, without a gap.
  abbrev pub InOrder : ℕ → Entries → Type 0
  InOrder k [] = Unit
  InOrder k ((slot, e) ∷ items) = (slot ≡ k) × (e ≡ entry order batch k) × InOrder (suc k) items

  abbrev After : ℕ → Option (LocalLog × Entries) → Type 0
  After k none = Unit
  After k (some (l, items)) = InOrder k items × Inv order batch (k + length items) l

  quiet : (k : ℕ) (l : LocalLog) → Inv order batch k l → After k (some (l, []))
  quiet k l v = (tt, subst (λ n. Inv order batch n l) (omega arith) v)

  take_next-After : (k : ℕ) (l : LocalLog) → Inv order batch k l → After k (take_next l)
  unfolding take_next next_batch
  take_next-After k l v = go l.ready_batches refl v.listed
    where
      go :
          (r : Entries)
          → l.ready_batches ≡ r
          → Listed order batch k r l.slots.next_position
          → After k (take_next l)
      go [] e c = subst (After k) {x = some (l, [])} (ground arith) (quiet k l v)
      go ((slot, x) ∷ r) e c =
          subst (After k) {x = some (record l { ready_batches = r }, (slot, x) ∷ [])} (ground arith)
            (
              (c.0, c.1, tt),
              subst (λ n. Inv order batch n (record l { ready_batches = r })) (omega arith)
                  (record {
                    held = v.held;
                    listed = c.2;
                    queues = v.queues;
                    untouched = v.untouched;
                  }),
            )

  use_log-After :
      (k : ℕ) (u : Use) (l : LocalLog) → Inv order batch k l → Follows u → After k (use_log u l)
  unfolding use_log
  use_log-After k (adds_batch_id q p b) l v f = elim (Option-cases (add_batch_id q p b l)) [
    | inl e ↦ rw e tt
    | inr (l', e) ↦ rw e (
        quiet k l' (
          add_batch_id-Inv order batch k q p l l' f.1 v
            (subst (λ x. add_batch_id q p x l ≡ some l') f.0 e)))
  ]
  use_log-After k (adds_slot s q a) l v f = elim (Option-cases (add_slot s q a l)) [
    | inl e ↦ rw e tt
    | inr (l', e) ↦ rw e (quiet k l' (add_slot-Inv order batch k s q a l l' f.1 f.0 v e))
  ]
  use_log-After k takes l v f = take_next-After k l v

  InOrder-append :
      (k : ℕ) (xs ys : Entries) → InOrder k xs → InOrder (k + length xs) ys → InOrder k (xs ++ ys)
  InOrder-append k [] ys hx hy = subst (λ n. InOrder n ys) (omega arith) hy
  InOrder-append k (x ∷ xs) ys hx hy =
      (hx.0, hx.1, InOrder-append (suc k) xs ys hx.2 (subst (λ n. InOrder n ys) (omega arith) hy))

  After-append :
      (k : ℕ) (items : Entries) (r : Option (LocalLog × Entries))
      → InOrder k items
      → After (k + length items) r
      → After k (r >>= λ s. some (s.0, items ++ s.1))
  After-append k items none h a = tt
  After-append k items (some (l, rest)) h a = (
    InOrder-append k items rest h a.0,
    subst (λ n. Inv order batch n l) (omega (arith, length-append items rest)) a.1,
  )

  run-After :
      (k : ℕ) (uses : List Use) (l : LocalLog)
      → Inv order batch k l
      → All Follows uses
      → After k (run uses l)
  unfolding run
  run-After k [] l v f = quiet k l v
  run-After k (u ∷ uses) l v f = elim (Option-cases (use_log u l)) [
    | inl e ↦ rw e tt
    | inr ((l', items), e) ↦
        (let a = subst (After k) e (use_log-After k u l v f.0) in
          rw e
            (After-append k items (run uses l') a.0 (run-After (k + length items) uses l' a.1 f.1)))
  ]

  -- Let `order` give every slot one queue and leader, and `batch` every position of a queue one batch
  -- id. If the calls on a new log agree with them, with slots and positions below 2^32 - 1, and none
  -- of the calls throws, then in whatever order slots and batch ids arrive, the batches handed out
  -- are those of the slots 0, 1, 2, … without a gap; the batch of a slot is the one at position n of
  -- the slot's queue, where n is the number of earlier slots that the queue fills.
  pub handed_out_by_rank :
      (uses : List Use) (last : LocalLog) (items : Entries)
      → All Follows uses
      → run uses empty ≡ some (last, items)
      → InOrder 0 items
  handed_out_by_rank uses last items f e =
      (subst (After 0) e (run-After 0 uses empty (empty-Inv order batch) f)).0
