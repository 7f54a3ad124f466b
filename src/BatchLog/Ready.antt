-- ===== src/BatchLog/Ready.antt =====
-- The invariant of a batch log: which slots are ready, and where their batches are.
use slog.Base.{
  ℕ, zero, suc, ◌+◌, ◌<◌, ◌^◌, ◌≡◌, refl, true, some, List, [], ◌∷◌, ◌++◌, All, All-append, arith,
  Map, has, lookup, insert, erase_key, lookup-insert, lookup-erase_key, length, sym, ap, subst,
  nat_eq, Bool-cases, subst₂, some_inj, ◌∙◌, nat_Eq, Option-cases, inl, inr, >>=-eq-some, ℤ,
}
use slog.AsyncLog
use slog.AsyncLog.{AsyncLog}
use slog.AsyncLog.Holds.{Holds, Holds-empty, insert-Holds, next-Holds, next_position-insert}
use slog.BatchLog.{
  Batch, BatchLog, empty, update_round, update_rounds, update_ready_batches, add_batch, add_slot,
  ack_replication, next_batch, is_replicated,
}

-- `r` lists the slots from `k` to `n`, with the batch of each.
abbrev pub Listed : (ℕ → ℕ) → ℕ → List (ℕ × ℕ) → ℕ → Type 0
Listed order k [] n = k ≡ n
Listed order k ((slot, batch_id) ∷ r) n =
    (slot ≡ k) × (batch_id ≡ order k) × Listed order (suc k) r n

Listed-snoc :
    (order : ℕ → ℕ) (k n : ℕ) (r : List (ℕ × ℕ))
    → Listed order k r n
    → Listed order k (r ++ (n, order n) ∷ []) (suc n)
Listed-snoc order k n [] h = (sym h, ap order (sym h), ap suc h)
Listed-snoc order k n (x ∷ r) h = (h.0, h.1, Listed-snoc order (suc k) n r h.2)

pub Listed-length :
    (order : ℕ → ℕ) (k n : ℕ) (r : List (ℕ × ℕ)) → Listed order k r n → k + length r ≡ n
Listed-length order k n [] h = ground arith
Listed-length order k n (x ∷ r) h = omega (arith, Listed-length order (suc k) n r h.2)

-- What a round of `UpdateReadyBatches` that does not end the loop has done.
pub record Moved {T : Type 0} (l l' : BatchLog T) : Type 0 where
  pub batch_id : ℕ
  pub read : AsyncLog.next l.slots ≡ some ((l.slots.next_position, batch_id), l'.slots)
  pub present : has batch_id l.batches ≡ true
  pub replicated : is_replicated batch_id l.replication ≡ true
  pub pushed : l'.ready_batches ≡ l.ready_batches ++ (l.slots.next_position, batch_id) ∷ []
  pub batches : l'.batches ≡ l.batches
  pub replication : l'.replication ≡ erase_key batch_id l.replication

pub update_round-Moved : {T : Type 0} (l l' : BatchLog T) → update_round l ≡ some l' → Moved l l'
unfolding update_round AsyncLog.next
update_round-Moved l l' e = elim (Option-cases (lookup l.slots.next_position l.slots.log)) [
  | inl gone ↦ absurd (ground arith)
  | inr (b, found) ↦ record {
    batch_id = b;
    read = ground arith;
    present = ground arith;
    replicated = ground arith;
    pushed = ground arith;
    batches = ground arith;
    replication = ground arith;
  }
]

-- The data of every listed batch is there.
abbrev pub Present : {T : Type 0} → Map ℕ (Batch T) → List (ℕ × ℕ) → Type 0
Present batches = All (λ (r : ℕ × ℕ). has r.1 batches ≡ true)

Present-insert :
    {T : Type 0} (batch : Batch T) (batches : Map ℕ (Batch T)) (r : List (ℕ × ℕ))
    → Present batches r
    → Present (insert batch.id batch batches) r
Present-insert batch batches [] h = tt
Present-insert batch batches (x ∷ r) h =
    (ground (arith, lookup-insert batch.id x.1 batch batches), Present-insert batch batches r h.1)

-- Handing out the batch of slot `k` leaves the data of the later ones, whose batches are others.
Present-erase_key :
    {T : Type 0} (order : ℕ → ℕ) (k j n : ℕ) (batches : Map ℕ (Batch T)) (r : List (ℕ × ℕ))
    → ((a b : ℕ) → order a ≡ order b → a ≡ b)
    → k < j
    → Listed order j r n
    → Present batches r
    → Present (erase_key (order k) batches) r
Present-erase_key order k j n batches [] inj lt c h = tt
Present-erase_key order k j n batches (x ∷ r) inj lt c h = (
  ground (arith, lookup-erase_key (order k) x.1 batches, inj k j),
  Present-erase_key order k (suc j) n batches r inj (omega arith) c.2 h.1,
)

-- A batch stands under its own id, and is the one that `content` has for the id.
abbrev pub Keyed : {T : Type 0} → (ℕ → Batch T) → Map ℕ (Batch T) → Type 0
Keyed {T} content batches =
    (b : ℕ) (batch : Batch T) → lookup b batches ≡ some batch → (batch.id ≡ b) × (batch ≡ content b)

Keyed-insert :
    {T : Type 0} (content : ℕ → Batch T) (batch : Batch T) (batches : Map ℕ (Batch T))
    → batch ≡ content batch.id
    → Keyed content batches
    → Keyed content (insert batch.id batch batches)
Keyed-insert {T} content batch batches is keyed b x h = elim (Bool-cases (nat_eq batch.id b)) [
  | inl equal ↦
      (let same : batch.id ≡ b = ground arith in
        let found : batch ≡ x = some_inj (ground (arith, lookup-insert batch.id b batch batches)) in
        (ap (λ (x : Batch T). x.id) (sym found) ∙ same, sym found ∙ is ∙ ap content same))
  | inr other ↦ keyed b x (ground (arith, lookup-insert batch.id b batch batches))
]

module _ {T : Type 0} (order : ℕ → ℕ) (content : ℕ → Batch T) where
  -- `k` batches have been handed out, in the order of the slots.
  pub record Inv (k : ℕ) (l : BatchLog T) : Type 0 where
    pub held : Holds order l.slots
    pub listed : Listed order k l.ready_batches l.slots.next_position
    pub present : Present l.batches l.ready_batches
    pub keyed : Keyed content l.batches

  Moved-Inv : (k : ℕ) (l l' : BatchLog T) → Moved l l' → Inv k l → Inv k l'
  Moved-Inv k l l' m v =
      let (_, is, next, held) =
        next-Holds order l.slots l'.slots l.slots.next_position m.batch_id v.held m.read in
      record {
        held = held;
        listed =
            subst₂ (λ r n. Listed order k r n)
              (ap (λ b. l.ready_batches ++ (l.slots.next_position, b) ∷ []) (sym is) ∙ sym m.pushed)
              (sym next) (Listed-snoc order k l.slots.next_position l.ready_batches v.listed);
        present =
            subst₂ (λ b r. Present b r) (sym m.batches) (sym m.pushed)
              (All-append (λ (r : ℕ × ℕ). has r.1 l.batches ≡ true) l.ready_batches
                ((l.slots.next_position, m.batch_id) ∷ []) v.present (m.present, tt));
        keyed = subst (Keyed content) (sym m.batches) v.keyed;
      }

  update_rounds-Inv : (k fuel : ℕ) (l : BatchLog T) → Inv k l → Inv k (update_rounds fuel l)
  unfolding update_rounds
  update_rounds-Inv k zero l v = v
  update_rounds-Inv k (suc fuel) l v = elim (Option-cases (update_round l)) [
    | inl e ↦ rw (e, update_rounds) v
    | inr (l', e) ↦
        rw (e, update_rounds)
          (update_rounds-Inv k fuel l' (Moved-Inv k l l' (update_round-Moved l l' e) v))
  ]

  update_ready_batches-Inv : (k : ℕ) (l : BatchLog T) → Inv k l → Inv k (update_ready_batches l)
  unfolding update_ready_batches
  update_ready_batches-Inv k l v = update_rounds-Inv k (suc (length l.slots.log)) l v

  pub empty-Inv : Inv 0 empty
  unfolding lookup
  empty-Inv = record {
    held = Holds-empty order 0;
    listed = refl;
    present = tt;
    keyed = λ b batch h. absurd (ground arith);
  }

  pub add_batch-Inv :
      (k : ℕ) (batch : Batch T) (l : BatchLog T)
      → batch ≡ content batch.id
      → Inv k l
      → Inv k (add_batch batch l)
  unfolding add_batch
  add_batch-Inv k batch l is v = update_ready_batches-Inv k _ (record {
    held = v.held;
    listed = v.listed;
    present = Present-insert batch l.batches l.ready_batches v.present;
    keyed = λ b x h. Keyed-insert content batch l.batches is v.keyed b x h;
  })

  pub ack_replication-Inv :
      (k batch_id : ℕ) (l : BatchLog T) → Inv k l → Inv k (ack_replication batch_id l)
  unfolding ack_replication
  ack_replication-Inv k batch_id l v =
      update_ready_batches-Inv k _
        (record { held = v.held; listed = v.listed; present = v.present; keyed = v.keyed })

  pub add_slot-Inv :
      (k slot : ℕ) (factor : ℤ) (l l' : BatchLog T)
      → suc slot < 2 ^ 32
      → Inv k l
      → add_slot slot (order slot) factor l ≡ some l'
      → Inv k l'
  unfolding add_slot
  add_slot-Inv k slot factor l l' fits v e =
      let (slots, inserted, done) = >>=-eq-some (AsyncLog.insert slot (order slot) l.slots) _ e in
      let kept = next_position-insert slot (order slot) l.slots slots inserted in
      subst (Inv k) (some_inj done) (
        update_ready_batches-Inv k _ (record {
          held = insert-Holds order slot l.slots slots v.held fits inserted;
          listed = subst (Listed order k l.ready_batches) (sym kept) v.listed;
          present = v.present;
          keyed = v.keyed;
        }))

  -- `NextBatch` succeeds, with slot `k` and the data of its batch.
  abbrev pub HandsOut : ℕ → BatchLog T → Type 0
  HandsOut k l =
      (batch : Batch T) × (l' : BatchLog T) × (next_batch l ≡ some ((k, batch), l'))
      × (batch.id ≡ order k)
      × (batch ≡ content (order k))
      × (lookup (order k) l.batches ≡ some batch)
      × Inv (suc k) l'

  -- A ready log hands out the batch of its oldest slot that is left, and never lacks its data.
  pub next_batch-Inv :
      (k : ℕ) (l : BatchLog T)
      → ((a b : ℕ) → order a ≡ order b → a ≡ b)
      → Inv k l
      → k < l.slots.next_position
      → HandsOut k l
  unfolding next_batch
  next_batch-Inv k l inj v lt = go l.ready_batches refl v.listed v.present
    where
      go :
          (r : List (ℕ × ℕ))
          → l.ready_batches ≡ r
          → Listed order k r l.slots.next_position
          → Present l.batches r
          → HandsOut k l
      go [] e c h = absurd (omega (arith, c))
      go ((slot, b) ∷ r) e c h = elim (Option-cases (lookup b l.batches)) [
        | inl gone ↦ absurd (ground (arith, h.0))
        | inr (batch, found) ↦ (
          batch,
          record l { ready_batches = r; batches = erase_key b l.batches },
          ground arith,
          (v.keyed b batch found).0 ∙ c.1,
          (v.keyed b batch found).1 ∙ ap content c.1,
          ground arith,
          record {
            held = v.held;
            listed = c.2;
            present = rw (c.1) (
                Present-erase_key order k (suc k) l.slots.next_position l.batches r inj
                  (omega arith) c.2 h.1);
            keyed = λ j x found'. ground (arith, lookup-erase_key b j l.batches, v.keyed j x);
          },
        )
      ]
