-- ===== src/LocalLog/Ready.antt =====
-- The invariant of a local log: what its slots, queues and ready batches hold.
use slog.Base.{
  ℕ, zero, suc, ◌+◌, ◌<◌, ◌%◌, ◌^◌, ◌≡◌, refl, sym, ap, ap₂, subst, subst₂, ◌∙◌, none, some,
  some_inj, List, [], ◌∷◌, ◌++◌, arith, get_or, lookup, insert, erase_key, lookup-insert, length,
  nat_Eq, nat_eq, if◌then◌else◌, Option-cases, Bool-cases, inl, inr, ◌>>=◌, >>=-eq-some,
}
use slog.AsyncLog
use slog.AsyncLog.{AsyncLog}
use slog.AsyncLog.Holds.{Holds, Holds-empty, insert-Holds, next-Holds, next_position-insert}
use slog.LocalLog.{
  LocalLog, empty, update_round, update_rounds, update_ready_batches, add_batch_id, add_slot,
}

-- How many of the slots below `s` take a batch from the queue `q`.
pub rank : (ℕ → ℕ × ℕ) → ℕ → ℕ → ℕ
rank order q zero = 0
rank order q (suc s) = rank order q s + (if nat_eq (order s).0 q then 1 else 0)

-- What slot `s` stands for: the next batch of its queue, and its leader.
abbrev pub entry : (ℕ → ℕ × ℕ) → (ℕ → ℕ → ℕ) → ℕ → ℕ × ℕ
entry order batch s = (batch (order s).0 (rank order (order s).0 s), (order s).1)

abbrev pub Entries : Type 0
Entries = List (ℕ × (ℕ × ℕ))

module _ (order : ℕ → ℕ × ℕ) (batch : ℕ → ℕ → ℕ) where
  -- `r` lists the slots from `k` to `n`, with the entry of each.
  abbrev pub Listed : ℕ → Entries → ℕ → Type 0
  Listed k [] n = k ≡ n
  Listed k ((slot, e) ∷ r) n = (slot ≡ k) × (e ≡ entry order batch k) × Listed (suc k) r n

  Listed-snoc :
      (k n : ℕ) (r : Entries) → Listed k r n → Listed k (r ++ (n, entry order batch n) ∷ []) (suc n)
  Listed-snoc k n [] h = (sym h, ap (entry order batch) (sym h), ap suc h)
  Listed-snoc k n (x ∷ r) h = (h.0, h.1, Listed-snoc (suc k) n r h.2)

  pub Listed-length : (k n : ℕ) (r : Entries) → Listed k r n → k + length r ≡ n
  Listed-length k n [] h = ground arith
  Listed-length k n (x ∷ r) h = omega (arith, Listed-length (suc k) n r h.2)

  -- A queue that `n` slots have been filled from.
  pub record Queue (n q : ℕ) (log : AsyncLog ℕ) : Type 0 where
    pub held : Holds (batch q) log
    pub at_rank : log.next_position ≡ rank order q n

  -- `k` entries have been handed out.
  pub record Inv (k : ℕ) (l : LocalLog) : Type 0 where
    pub held : Holds order l.slots
    pub listed : Listed k l.ready_batches l.slots.next_position
    pub queues :
        (q : ℕ) (log : AsyncLog ℕ)
        → lookup q l.batch_queues ≡ some log
        → Queue l.slots.next_position q log
    pub untouched :
        (q : ℕ) → lookup q l.batch_queues ≡ none → rank order q l.slots.next_position ≡ 0

-- What a round of `UpdateReadyBatches` that does not end the loop has done.
pub record Moved (l l' : LocalLog) : Type 0 where
  pub slot : ℕ × ℕ
  pub queue : AsyncLog ℕ
  pub queue' : AsyncLog ℕ
  pub batch_id : ℕ
  pub read : AsyncLog.next l.slots ≡ some ((l.slots.next_position, slot), l'.slots)
  pub found : lookup slot.0 l.batch_queues ≡ some queue
  pub taken : AsyncLog.next queue ≡ some ((queue.next_position, batch_id), queue')
  pub pushed :
      l'.ready_batches ≡ l.ready_batches ++ (l.slots.next_position, (batch_id, slot.1)) ∷ []
  pub written : l'.batch_queues ≡ insert slot.0 queue' l.batch_queues

pub update_round-Moved : (l l' : LocalLog) → update_round l ≡ some l' → Moved l l'
unfolding update_round AsyncLog.next
update_round-Moved l l' e = elim (Option-cases (lookup l.slots.next_position l.slots.log)) [
  | inl gone ↦ absurd (ground arith)
  | inr ((q, leader), slot_found) ↦ elim (Option-cases (lookup q l.batch_queues)) [
    | inl absent ↦ absurd (ground arith)
    | inr (queue, queue_found) ↦ elim (Option-cases (lookup queue.next_position queue.log)) [
      | inl dry ↦ absurd (ground arith)
      | inr (b, batch_found) ↦ record {
        slot = (q, leader);
        queue = queue;
        queue' = record {
          log = erase_key queue.next_position queue.log;
          next_position = (queue.next_position + 1) % 2 ^ 32;
        };
        batch_id = b;
        read = ground arith;
        found = ground arith;
        taken = ground arith;
        pushed = ground arith;
        written = ground arith;
      }
    ]
  ]
]

module _ (order : ℕ → ℕ × ℕ) (batch : ℕ → ℕ → ℕ) where
  entry-eq :
      (n b p : ℕ) (slot : ℕ × ℕ)
      → b ≡ batch slot.0 p
      → p ≡ rank order slot.0 n
      → slot ≡ order n
      → (b, slot.1) ≡ entry order batch n
  entry-eq n b p slot eb ep es =
      ap₂ (λ x y. (x, y)) (eb ∙ ap (batch slot.0) ep ∙ ap (λ s. batch s.0 (rank order s.0 n)) es)
        (ap (λ s. s.1) es)

  Moved-Inv : (k : ℕ) (l l' : LocalLog) → Moved l l' → Inv order batch k l → Inv order batch k l'
  unfolding rank
  Moved-Inv k l l' m v =
      let n = l.slots.next_position in
      let (_, is_slot, next_slot, held) =
        next-Holds order l.slots l'.slots n m.slot v.held m.read in
      let old = v.queues m.slot.0 m.queue m.found in
      let (_, is_batch, next_batch', held') =
        next-Holds (batch m.slot.0) m.queue m.queue' m.queue.next_position m.batch_id old.held
          m.taken in
      let is_entry : (m.batch_id, m.slot.1) ≡ entry order batch n =
        entry-eq n m.batch_id m.queue.next_position m.slot is_batch old.at_rank is_slot in
      record {
        held = held;
        listed =
            subst₂ (λ r j. Listed order batch k r j)
              (ap (λ x. l.ready_batches ++ (n, x) ∷ []) (sym is_entry) ∙ sym m.pushed)
              (sym next_slot) (Listed-snoc order batch k n l.ready_batches v.listed);
        queues = λ q log h.
            subst (λ j. Queue order batch j q log) (sym next_slot)
              (elim (Bool-cases (nat_eq m.slot.0 q)) [
                | inl same ↦
                    (let here : log ≡ m.queue' =
                        ground
                          (arith, lookup-insert m.slot.0 q m.queue' l.batch_queues, m.written) in
                      let is_q : m.slot.0 ≡ q = ground arith in
                      subst₂ (λ j x. Queue order batch (suc n) j x) is_q (sym here)
                        (record { held = held'; at_rank = ground (arith, old.at_rank) }))
                | inr other ↦
                    (let w = v.queues q log (
                        ground
                          (arith, lookup-insert m.slot.0 q m.queue' l.batch_queues, m.written)) in
                      record { held = w.held; at_rank = ground (arith, w.at_rank) })
              ]);
        untouched = λ q h.
            ground
              (arith, lookup-insert m.slot.0 q m.queue' l.batch_queues, m.written, v.untouched q);
      }

  update_rounds-Inv :
      (k fuel : ℕ) (l : LocalLog) → Inv order batch k l → Inv order batch k (update_rounds fuel l)
  unfolding update_rounds
  update_rounds-Inv k zero l v = v
  update_rounds-Inv k (suc fuel) l v = elim (Option-cases (update_round l)) [
    | inl e ↦ rw (e, update_rounds) v
    | inr (l', e) ↦
        rw (e, update_rounds)
          (update_rounds-Inv k fuel l' (Moved-Inv k l l' (update_round-Moved l l' e) v))
  ]

  update_ready_batches-Inv :
      (k : ℕ) (l : LocalLog) → Inv order batch k l → Inv order batch k (update_ready_batches l)
  unfolding update_ready_batches
  update_ready_batches-Inv k l v = update_rounds-Inv k (suc (length l.slots.log)) l v

  pub empty-Inv : Inv order batch 0 empty
  unfolding lookup rank
  empty-Inv = record {
    held = Holds-empty order 0;
    listed = refl;
    queues = λ q log h. absurd (ground arith);
    untouched = λ q h. refl;
  }

  pub add_slot-Inv :
      (k slot queue leader : ℕ) (l l' : LocalLog)
      → suc slot < 2 ^ 32
      → order slot ≡ (queue, leader)
      → Inv order batch k l
      → add_slot slot queue leader l ≡ some l'
      → Inv order batch k l'
  unfolding add_slot
  add_slot-Inv k slot queue leader l l' fits is v e =
      let e' =
        subst
          (λ x.
            (AsyncLog.insert slot x l.slots >>= λ s.
            some (update_ready_batches (record l { slots = s })))
            ≡ some l')
          (sym is) e in
      let (slots, inserted, done) =
        >>=-eq-some (AsyncLog.insert slot (order slot) l.slots)
          (λ s. some (update_ready_batches (record l { slots = s }))) e' in
      let kept = next_position-insert slot (order slot) l.slots slots inserted in
      subst (Inv order batch k) (some_inj done) (
        update_ready_batches-Inv k (record l { slots = slots })
          (record {
            held = insert-Holds order slot l.slots slots v.held fits inserted;
            listed = subst (Listed order batch k l.ready_batches) (sym kept) v.listed;
            queues =
                λ q log h. subst (λ j. Queue order batch j q log) (sym kept) (v.queues q log h);
            untouched = λ q h. subst (λ j. rank order q j ≡ 0) (sym kept) (v.untouched q h);
          }))

  get_or-Queue :
      (k queue : ℕ) (l : LocalLog)
      → Inv order batch k l
      → Queue order batch l.slots.next_position queue
          (get_or queue (AsyncLog.empty 0) l.batch_queues)
  get_or-Queue k queue l v = elim (Option-cases (lookup queue l.batch_queues)) [
    | inl e ↦
        subst (Queue order batch l.slots.next_position queue) {x = AsyncLog.empty 0} (ground arith)
          (record { held = Holds-empty (batch queue) 0; at_rank = sym (v.untouched queue e) })
    | inr (log, e) ↦
        subst (Queue order batch l.slots.next_position queue) {x = log} (ground arith)
          (v.queues queue log e)
  ]

  pub add_batch_id-Inv :
      (k queue position : ℕ) (l l' : LocalLog)
      → suc position < 2 ^ 32
      → Inv order batch k l
      → add_batch_id queue position (batch queue position) l ≡ some l'
      → Inv order batch k l'
  unfolding add_batch_id
  add_batch_id-Inv k queue position l l' fits v e =
      let old = get_or queue (AsyncLog.empty 0) l.batch_queues in
      let (log, inserted, done) =
        >>=-eq-some (AsyncLog.insert position (batch queue position) old)
          (λ q.
            some (update_ready_batches (record l { batch_queues = insert queue q l.batch_queues })))
          e in
      let w = get_or-Queue k queue l v in
      let kept = next_position-insert position (batch queue position) old log inserted in
      let new : Queue order batch l.slots.next_position queue log = record {
        held = insert-Holds (batch queue) position old log w.held fits inserted;
        at_rank = kept ∙ w.at_rank;
      } in
      subst (Inv order batch k) (some_inj done) (
        update_ready_batches-Inv k (record l { batch_queues = insert queue log l.batch_queues })
          (record {
            held = v.held;
            listed = v.listed;
            queues = λ q x h. elim (Bool-cases (nat_eq queue q)) [
              | inl same ↦
                  (let is_q : queue ≡ q = ground arith in
                    let here : log ≡ x = ground (arith, lookup-insert queue q log l.batch_queues) in
                    subst₂ (λ j y. Queue order batch l.slots.next_position j y) is_q here new)
              | inr other ↦ v.queues q x (ground (arith, lookup-insert queue q log l.batch_queues))
            ];
            untouched =
                λ q h. ground (arith, lookup-insert queue q log l.batch_queues, v.untouched q);
          }))
