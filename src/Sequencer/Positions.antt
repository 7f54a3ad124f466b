-- ===== src/Sequencer/Positions.antt =====
-- The positions of the batches of a sequencer over all its rounds.
use slog.Base.{
  ◌+◌, ◌≤◌, ◌<◌, ◌^◌, ◌≡◌, sym, subst, refl, ap, ap₂, ◌∙◌, Bool, false, Option, some, List, [], ◌∷◌,
  ◌++◌, length, All, arith, Bool-cases, inl, inr, subst₂, ltb, leb, ◌&&◌, length-append, ◌>>=◌,
  >>=-eq-some, some_inj, All-append,
}
use slog.Txn.{Transaction}
use slog.Sequencer.{
  PartitionedBatch, Sequencer, Settings, Sent, send_batches, later, new_parts, batch_id, new_batch,
  start_over, init, add_parts, on_back, lock_only, batch_txn, end_round,
}
use mathlib.Core.List.{append_assoc, append-nil}
use slog.Sequencer.Sends.{
  local_sends, remote_sends, proposals, local_sends-append, remote_sends-append, proposals-append,
  positions, replicated, repeat, positions-append, replicated-append, repeat-append,
}
use slog.Sequencer.Whole.{IsWhole, length-new_parts, length-add_parts, on_back-IsWhole}
use slog.Sequencer.Rounds.{sent_batches, send_batches-Round}

sent_batches_eq :
    (delays : List Bool) (batches : List PartitionedBatch)
    → All (λ d. d ≡ false) delays
    → sent_batches delays batches ≡ batches
sent_batches_eq delays [] h = refl
sent_batches_eq [] (b ∷ bs) h = ground (arith, sent_batches_eq [] bs tt)
sent_batches_eq (d ∷ delays) (b ∷ bs) h = ground (arith, sent_batches_eq delays bs h.1)

-- What a sequencer has sent when it stands so: the batches `ended` of the rounds before this one.
pub record Sends (c : Settings) (s : Sequencer) (ended : List PartitionedBatch) (sent : List Sent)
    : Type 0 where
  pub whole : All (IsWhole c) s.batches
  pub counted : length ended + length s.batches ≡ s.batch_id_counter
  pub sends : local_sends sent ≡ positions c 0 ended
  pub replicates : remote_sends sent ≡ replicated c 0 ended
  pub proposed : proposals sent ≡ repeat (length ended) c.local_partition

new_batch-Sends :
    (c : Settings) (s : Sequencer) (ended : List PartitionedBatch) (sent : List Sent)
    → Sends c s ended sent
    → Sends c (new_batch c s) ended sent
unfolding new_batch
new_batch-Sends c s ended sent v =
    let next = record s { current_batch_size = 0; batch_id_counter = s.batch_id_counter + 1 } in
    let parts = new_parts (batch_id c next) c.num_partitions in
    record {
      whole =
          All-append (IsWhole c) s.batches (parts ∷ []) v.whole
            (length-new_parts (batch_id c next) c.num_partitions, tt);
      counted = omega (arith, length-append s.batches (parts ∷ []), v.counted);
      sends = v.sends;
      replicates = v.replicates;
      proposed = v.proposed;
    }

init-Sends : (c : Settings) → Sends c (init c) [] []
unfolding start_over
init-Sends c =
    new_batch-Sends c
      (record { batches = []; batch_id_counter = 0; current_batch_size = 0; total_batch_size = 0 })
      [] []
      (record {
        whole = tt;
        counted = omega arith;
        sends = refl;
        replicates = refl;
        proposed = refl;
      })

end_round-Sends :
    (c : Settings) (delays : List Bool) (s s' : Sequencer) (ended : List PartitionedBatch)
    (before sent : List Sent)
    → All (λ d. d ≡ false) delays
    → s.batch_id_counter < 2 ^ 31
    → Sends c s ended before
    → end_round c delays s ≡ some (s', sent)
    → Sends c s' (ended ++ s.batches) (before ++ sent)
unfolding end_round start_over
end_round-Sends c delays s s' ended before sent none_late small v e =
    let round = send_batches-Round c delays s v.whole (omega (arith, v.counted)) small in
    let (out, returned, rest) = >>=-eq-some (send_batches c delays s) _ e in
    let same : round.sent ≡ sent =
      some_inj (sym round.returned ∙ returned) ∙ ap (λ x. x.1) (some_inj rest) in
    let all = sent_batches_eq delays s.batches none_late in
    let long = length-append ended s.batches in
    let cleared : Sends c (record s { total_batch_size = 0; batches = [] }) (ended ++ s.batches)
        (before ++ sent) =
      record {
        whole = tt;
        counted = omega (arith, long, v.counted);
        sends =
            local_sends-append before sent
            ∙ ap₂ ◌++◌ v.sends (
                ap local_sends (sym same)
                ∙ round.sends
                ∙ ap₂ (positions c) {y = 0 + length ended} (omega (arith, v.counted)) all)
            ∙ positions-append c 0 ended s.batches;
        replicates =
            remote_sends-append before sent
            ∙ ap₂ ◌++◌ v.replicates (
                ap remote_sends (sym same)
                ∙ round.replicates
                ∙ ap₂ (replicated c) {y = 0 + length ended} (omega (arith, v.counted)) all)
            ∙ replicated-append c 0 ended s.batches;
        proposed =
            proposals-append before sent
            ∙ ap₂ ◌++◌ v.proposed (
                ap proposals (sym same)
                ∙ round.proposed
                ∙ ap (λ x. repeat (length x) c.local_partition) all)
            ∙ repeat-append (length ended) (length s.batches) c.local_partition
            ∙ ap (λ x. repeat x c.local_partition) (omega (arith, long));
      } in
    subst (λ x. Sends c x (ended ++ s.batches) (before ++ sent)) (ap (λ x. x.0) (some_inj rest))
      (new_batch-Sends c (record s { total_batch_size = 0; batches = [] }) (ended ++ s.batches)
        (before ++ sent) cleared)

batch_txn-Sends :
    (c : Settings) (txn : Transaction) (s s' : Sequencer) (timer : Bool)
    (ended : List PartitionedBatch) (sent : List Sent)
    → Sends c s ended sent
    → batch_txn c txn s ≡ some (s', timer)
    → Sends c s' ended sent
unfolding batch_txn
batch_txn-Sends c received s s' timer ended sent v e =
    let txn = lock_only c received in
    let (batches, added, rest) =
      >>=-eq-some (on_back (add_parts c txn txn.internal.involved_partitions) s.batches) _ e in
    let (whole, long) =
      on_back-IsWhole c (add_parts c txn txn.internal.involved_partitions) s.batches batches
        (λ b b'. length-add_parts c txn txn.internal.involved_partitions b b') added v.whole in
    let kept : Sequencer = record s {
      batches = batches;
      current_batch_size = s.current_batch_size + 1;
      total_batch_size = s.total_batch_size + 1;
    } in
    let still : Sends c kept ended sent = record {
      whole = whole;
      counted = omega (arith, long, v.counted);
      sends = v.sends;
      replicates = v.replicates;
      proposed = v.proposed;
    } in
    elim (Bool-cases (ltb 0 c.batch_size && leb c.batch_size (s.current_batch_size + 1))) [
      | inl full ↦
          subst (λ x. Sends c x ended sent) {x = new_batch c kept} (ground arith)
            (new_batch-Sends c kept ended sent still)
      | inr room ↦ subst (λ x. Sends c x ended sent) {x = kept} (ground arith) still
    ]

-- The number of batches that were begun never falls.
batch_txn-counter :
    (c : Settings) (txn : Transaction) (s s' : Sequencer) (timer : Bool)
    → batch_txn c txn s ≡ some (s', timer)
    → s.batch_id_counter ≤ s'.batch_id_counter
unfolding batch_txn new_batch
batch_txn-counter c received s s' timer e =
    let txn = lock_only c received in
    let (batches, added, rest) =
      >>=-eq-some (on_back (add_parts c txn txn.internal.involved_partitions) s.batches) _ e in
    elim (Bool-cases (ltb 0 c.batch_size && leb c.batch_size (s.current_batch_size + 1))) [
      | inl full ↦ ground arith
      | inr room ↦ ground arith
    ]

end_round-counter :
    (c : Settings) (delays : List Bool) (s s' : Sequencer) (sent : List Sent)
    → end_round c delays s ≡ some (s', sent)
    → s.batch_id_counter ≤ s'.batch_id_counter
unfolding end_round start_over new_batch
end_round-counter c delays s s' sent e =
    let (out, returned, rest) = >>=-eq-some (send_batches c delays s) _ e in
    omega (arith, ap (λ x. x.0.batch_id_counter) (some_inj rest))

-- What happens to a sequencer: a transaction comes in, or its delay is over; or a round ends.
pub data Happening : Type 0 where
  batched : Transaction → Happening
  ended : (delays : List Bool) → Happening

-- The sequencer after it, the batches that it held at the end of each round, and what it has sent.
unfoldable pub run :
    Settings → List Happening → Sequencer → Option (Sequencer × List PartitionedBatch × List Sent)
run c [] s = some (s, [], [])
run c (batched txn ∷ hs) s = do (s', timer) ← batch_txn c txn s; run c hs s'
run c (ended delays ∷ hs) s = do
  (s', sent) ← end_round c delays s
  (s'', later, sent') ← run c hs s'
  some (s'', s.batches ++ later, sent ++ sent')

-- No batch is chosen to be delayed.
abbrev pub NeverLate : Happening → Type 0
NeverLate (batched txn) = Unit
NeverLate (ended delays) = All (λ d. d ≡ false) delays

run-counter :
    (c : Settings) (hs : List Happening) (s s' : Sequencer) (batches : List PartitionedBatch)
    (sent : List Sent)
    → run c hs s ≡ some (s', batches, sent)
    → s.batch_id_counter ≤ s'.batch_id_counter
unfolding run
run-counter c [] s s' batches sent e = omega (arith, ap (λ x. x.0.batch_id_counter) (some_inj e))
run-counter c (batched txn ∷ hs) s s' batches sent e =
    let ((s₁, timer), first, rest) = >>=-eq-some (batch_txn c txn s) _ e in
    omega
      (arith, batch_txn-counter c txn s s₁ timer first, run-counter c hs s₁ s' batches sent rest)
run-counter c (ended delays ∷ hs) s s' batches sent e =
    let ((s₁, sent₁), first, rest) = >>=-eq-some (end_round c delays s) _ e in
    let ((s₂, batches₂, sent₂), more, last) = >>=-eq-some (run c hs s₁) _ rest in
    omega (
      arith,
      end_round-counter c delays s s₁ sent₁ first,
      run-counter c hs s₁ s₂ batches₂ sent₂ more,
      ap (λ x. x.0.batch_id_counter) (some_inj last),
    )

run-Sends :
    (c : Settings) (hs : List Happening) (s s' : Sequencer) (gone batches : List PartitionedBatch)
    (before sent : List Sent)
    → All NeverLate hs
    → Sends c s gone before
    → run c hs s ≡ some (s', batches, sent)
    → s'.batch_id_counter < 2 ^ 31
    → Sends c s' (gone ++ batches) (before ++ sent)
unfolding run
run-Sends c [] s s' gone batches before sent never v e small =
    subst (λ x. Sends c x.0 (gone ++ x.1) (before ++ x.2)) (some_inj e)
      (subst₂ (Sends c s) (sym (append-nil gone)) (sym (append-nil before)) v)
run-Sends c (batched txn ∷ hs) s s' gone batches before sent never v e small =
    let ((s₁, timer), first, rest) = >>=-eq-some (batch_txn c txn s) _ e in
    run-Sends c hs s₁ s' gone batches before sent never.1
      (batch_txn-Sends c txn s s₁ timer gone before v first) rest small
run-Sends c (ended delays ∷ hs) s s' gone batches before sent never v e small =
    let ((s₁, sent₁), first, rest) = >>=-eq-some (end_round c delays s) _ e in
    let ((s₂, batches₂, sent₂), more, last) = >>=-eq-some (run c hs s₁) _ rest in
    let final : s₂.batch_id_counter ≡ s'.batch_id_counter =
      ap (λ x. x.0.batch_id_counter) (some_inj last) in
    let step = end_round-counter c delays s s₁ sent₁ first in
    let steps = run-counter c hs s₁ s₂ batches₂ sent₂ more in
    let next =
      end_round-Sends c delays s s₁ gone before sent₁ never.0 (omega (arith, step, steps, final)) v
        first in
    let rests =
      run-Sends c hs s₁ s₂ (gone ++ s.batches) batches₂ (before ++ sent₁) sent₂ never.1 next more
        (omega (arith, final)) in
    subst (λ x. Sends c x.0 (gone ++ x.1) (before ++ x.2)) (some_inj last)
      (subst₂ (Sends c s₂) (append_assoc gone s.batches batches₂) (append_assoc before sent₁ sent₂)
        rests)

-- Let a new sequencer, over any rounds in which no batch is chosen to be delayed, begin fewer than
-- 2^31 batches, and no call go out of range. Then the batches that it held at the ends of its
-- rounds are all that it began but those of the open round; they have the positions 0, 1, 2, … in
-- their order and without a gap. At its position, the part of each batch for a partition is sent
-- to the machine of the region that is of this partition, and all its parts together to the
-- machines of the other regions that the loop over the regions picks; no other batch data is sent.
-- As many proposals are made as there are such batches.
pub positions_without_gap :
    (c : Settings) (hs : List Happening) (s : Sequencer) (batches : List PartitionedBatch)
    (sent : List Sent)
    → All NeverLate hs
    → run c hs (init c) ≡ some (s, batches, sent)
    → s.batch_id_counter < 2 ^ 31
    → (length batches + length s.batches ≡ s.batch_id_counter)
      × (local_sends sent ≡ positions c 0 batches)
      × (remote_sends sent ≡ replicated c 0 batches)
      × (proposals sent ≡ repeat (length batches) c.local_partition)
positions_without_gap c hs s batches sent never e small =
    let v = run-Sends c hs (init c) s [] batches [] sent never (init-Sends c) e small in
    (v.counted, v.sends, v.replicates, v.proposed)
