-- ===== src/Sequencer/Rounds.antt =====
-- What a round of a sequencer sends.
use slog.Base.{
  ℕ, zero, suc, ◌+◌, ◌-◌, ◌≤◌, ◌<◌, ◌^◌, ◌≡◌, sym, subst, pos, ◌+ℤ◌, refl, ap, ap₂, ◌∙◌, Bool, true,
  false, Option, some, List, [], ◌∷◌, ◌++◌, length, get_elem?, if◌then◌else◌, All, arith, ℤ,
  Bool-cases, inl, inr,
}
use slog.Txn.{Transaction}
use slog.BatchLog.{Batch}
use slog.Messages.{ForwardBatchData}
use slog.Config.{make_machine_id, partition_ids}
use slog.Sequencer.{
  PartitionedBatch, Sequencer, Settings, Sent, distribute, send_from, send_batches, chosen, later,
  replication, new_batch_forwarding_message, first_position, other_regions, parts,
}
use slog.Sequencer.Sends.{
  local_sends, remote_sends, proposals, local_sends-append, remote_sends-append, proposals-append,
  to_each, positions, replicated, repeat,
}
use slog.Sequencer.Whole.{IsWhole}

-- The batches of a round that are sent: all, or those up to the first that is delayed.
abbrev pub sent_batches : List Bool → List PartitionedBatch → List PartitionedBatch
sent_batches delays [] = []
sent_batches delays (batch ∷ batches) =
    let rest = sent_batches (later delays) batches in batch ∷ (if chosen delays then [] else rest)

-- The parts from the `p`-th on.
abbrev drop : ℕ → PartitionedBatch → PartitionedBatch
drop zero batch = batch
drop (suc p) [] = []
drop (suc p) (part ∷ batch) = drop p batch

drop-some :
    (batch : PartitionedBatch) (p : ℕ)
    → suc p ≤ length batch
    → (part : Batch Transaction) × (get_elem? batch p ≡ some part)
      × (drop p batch ≡ part ∷ drop (suc p) batch)
drop-some [] p h = absurd (omega arith)
drop-some (b ∷ bs) zero h = (b, refl, refl)
drop-some (b ∷ bs) (suc p) h = drop-some bs p (omega arith)

drop_all : (batch : PartitionedBatch) (p : ℕ) → length batch ≤ p → drop p batch ≡ []
drop_all [] zero h = refl
drop_all (b ∷ bs) zero h = absurd (omega arith)
drop_all [] (suc p) h = refl
drop_all (b ∷ bs) (suc p) h = drop_all bs p (omega arith)

distribute_total :
    (c : Settings) (batch : PartitionedBatch) (hp p left : ℕ)
    → p + left ≡ length batch
    → hp < 2 ^ 31
    → (sent : List Sent) × (distribute c batch (pos hp) p left ≡ some sent)
      × (local_sends sent
          ≡ to_each c hp (drop p batch) (partition_ids c.num_partitions c.local_replica p left))
      × (proposals sent ≡ [])
      × (remote_sends sent ≡ [])
unfolding distribute partition_ids
distribute_total c batch hp p zero h small = (
  [],
  refl,
  ap (λ b. to_each c hp b []) {x = []} (sym (drop_all batch p (omega arith))),
  refl,
  refl,
)
distribute_total c batch hp p (suc left) h small =
    let (part, there, cons) = drop-some batch p (omega arith) in
    let (rest, more, sends, quiet, still) =
      distribute_total c batch hp (suc p) left (omega arith) small in
    let ids = partition_ids c.num_partitions c.local_replica p (suc left) in
    let to = make_machine_id c.num_partitions c.local_replica p in
    (
      Sent.forward_local (new_batch_forwarding_message c (part ∷ []) (pos hp)) to ∷ rest,
      ground (arith, there, more),
      ap₂ ◌∷◌
            (ap
              (λ n.
                (record { batch_data = part ∷ []; home = c.local_replica; home_position = n }, to))
              (omega arith))
            sends
          ∙ ap (λ b. to_each c hp b ids) (sym cons),
      quiet,
      still,
    )

local_sends-replication :
    (c : Settings) (delayed : Bool) (batch : PartitionedBatch) (hp : ℤ) (sent : List Sent)
    → local_sends (replication c delayed batch hp ∷ sent) ≡ local_sends sent
local_sends-replication c true batch hp sent = refl
local_sends-replication c false batch hp sent = refl

proposals-replication :
    (c : Settings) (delayed : Bool) (batch : PartitionedBatch) (hp : ℤ) (sent : List Sent)
    → proposals (replication c delayed batch hp ∷ sent) ≡ proposals sent
proposals-replication c true batch hp sent = refl
proposals-replication c false batch hp sent = refl

parts_all : (n : ℕ) (batch : PartitionedBatch) → length batch ≡ n → parts n batch ≡ batch
parts_all zero [] h = refl
parts_all zero (b ∷ bs) h = absurd (omega arith)
parts_all (suc n) [] h = refl
parts_all (suc n) (b ∷ bs) h = ap (◌∷◌ b) (parts_all n bs (omega arith))

-- The data of a batch for the other regions carries all its parts and its position.
replication_message :
    (c : Settings) (batch : PartitionedBatch) (hp : ℕ)
    → IsWhole c batch
    → hp < 2 ^ 31
    → new_batch_forwarding_message c (parts c.num_partitions batch) (pos hp)
      ≡ record { batch_data = batch; home = c.local_replica; home_position = hp }
replication_message c batch hp whole small =
    ap₂ (λ b n. record { batch_data = b; home = c.local_replica; home_position = n })
      (parts_all c.num_partitions batch whole) (omega arith)

remote_sends-replication :
    (c : Settings) (delayed : Bool) (batch : PartitionedBatch) (hp : ℕ) (sent : List Sent)
    → IsWhole c batch
    → hp < 2 ^ 31
    → remote_sends (replication c delayed batch (pos hp) ∷ sent)
      ≡ (
        record { batch_data = batch; home = c.local_replica; home_position = hp },
        other_regions c (pos hp) 0 c.num_replicas,
      )
        ∷ remote_sends sent
remote_sends-replication c true batch hp sent whole small =
    ap (λ m. (m, other_regions c (pos hp) 0 c.num_replicas) ∷ remote_sends sent)
      (replication_message c batch hp whole small)
remote_sends-replication c false batch hp sent whole small =
    ap (λ m. (m, other_regions c (pos hp) 0 c.num_replicas) ∷ remote_sends sent)
      (replication_message c batch hp whole small)

-- One batch of a round, and the rest.
abbrev one_batch : Settings → Bool → PartitionedBatch → ℤ → List Sent → List Sent → List Sent
one_batch c delayed batch hp local rest =
    (Sent.propose c.local_partition ∷ local) ++ replication c delayed batch hp ∷ rest

local_sends-one_batch :
    (c : Settings) (delayed : Bool) (batch : PartitionedBatch) (hp : ℤ) (local rest : List Sent)
    → local_sends (one_batch c delayed batch hp local rest) ≡ local_sends local ++ local_sends rest
local_sends-one_batch c delayed batch hp local rest =
    local_sends-append local (replication c delayed batch hp ∷ rest)
    ∙ ap (λ x. local_sends local ++ x) (local_sends-replication c delayed batch hp rest)

remote_sends-one_batch :
    (c : Settings) (delayed : Bool) (batch : PartitionedBatch) (hp : ℕ) (local rest : List Sent)
    → IsWhole c batch
    → hp < 2 ^ 31
    → remote_sends local ≡ []
    → remote_sends (one_batch c delayed batch (pos hp) local rest)
      ≡ (
        record { batch_data = batch; home = c.local_replica; home_position = hp },
        other_regions c (pos hp) 0 c.num_replicas,
      )
        ∷ remote_sends rest
remote_sends-one_batch c delayed batch hp local rest whole small still =
    remote_sends-append local (replication c delayed batch (pos hp) ∷ rest)
    ∙ ap₂ ◌++◌ still (remote_sends-replication c delayed batch hp rest whole small)

proposals-one_batch :
    (c : Settings) (delayed : Bool) (batch : PartitionedBatch) (hp : ℤ) (local rest : List Sent)
    → proposals local ≡ []
    → proposals (one_batch c delayed batch hp local rest) ≡ c.local_partition ∷ proposals rest
proposals-one_batch c delayed batch hp local rest quiet = ap (◌∷◌ c.local_partition) (
    proposals-append local (replication c delayed batch hp ∷ rest)
    ∙ ap₂ ◌++◌ quiet (proposals-replication c delayed batch hp rest))

-- A round returns, and sends and proposes those batches, the first at that position.
pub record Round (c : Settings) (home_position : ℕ) (batches : List PartitionedBatch)
    (outcome : Option (List Sent)) : Type 0 where
  pub sent : List Sent
  pub returned : outcome ≡ some sent
  pub sends : local_sends sent ≡ positions c home_position batches
  pub replicates : remote_sends sent ≡ replicated c home_position batches
  pub proposed : proposals sent ≡ repeat (length batches) c.local_partition

next_position : (n : ℕ) → pos n +ℤ pos 1 ≡ pos (suc n)
unfolding ◌+ℤ◌
next_position n = ground arith

send_from-Round :
    (c : Settings) (delays : List Bool) (batches : List PartitionedBatch) (hp : ℕ)
    → All (IsWhole c) batches
    → hp + length batches < 2 ^ 31
    → Round c hp (sent_batches delays batches) (send_from c delays batches (pos hp))
unfolding send_from
send_from-Round c delays [] hp whole small = record {
  sent = [];
  returned = refl;
  sends = refl;
  replicates = refl;
  proposed = refl;
}
send_from-Round c delays (b ∷ bs) hp whole small =
    let (local, done, sends, quiet, still) =
      distribute_total c b hp 0 c.num_partitions (omega (arith, whole.0)) (omega (arith, small)) in
    let next = send_from-Round c (later delays) bs (suc hp) whole.1 (omega (arith, small)) in
    let ids = partition_ids c.num_partitions c.local_replica 0 c.num_partitions in
    let whole_to = other_regions c (pos hp) 0 c.num_replicas in
    let message : ForwardBatchData = record {
      batch_data = b;
      home = c.local_replica;
      home_position = hp;
    } in
    let on : send_from c (later delays) bs (pos hp +ℤ pos 1) ≡ some next.sent =
      ap (send_from c (later delays) bs) (next_position hp) ∙ next.returned in
    let after : List PartitionedBatch =
      if chosen delays then [] else sent_batches (later delays) bs in
    elim (Bool-cases (chosen delays)) [
      | inl delayed ↦ record {
        sent = one_batch c (chosen delays) b (pos hp) local [];
        returned = ground (arith, done);
        sends =
            local_sends-one_batch c (chosen delays) b (pos hp) local []
            ∙ ap₂ (λ x y. x ++ positions c (suc hp) y) {u = []} {v = after} sends (ground arith);
        replicates =
            remote_sends-one_batch c (chosen delays) b hp local [] whole.0 (omega (arith, small))
              still
            ∙ ap (λ y. (message, whole_to) ∷ replicated c (suc hp) y) {x = []} {y = after}
                (ground arith);
        proposed =
            proposals-one_batch c (chosen delays) b (pos hp) local [] quiet
            ∙ ap (λ y. c.local_partition ∷ repeat (length y) c.local_partition) {x = []} {y = after}
                (ground arith);
      }
      | inr alone ↦ record {
        sent = one_batch c (chosen delays) b (pos hp) local next.sent;
        returned = ground (arith, done, on);
        sends =
            local_sends-one_batch c (chosen delays) b (pos hp) local next.sent
            ∙ ap₂ ◌++◌ sends next.sends
            ∙ ap (λ y. to_each c hp b ids ++ positions c (suc hp) y)
                {x = sent_batches (later delays) bs} {y = after} (ground arith);
        replicates =
            remote_sends-one_batch c (chosen delays) b hp local next.sent whole.0
              (omega (arith, small)) still
            ∙ ap (◌∷◌ (message, whole_to)) next.replicates
            ∙ ap (λ y. (message, whole_to) ∷ replicated c (suc hp) y)
                {x = sent_batches (later delays) bs} {y = after} (ground arith);
        proposed =
            proposals-one_batch c (chosen delays) b (pos hp) local next.sent quiet
            ∙ ap (◌∷◌ c.local_partition) next.proposed
            ∙ ap (λ y. c.local_partition ∷ repeat (length y) c.local_partition)
                {x = sent_batches (later delays) bs} {y = after} (ground arith);
      }
    ]

first_position_eq :
    (s : Sequencer)
    → length s.batches ≤ s.batch_id_counter
    → s.batch_id_counter < 2 ^ 31
    → first_position s ≡ pos (s.batch_id_counter - length s.batches)
first_position_eq s counted small = ground arith

-- If every batch of a sequencer has a part for each partition, and it has begun at least as many
-- batches as it holds and fewer than 2^31, a round returns. Of its batches it sends those up to
-- the first one that is chosen to be delayed, or all if there is none, and makes a proposal for
-- each: each has its own position, from the number of batches before the round on; each part of it
-- goes, at this position and in a message of its own, to the machine of the region that is of the
-- part's partition, and all its parts together go, at this position, to the machines of the other
-- regions that the loop over the regions picks.
pub send_batches-Round :
    (c : Settings) (delays : List Bool) (s : Sequencer)
    → All (IsWhole c) s.batches
    → length s.batches ≤ s.batch_id_counter
    → s.batch_id_counter < 2 ^ 31
    → Round c
        (s.batch_id_counter - length s.batches)
        (sent_batches delays s.batches)
        (send_batches c delays s)
unfolding send_batches
send_batches-Round c delays s whole counted small =
    subst
      (λ p.
        Round c (s.batch_id_counter - length s.batches) (sent_batches delays s.batches)
          (send_from c delays s.batches p))
      (sym (first_position_eq s counted small))
      (send_from-Round c delays s.batches (s.batch_id_counter - length s.batches) whole
        (omega (arith, counted, small)))
