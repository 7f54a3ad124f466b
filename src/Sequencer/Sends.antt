-- ===== src/Sequencer/Sends.antt =====
-- The messages of a sequencer by their kind: batches for the region, batches for others, proposals.
use slog.Base.{ℕ, zero, suc, ◌+◌, ◌≡◌, pos, refl, ap, ◌∙◌, List, [], ◌∷◌, ◌++◌, length, arith, ℤ}
use slog.Messages.{ForwardBatchData}
use slog.Config.{partition_ids}
use slog.Sequencer.{PartitionedBatch, Settings, Sent, other_regions}
use mathlib.Core.List.{append_assoc}

-- What is sent to the partitions of the region, with the destinations.
abbrev pub local_sends : List Sent → List (ForwardBatchData × ℤ)
local_sends [] = []
local_sends (Sent.forward_local f to ∷ sent) = (f, to) ∷ local_sends sent
local_sends (_ ∷ sent) = local_sends sent

abbrev pub proposals : List Sent → List ℕ
proposals [] = []
proposals (Sent.propose value ∷ sent) = value ∷ proposals sent
proposals (_ ∷ sent) = proposals sent

-- What is sent to the other regions, at once or later, with the destinations.
abbrev pub remote_sends : List Sent → List (ForwardBatchData × List ℤ)
remote_sends [] = []
remote_sends (Sent.propose value ∷ sent) = remote_sends sent
remote_sends (Sent.forward_local f to ∷ sent) = remote_sends sent
remote_sends (Sent.replicate f to ∷ sent) = (f, to) ∷ remote_sends sent
remote_sends (Sent.replicate_later f to ∷ sent) = (f, to) ∷ remote_sends sent

pub local_sends-append :
    (xs ys : List Sent) → local_sends (xs ++ ys) ≡ local_sends xs ++ local_sends ys
local_sends-append [] ys = refl
local_sends-append (Sent.propose v ∷ xs) ys = local_sends-append xs ys
local_sends-append (Sent.forward_local f to ∷ xs) ys = ap (◌∷◌ (f, to)) (local_sends-append xs ys)
local_sends-append (Sent.replicate f to ∷ xs) ys = local_sends-append xs ys
local_sends-append (Sent.replicate_later f to ∷ xs) ys = local_sends-append xs ys

pub remote_sends-append :
    (xs ys : List Sent) → remote_sends (xs ++ ys) ≡ remote_sends xs ++ remote_sends ys
remote_sends-append [] ys = refl
remote_sends-append (Sent.propose v ∷ xs) ys = remote_sends-append xs ys
remote_sends-append (Sent.forward_local f to ∷ xs) ys = remote_sends-append xs ys
remote_sends-append (Sent.replicate f to ∷ xs) ys = ap (◌∷◌ (f, to)) (remote_sends-append xs ys)
remote_sends-append (Sent.replicate_later f to ∷ xs) ys =
    ap (◌∷◌ (f, to)) (remote_sends-append xs ys)

pub proposals-append : (xs ys : List Sent) → proposals (xs ++ ys) ≡ proposals xs ++ proposals ys
proposals-append [] ys = refl
proposals-append (Sent.propose v ∷ xs) ys = ap (◌∷◌ v) (proposals-append xs ys)
proposals-append (Sent.forward_local f to ∷ xs) ys = proposals-append xs ys
proposals-append (Sent.replicate f to ∷ xs) ys = proposals-append xs ys
proposals-append (Sent.replicate_later f to ∷ xs) ys = proposals-append xs ys

-- Each part of a batch goes to a machine of its own, at the position of the batch.
abbrev pub to_each : Settings → ℕ → PartitionedBatch → List ℤ → List (ForwardBatchData × ℤ)
to_each c position [] tos = []
to_each c position (part ∷ batch) [] = []
to_each c position (part ∷ batch) (to ∷ tos) =
    (record { batch_data = part ∷ []; home = c.local_replica; home_position = position }, to)
    ∷ to_each c position batch tos

-- The batches have the positions from `start` on, and the part of each for a partition of the region
-- goes to that partition.
abbrev pub positions : Settings → ℕ → List PartitionedBatch → List (ForwardBatchData × ℤ)
positions c start [] = []
positions c start (batch ∷ batches) =
    to_each c start batch (partition_ids c.num_partitions c.local_replica 0 c.num_partitions)
    ++ positions c (suc start) batches

-- The batches have the positions from `start` on, and each goes to the other regions as a whole.
abbrev pub replicated : Settings → ℕ → List PartitionedBatch → List (ForwardBatchData × List ℤ)
replicated c start [] = []
replicated c start (batch ∷ batches) =
    (
      record { batch_data = batch; home = c.local_replica; home_position = start },
      other_regions c (pos start) 0 c.num_replicas,
    )
    ∷ replicated c (suc start) batches

abbrev pub repeat : ℕ → ℕ → List ℕ
repeat zero v = []
repeat (suc n) v = v ∷ repeat n v

pub positions-append :
    (c : Settings) (a : ℕ) (xs ys : List PartitionedBatch)
    → positions c a xs ++ positions c (a + length xs) ys ≡ positions c a (xs ++ ys)
positions-append c a [] ys = ap (λ n. positions c n ys) (omega arith)
positions-append c a (x ∷ xs) ys =
    append_assoc (to_each c a x (partition_ids c.num_partitions c.local_replica 0 c.num_partitions))
      (positions c (suc a) xs) (positions c (a + suc (length xs)) ys)
    ∙ ap
        (λ z.
          to_each c a x (partition_ids c.num_partitions c.local_replica 0 c.num_partitions) ++ z)
        (ap (λ n. positions c (suc a) xs ++ positions c n ys) (omega arith)
          ∙ positions-append c (suc a) xs ys)

pub replicated-append :
    (c : Settings) (a : ℕ) (xs ys : List PartitionedBatch)
    → replicated c a xs ++ replicated c (a + length xs) ys ≡ replicated c a (xs ++ ys)
replicated-append c a [] ys = ap (λ n. replicated c n ys) (omega arith)
replicated-append c a (x ∷ xs) ys =
    ap
      (◌∷◌ (
        record { batch_data = x; home = c.local_replica; home_position = a },
        other_regions c (pos a) 0 c.num_replicas,
      ))
      (ap (λ n. replicated c (suc a) xs ++ replicated c n ys) (omega arith)
        ∙ replicated-append c (suc a) xs ys)

pub repeat-append : (m n v : ℕ) → repeat m v ++ repeat n v ≡ repeat (m + n) v
repeat-append zero n v = ap (λ x. repeat x v) (omega arith)
repeat-append (suc m) n v =
    ap (◌∷◌ v) (repeat-append m n v) ∙ ap (λ x. repeat x v) {x = suc (m + n)} (omega arith)
