-- ===== src/Sequencer/Tests.antt =====
-- Two transactions in batches of one, on two partitions.
use slog.Base.{
  ℕ, ◌+◌, ◌-◌, ◌≡◌, refl, if◌then◌else◌, nat_eq, ◌+ℤ◌, arith, true, false, some, List, [], ◌∷◌,
  ◌++◌, length, pos,
}
use slog.Txn.{Transaction, TransactionType}
use slog.BatchLog.{Batch}
use slog.Messages.{ForwardBatchData}
use slog.Locks.Request.{write}
use slog.Locks.Fixtures.{single_home_txn, key_entry}
use slog.Config.{make_machine_id}
use slog.ProtoUtils.Partition.{generate_partitioned_txn, sift}
use slog.Sequencer.{
  PartitionedBatch, Settings, Sequencer, Sent, init, start_over, new_batch, batch_txn, add_parts,
  on_back, end_round, send_batches, send_from, distribute, other_regions,
}
use slog.Sequencer.Sends.{local_sends, remote_sends, replicated, proposals, positions, repeat}
use slog.Sequencer.Rounds.{Round, send_batches-Round, sent_batches}
use slog.Sequencer.Positions.{Happening, run, positions_without_gap}

-- Key A is of partition 0, and all others are of partition 1.
abbrev by_name : List ℕ → ℕ
by_name [] = 1
by_name (b ∷ key) = if nat_eq b b'A' then 0 else 1

abbrev settings : Settings
settings = record {
  local_machine_id = 0;
  local_replica = 0;
  local_partition = 0;
  num_replicas = 1;
  num_partitions = 2;
  batch_size = 1;
  rrr = false;
  counterless = false;
  compute_partition = by_name;
}

-- A transaction of one partition.
abbrev of_partition : ℕ → Transaction → Transaction
of_partition p txn = record txn { internal = record txn.internal { involved_partitions = p ∷ [] } }

abbrev first : Transaction
first = of_partition 0 (single_home_txn 1 (key_entry b'A' write ∷ []))

abbrev second : Transaction
second = of_partition 1 (single_home_txn 2 (key_entry b'B' write ∷ []))

abbrev happenings : List Happening
happenings = Happening.batched first ∷ Happening.batched second ∷ Happening.ended [] ∷ []

-- A batch of the round.
abbrev batch : ℕ → List Transaction → Batch Transaction
batch id txns = record {
  id = id;
  transactions = txns;
  transaction_type = TransactionType.single_home;
  events = [];
}

abbrev message : List (Batch Transaction) → ℕ → ForwardBatchData
message parts position = record { batch_data = parts; home = 0; home_position = position }

abbrev batch_sent : ℕ → Batch Transaction → Batch Transaction → List Sent
batch_sent position a b =
    Sent.propose 0
    ∷ Sent.forward_local (message (a ∷ []) position) (pos 0)
    ∷ Sent.forward_local (message (b ∷ []) position) (pos 1)
    ∷ Sent.replicate (message (a ∷ b ∷ []) position) []
    ∷ []

abbrev sent : List Sent
sent =
    batch_sent 0 (batch 100 (first ∷ [])) (batch 100 [])
    ++ batch_sent 1 (batch 200 []) (batch 200 (second ∷ []))
    ++ batch_sent 2 (batch 300 []) (batch 300 [])

abbrev ended : List PartitionedBatch
ended =
    (batch 100 (first ∷ []) ∷ batch 100 [] ∷ [])
    ∷ (batch 200 [] ∷ batch 200 (second ∷ []) ∷ [])
    ∷ (batch 300 [] ∷ batch 300 [] ∷ [])
    ∷ []

abbrev after : Sequencer
after = record {
  batches = (batch 400 [] ∷ batch 400 [] ∷ []) ∷ [];
  batch_id_counter = 4;
  current_batch_size = 0;
  total_batch_size = 0;
}

runs : run settings happenings (init settings) ≡ some (after, ended, sent)
unfolding run start_over new_batch batch_txn add_parts on_back end_round send_batches send_from
    distribute other_regions make_machine_id generate_partitioned_txn sift ◌+ℤ◌
runs = refl

positions_without_gap_example :
    (length ended + length after.batches ≡ after.batch_id_counter)
    × (local_sends sent ≡ positions settings 0 ended)
    × (remote_sends sent ≡ replicated settings 0 ended)
    × (proposals sent ≡ repeat 3 0)
positions_without_gap_example =
    positions_without_gap settings happenings after ended sent (tt, (tt, (tt, tt))) runs
      (omega arith)

-- With the first of two batches delayed, the second is not sent.
abbrev two_batches : Sequencer
two_batches = record {
  batches = (batch 100 [] ∷ batch 100 (first ∷ []) ∷ []) ∷ (batch 200 [] ∷ batch 200 [] ∷ []) ∷ [];
  batch_id_counter = 2;
  current_batch_size = 0;
  total_batch_size = 2;
}

send_batches-Round_example :
    Round settings
      (two_batches.batch_id_counter - length two_batches.batches)
      (sent_batches (true ∷ false ∷ []) two_batches.batches)
      (send_batches settings (true ∷ false ∷ []) two_batches)
send_batches-Round_example =
    send_batches-Round settings (true ∷ false ∷ []) two_batches (refl, (refl, tt)) (omega arith)
      (omega arith)

stops_at_delay : length (sent_batches (true ∷ false ∷ []) two_batches.batches) ≡ 1
stops_at_delay = refl
