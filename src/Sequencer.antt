-- ===== src/Sequencer.antt =====
-- module/sequencer.h and .cpp: transactions are put into batches, one part for each partition, and the
-- batches of a round are proposed and sent together. A timer that is started is a result; its end is
-- `end_round`. A position is an int, made of a uint64 and sent as a uint32; an index out of range is
-- `none`. The last `++` of an int at its bound, undefined in the code, goes beyond the bound here.
pub mod Sends
pub mod Whole
pub mod Rounds
pub mod Positions
mod Tests
use slog.Base.{
  ℕ, zero, suc, ◌+◌, ◌-◌, ◌*◌, ◌%◌, ◌^◌, Bool, true, false, ◌&&◌, Option, none, some, List, [], ◌∷◌,
  ◌++◌, nat_eq, ltb, leb, length, get_elem?, if◌then◌else◌, ◌>>=◌, ℤ, pos, ◌+ℤ◌,
}
use slog.Txn.{Transaction, TransactionType, to_int, to_uint32}
use slog.BatchLog.{Batch}
use slog.Config.{make_machine_id}
use slog.ProtoUtils.{generate_lock_only_txn}
use slog.ProtoUtils.Partition.{generate_partitioned_txn}
use slog.Messages.{ForwardBatchData}

abbrev pub PartitionedBatch : Type 0
PartitionedBatch = List (Batch Transaction)

pub record Sequencer : Type 0 where
  pub batches : List PartitionedBatch
  pub batch_id_counter : ℕ
  pub current_batch_size : ℕ
  pub total_batch_size : ℕ

-- What a sequencer reads of the configuration, the build flag of ProtoUtils, and the sharder.
pub record Settings : Type 0 where
  pub local_machine_id : ℕ
  pub local_replica : ℕ
  pub local_partition : ℕ
  pub num_replicas : ℕ
  pub num_partitions : ℕ
  pub batch_size : ℕ
  pub rrr : Bool
  pub counterless : Bool
  pub compute_partition : List ℕ → ℕ

-- The messages: a proposal to the local Paxos, a part of a batch for a partition of the region, and a
-- batch for other regions, at once or after the configured delay.
pub data Sent : Type 0 where
  propose : (value : ℕ) → Sent
  forward_local : ForwardBatchData → (to : ℤ) → Sent
  replicate : ForwardBatchData → (to : List ℤ) → Sent
  replicate_later : ForwardBatchData → (to : List ℤ) → Sent

-- `batch_id`, a uint64
abbrev pub batch_id : Settings → Sequencer → ℕ
batch_id c s = (s.batch_id_counter * 100 + c.local_machine_id) % 2 ^ 64

abbrev pub new_parts : ℕ → ℕ → PartitionedBatch
new_parts id zero = []
new_parts id (suc n) =
    record {
      id = id;
      transactions = [];
      transaction_type = TransactionType.single_home;
      events = [];
    }
    ∷ new_parts id n

-- `NewBatch`
unfoldable pub new_batch : Settings → Sequencer → Sequencer
new_batch c s =
    let next = record s { current_batch_size = 0; batch_id_counter = s.batch_id_counter + 1 } in
    record next { batches = s.batches ++ new_parts (batch_id c next) c.num_partitions ∷ [] }

-- `StartOver`
unfoldable pub start_over : Settings → Sequencer → Sequencer
unfolding new_batch
start_over c s = new_batch c (record s { total_batch_size = 0; batches = [] })

-- The constructor
abbrev pub init : Settings → Sequencer
init c =
    start_over c
      (record { batches = []; batch_id_counter = 0; current_batch_size = 0; total_batch_size = 0 })

-- `current_batch[p]->mutable_transactions()->AddAllocated(txn)`
abbrev pub add_to_part : ℕ → Transaction → PartitionedBatch → Option PartitionedBatch
add_to_part p txn [] = none
add_to_part zero txn (b ∷ bs) = some (record b { transactions = b.transactions ++ txn ∷ [] } ∷ bs)
add_to_part (suc p) txn (b ∷ bs) = do bs' ← add_to_part p txn bs; some (b ∷ bs')

-- One partition of the loop; without a part the batch stays as it is.
abbrev pub add_part : ℕ → Option Transaction → PartitionedBatch → Option PartitionedBatch
add_part p none batch = some batch
add_part p (some part) batch = add_to_part p part batch

-- The loop over the involved partitions; the last part may be made in place.
unfoldable pub add_parts :
    Settings → Transaction → List ℕ → PartitionedBatch → Option PartitionedBatch
add_parts c txn [] batch = some batch
add_parts c txn (p ∷ ps) batch =
    add_part p (generate_partitioned_txn c.compute_partition txn p) batch >>= add_parts c txn ps

-- `batches_.back()`, changed
unfoldable pub on_back :
    (PartitionedBatch → Option PartitionedBatch)
    → List PartitionedBatch
    → Option (List PartitionedBatch)
on_back f [] = none
on_back f (b ∷ []) = do b' ← f b; some (b' ∷ [])
on_back f (b ∷ b₁ ∷ bs) = do bs' ← on_back f (b₁ ∷ bs); some (b ∷ bs')

abbrev pub lock_only : Settings → Transaction → Transaction
lock_only c txn = elim txn.internal.type [
  | TransactionType.multi_home_or_lock_only ↦
      generate_lock_only_txn c.counterless c.local_replica txn
  | _ ↦ txn
]

-- `BatchTxn`; the result says whether the timer of the round is started.
unfoldable pub batch_txn : Settings → Transaction → Sequencer → Option (Sequencer × Bool)
unfolding new_batch on_back add_parts
batch_txn c received s = do
  let txn = lock_only c received
  batches ← on_back (add_parts c txn txn.internal.involved_partitions) s.batches
  let added = record s {
    batches = batches;
    current_batch_size = s.current_batch_size + 1;
    total_batch_size = s.total_batch_size + 1;
  }
  some (
    if ltb 0 c.batch_size && leb c.batch_size added.current_batch_size
        then new_batch c added
        else added,
    nat_eq added.total_batch_size 1,
  )

-- `NewBatchForwardingMessage`
abbrev pub new_batch_forwarding_message : Settings → List (Batch Transaction) → ℤ → ForwardBatchData
new_batch_forwarding_message c batch home_position = record {
  batch_data = batch;
  home = c.local_replica;
  home_position = to_uint32 home_position;
}

-- The loop over the partitions, from `p` on.
unfoldable pub distribute : Settings → PartitionedBatch → ℤ → ℕ → ℕ → Option (List Sent)
distribute c batch home_position p zero = some []
distribute c batch home_position p (suc left) = do
  part ← get_elem? batch p
  rest ← distribute c batch home_position (suc p) left
  some (
      Sent.forward_local (new_batch_forwarding_message c (part ∷ []) home_position)
        (make_machine_id c.num_partitions c.local_replica p)
      ∷ rest)

-- The partition of another region that a batch goes to; `rep` and the rest are uint32.
abbrev pub entry_partition : Settings → ℤ → ℕ → ℕ
entry_partition c home_position rep =
    if c.rrr
    then to_uint32 home_position % c.num_partitions
    else (rep + c.num_replicas + (2 ^ 32 - c.local_replica))
      % 2 ^ 32
      % c.num_replicas
      % c.num_partitions

-- The loop over the regions, from `rep` on.
unfoldable pub other_regions : Settings → ℤ → ℕ → ℕ → List ℤ
other_regions c home_position rep zero = []
other_regions c home_position rep (suc left) =
    let rest = other_regions c home_position (suc rep) left in
    if nat_eq rep c.local_replica
    then rest
    else make_machine_id c.num_partitions rep (entry_partition c home_position rep) ∷ rest

-- The first `n` parts, which go to the other regions together.
abbrev pub parts : ℕ → PartitionedBatch → List (Batch Transaction)
parts zero batch = []
parts (suc n) [] = []
parts (suc n) (b ∷ bs) = b ∷ parts n bs

-- The draw for the next batch, none if there are no more, and those that follow.
abbrev pub chosen : List Bool → Bool
chosen [] = false
chosen (delayed ∷ delays) = delayed

abbrev pub later : List Bool → List Bool
later [] = []
later (delayed ∷ delays) = delays

-- The data of a batch for the other regions.
abbrev pub replication : Settings → Bool → PartitionedBatch → ℤ → Sent
replication c delayed batch home_position =
    let message = new_batch_forwarding_message c (parts c.num_partitions batch) home_position in
    let destinations = other_regions c home_position 0 c.num_replicas in
    if delayed
    then Sent.replicate_later message destinations
    else Sent.replicate message destinations

-- The loop over the batches. `delays` says of each whether it is chosen to be delayed, which the code
-- draws at random if it is configured to; the loop ends after such a batch.
unfoldable pub send_from : Settings → List Bool → List PartitionedBatch → ℤ → Option (List Sent)
unfolding distribute other_regions
send_from c delays [] home_position = some []
send_from c delays (batch ∷ batches) home_position = do
  local ← distribute c batch home_position 0 c.num_partitions
  rest ←
      (if chosen delays
        then some []
        else send_from c (later delays) batches (home_position +ℤ pos 1))
  some (
      (Sent.propose c.local_partition ∷ local)
      ++ replication c (chosen delays) batch home_position ∷ rest)

-- `int home_position = batch_id_counter_ - batches_.size()`
abbrev pub first_position : Sequencer → ℤ
first_position s = to_int ((s.batch_id_counter + (2 ^ 64 - length s.batches)) % 2 ^ 64 % 2 ^ 32)

-- `SendBatches`
unfoldable pub send_batches : Settings → List Bool → Sequencer → Option (List Sent)
unfolding send_from
send_batches c delays s = send_from c delays s.batches (first_position s)

-- The timer of a round runs out.
unfoldable pub end_round : Settings → List Bool → Sequencer → Option (Sequencer × List Sent)
unfolding send_batches
end_round c delays s = do sent ← send_batches c delays s; some (start_over c s, sent)
