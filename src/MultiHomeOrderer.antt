-- ===== src/MultiHomeOrderer.antt =====
-- module/multi_home_orderer.h and .cpp: multi-home transactions are put into a batch for each region,
-- and the batches of all regions are read back in their global order. A timer that is started is a
-- result; its end is `end_round`. An index out of range is `none`.
pub mod Regions
mod Tests
use slog.Base.{
  ℕ, zero, suc, ◌+◌, ◌*◌, ◌%◌, ◌^◌, Bool, Option, none, some, List, [], ◌∷◌, ◌++◌, nat_eq, is_empty,
  length, if◌then◌else◌, ◌>>=◌, ◌>>◌, guard, not, ℤ, pos,
}
use slog.Txn.{Transaction, TransactionType}
use slog.Config.{make_machine_id}
use slog.BatchLog
use slog.BatchLog.{Batch, BatchLog}
use slog.ProtoUtils.Batch.{unbatch}
use slog.Messages.{ForwardBatchData, RemoteBatchOrder}
use slog.Sequencer.{add_to_part}
use slog.Interleaver.{drain, last_of}

pub record MultiHomeOrderer : Type 0 where
  pub batch_per_rep : List (Batch Transaction)
  pub batch_id_counter : ℕ
  pub batch_size : ℕ
  pub multi_home_batch_log : BatchLog Transaction

-- What an orderer reads of the configuration; both numbers of the global leader are 0 there.
pub record Settings : Type 0 where
  pub local_machine_id : ℕ
  pub num_replicas : ℕ
  pub num_partitions : ℕ

-- A proposal to the global Paxos, a batch for a region, and a transaction for the sequencer.
pub data Sent : Type 0 where
  propose : (value : ℕ) → (to : ℤ) → Sent
  forward_data : ForwardBatchData → (to : ℤ) → Sent
  to_sequencer : Transaction → Sent

-- `batch_id`, a uint64
abbrev pub batch_id : Settings → ℕ → ℕ
batch_id c counter = (counter * 100 + c.local_machine_id) % 2 ^ 64

abbrev pub new_batches : ℕ → ℕ → List (Batch Transaction)
new_batches id zero = []
new_batches id (suc n) =
    record {
      id = id;
      transactions = [];
      transaction_type = TransactionType.multi_home_or_lock_only;
      events = [];
    }
    ∷ new_batches id n

-- `NewBatch`; a batch that is there is cleared, and one that was sent is made anew.
unfoldable pub new_batch : Settings → MultiHomeOrderer → MultiHomeOrderer
new_batch c o = record o {
  batch_per_rep = new_batches (batch_id c (o.batch_id_counter + 1)) c.num_replicas;
  batch_id_counter = o.batch_id_counter + 1;
  batch_size = 0;
}

-- The constructor
abbrev pub init : Settings → MultiHomeOrderer
init c = new_batch c (record {
  batch_per_rep = [];
  batch_id_counter = 0;
  batch_size = 0;
  multi_home_batch_log = BatchLog.empty;
})

-- The loop over the regions, with the last one after it.
unfoldable pub add_to_regions :
    Transaction → List ℕ → List (Batch Transaction) → Option (List (Batch Transaction))
add_to_regions txn [] batches = some batches
add_to_regions txn (r ∷ rs) batches = add_to_part r txn batches >>= add_to_regions txn rs

-- `AddToBatch`; the result says whether the timer of the batch is started. Without a region the code
-- reads before the first.
unfoldable pub add_to_batch : Transaction → MultiHomeOrderer → Option (MultiHomeOrderer × Bool)
unfolding add_to_regions
add_to_batch txn o = do
  guard (not (is_empty txn.internal.involved_replicas))
  batches ← add_to_regions txn txn.internal.involved_replicas o.batch_per_rep
  some (
    record o { batch_per_rep = batches; batch_size = o.batch_size + 1 },
    nat_eq (o.batch_size + 1) 1,
  )

-- The loop over the regions in `SendBatch`, from `rep` on.
unfoldable pub send_to_regions : Settings → ℕ → List (Batch Transaction) → List Sent
send_to_regions c rep [] = []
send_to_regions c rep (b ∷ bs) =
    Sent.forward_data (record { batch_data = b ∷ []; home = 0; home_position = 0 })
      (make_machine_id c.num_partitions rep 0)
    ∷ send_to_regions c (suc rep) bs

-- `SendBatch`
unfoldable pub send_batch : Settings → MultiHomeOrderer → List Sent
unfolding send_to_regions
send_batch c o =
    Sent.propose (batch_id c o.batch_id_counter) (make_machine_id c.num_partitions 0 0)
    ∷ send_to_regions c 0 o.batch_per_rep

-- The timer of a batch runs out.
unfoldable pub end_round : Settings → MultiHomeOrderer → MultiHomeOrderer × List Sent
unfolding new_batch send_batch
end_round c o = (new_batch c o, send_batch c o)

abbrev pub to_sequencers : List Transaction → List Sent
to_sequencers [] = []
to_sequencers (txn ∷ txns) = Sent.to_sequencer txn ∷ to_sequencers txns

abbrev pub unbatch_all : List (Batch Transaction) → List Sent
unbatch_all [] = []
unbatch_all (b ∷ bs) = to_sequencers (unbatch b) ++ unbatch_all bs

-- `AdvanceLog`; the loop is that of the interleaver on one log, as many rounds as batches are ready.
unfoldable pub advance_log : MultiHomeOrderer → Option (MultiHomeOrderer × List Sent)
advance_log o = do
  (log, batches) ← drain (length o.multi_home_batch_log.ready_batches) o.multi_home_batch_log
  some (record o { multi_home_batch_log = log }, unbatch_all batches)

-- `ProcessForwardBatchData`
unfoldable pub process_forward_batch_data :
    ForwardBatchData → MultiHomeOrderer → Option (MultiHomeOrderer × List Sent)
unfolding advance_log
process_forward_batch_data f o = do
  batch ← last_of f.batch_data
  advance_log (record o { multi_home_batch_log = BatchLog.add_batch batch o.multi_home_batch_log })

-- `ProcessForwardBatchOrder`
unfoldable pub process_forward_batch_order :
    RemoteBatchOrder → MultiHomeOrderer → Option (MultiHomeOrderer × List Sent)
unfolding advance_log
process_forward_batch_order order o = do
  log ← BatchLog.add_slot order.slot order.batch_id (pos 0) o.multi_home_batch_log
  advance_log (record o { multi_home_batch_log = log })
