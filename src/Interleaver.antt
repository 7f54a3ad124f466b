-- ===== src/Interleaver.antt =====
-- module/interleaver.h and .cpp, the class Interleaver: the log of the region and the logs of all
-- regions, advanced after each message. A failed CHECK, a throw and a null pointer are `none`; the map
-- of the single-home logs is walked in the order of the list.
pub mod Drained
mod Tests
use mathlib.Core.List.{reverse}
use slog.Base.{
  ℕ, zero, suc, ◌+◌, ◌-◌, ◌%◌, ◌^◌, Bool, true, false, Option, none, some, List, [], ◌∷◌, ◌++◌,
  nat_eq, nat_Eq, length, if◌then◌else◌, ◌>>=◌, ◌>>◌, guard, Map, get_or, insert, flag, set_flag,
  cleared, ℤ, pos, ◌-ℤ◌,
}
use slog.Txn.{Transaction, to_int, int_eq}
use slog.Config.{make_machine_id, unpack_machine_id}
use slog.BatchLog
use slog.BatchLog.{Batch, BatchLog}
use slog.LocalLog
use slog.LocalLog.{LocalLog}
use slog.ProtoUtils.Batch.{unbatch}
use slog.Messages.{ForwardBatchData, LocalBatchOrder, RemoteBatchOrder, ForwardBatchOrder}

pub record Interleaver : Type 0 where
  pub single_home_logs : Map ℕ (BatchLog Transaction)
  pub local_log : LocalLog

-- What an interleaver reads of the configuration.
pub record Settings : Type 0 where
  pub local_replica : ℕ
  pub local_partition : ℕ
  pub num_replicas : ℕ
  pub num_partitions : ℕ
  pub replication_factor : ℕ
  pub replication_order : List ℕ

pub data Request : Type 0 where
  batch_replication_ack : (batch_id : ℕ) → Request
  forward_batch_data : ForwardBatchData → Request
  forward_batch_order : ForwardBatchOrder → Request

pub data Sent : Type 0 where
  ack : (batch_id : ℕ) → (to : List ℤ) → Sent
  forward_data : ForwardBatchData → (to : ℤ) → Sent
  forward_order : ForwardBatchOrder → (to : List ℤ) → Sent
  to_scheduler : Transaction → Sent

-- The constructor: the other partitions of the region, and the regions whose acknowledgement is
-- needed.
unfoldable pub partitions_from : Settings → ℕ → ℕ → List ℤ
partitions_from c p zero = []
partitions_from c p (suc left) =
    let rest = partitions_from c (suc p) left in
    if nat_eq p c.local_partition
    then rest
    else make_machine_id c.num_partitions c.local_replica p ∷ rest

abbrev pub other_partitions : Settings → List ℤ
other_partitions c = partitions_from c 0 c.num_partitions

unfoldable pub set_first : ℕ → List ℕ → List Bool → List Bool
set_first zero order flags = flags
set_first (suc n) [] flags = flags
set_first (suc n) (r ∷ rs) flags = set_first n rs (set_flag r flags)

-- The configuration makes the factor at least 1.
abbrev pub need_ack_from_replica : Settings → List Bool
need_ack_from_replica c =
    set_first (c.replication_factor - 1) c.replication_order (cleared c.num_replicas)

abbrev pub log_of : ℕ → Interleaver → BatchLog Transaction
log_of home i = get_or home BatchLog.empty i.single_home_logs

abbrev pub set_log : ℕ → BatchLog Transaction → Interleaver → Interleaver
set_log home log i = record i { single_home_logs = insert home log i.single_home_logs }

abbrev pub replica_of : Settings → ℤ → ℕ
replica_of c from = (unpack_machine_id c.num_partitions from).0

-- `ProcessBatchReplicationAck`
unfoldable pub process_ack : Settings → ℤ → ℕ → Interleaver → Interleaver × List Sent
process_ack c from batch_id i = (
  set_log c.local_replica (BatchLog.ack_replication batch_id (log_of c.local_replica i)) i,
  if nat_eq (replica_of c from) c.local_replica
      then []
      else Sent.ack batch_id (other_partitions c) ∷ [],
)

-- The loop that hands the parts of a batch to the partitions, the last part first; part `p` is for
-- partition `p`.
unfoldable pub spread :
    Settings → ForwardBatchData → List (Batch Transaction) → List Sent × Option (Batch Transaction)
spread c f [] = ([], none)
spread c f (b ∷ bs) =
    let (sent, mine) = spread c f bs in
    if nat_eq (length bs) c.local_partition then (sent, some b) else (
      Sent.forward_data (record f { batch_data = b ∷ [] })
            (make_machine_id c.num_partitions c.local_replica (length bs))
          ∷ sent,
      mine,
    )

abbrev pub last_of : List (Batch Transaction) → Option (Batch Transaction)
last_of [] = none
last_of (b ∷ bs) = elim bs [ [] ↦ some b | _ ∷ _ ↦ last_of bs ]

-- The part of the batch for this partition, and what is sent to the others.
unfoldable pub my_batch : Settings → ℤ → ForwardBatchData → Option (Batch Transaction × List Sent)
unfolding spread
my_batch c from f =
    if nat_eq (replica_of c from) c.local_replica
    then (do b ← last_of f.batch_data; some (b, []))
    else (do
      guard (nat_eq (length f.batch_data) c.num_partitions)
      let (sent, mine) = spread c f (reverse f.batch_data)
      b ← mine
      some (b, sent))

-- The id of a batch of the region goes to the local log.
abbrev pub add_to_local : Settings → ℤ → ForwardBatchData → ℕ → LocalLog → Option LocalLog
add_to_local c from f batch_id log =
    if nat_eq f.home c.local_replica
    then LocalLog.add_batch_id (unpack_machine_id c.num_partitions from).1 f.home_position batch_id
        log
    else some log

-- `ProcessForwardBatchData`
unfoldable pub process_data :
    Settings → ℤ → ForwardBatchData → Interleaver → Option (Interleaver × List Sent)
unfolding my_batch
process_data c from f i = do
  (batch, sent) ← my_batch c from f
  local_log ← add_to_local c from f batch.id i.local_log
  let i' = record i { local_log = local_log }
  some (set_log f.home (BatchLog.add_batch batch (log_of f.home i')) i', sent)

-- `ProcessForwardBatchOrder`
unfoldable pub process_order :
    Settings → ℤ → ForwardBatchOrder → Interleaver → Option (Interleaver × List Sent)
process_order c from (ForwardBatchOrder.local_batch_order o) i = do
  local_log ← LocalLog.add_slot o.slot o.queue_id o.leader i.local_log
  some (record i { local_log = local_log }, [])
process_order c from (ForwardBatchOrder.remote_batch_order o) i = do
  log ← BatchLog.add_slot o.slot o.batch_id (pos 0) (log_of o.home i)
  some (
    set_log o.home log i,
    if nat_eq (replica_of c from) c.local_replica
        then []
        else Sent.forward_order (ForwardBatchOrder.remote_batch_order o) (other_partitions c)
          ∷ (if o.need_ack then Sent.ack o.batch_id (from ∷ []) ∷ [] else []),
  )

-- The loop over the regions: those that need not acknowledge an order, or those that do.
unfoldable pub regions_from : Settings → Bool → ℕ → ℕ → List ℤ
regions_from c need_ack rep zero = []
regions_from c need_ack rep (suc left) =
    let rest = regions_from c need_ack (suc rep) left in
    let part =
      (rep + c.num_replicas + (2 ^ 32 - c.local_replica))
      % 2 ^ 32
      % c.num_replicas
      % c.num_partitions in
    if nat_eq rep c.local_replica
    then rest
    else if flag rep (need_ack_from_replica c)
    then (if need_ack then make_machine_id c.num_partitions rep part ∷ rest else rest)
    else (if need_ack then rest else make_machine_id c.num_partitions rep part ∷ rest)

-- The order of a batch, for the regions that need not acknowledge it or for those that do.
abbrev pub order_of : Settings → ℕ → ℕ → Bool → Sent
order_of c slot batch_id need_ack =
    Sent.forward_order
      (ForwardBatchOrder.remote_batch_order
        (record { batch_id = batch_id; slot = slot; home = c.local_replica; need_ack = need_ack }))
      (regions_from c need_ack 0 c.num_replicas)

-- The leader of a slot sends the order to the other regions.
abbrev pub announce : Settings → ℕ → ℕ → ℕ → List Sent
announce c slot batch_id leader =
    if int_eq (make_machine_id c.num_partitions c.local_replica c.local_partition) (to_int leader)
    then order_of c slot batch_id false ∷ order_of c slot batch_id true ∷ []
    else []

-- The loop over the local log in `AdvanceLogs`; each round takes one ready batch.
unfoldable pub advance_local : Settings → ℕ → Interleaver → Option (Interleaver × List Sent)
unfolding regions_from
advance_local c zero i = some (i, [])
advance_local c (suc fuel) i = elim (LocalLog.next_batch i.local_log) [
  | none ↦ some (i, [])
  | some ((slot, (batch_id, leader)), local_log) ↦ (do
    let i₁ = record i { local_log = local_log }
    log ←
        BatchLog.add_slot slot batch_id (pos c.replication_factor -ℤ pos 1)
          (log_of c.local_replica i₁)
    (i₂, sent) ← advance_local c fuel (set_log c.local_replica log i₁)
    some (i₂, announce c slot batch_id leader ++ sent))
]

-- The loop over one single-home log, with the batches that it hands out.
unfoldable pub drain :
    ℕ → BatchLog Transaction → Option (BatchLog Transaction × List (Batch Transaction))
drain zero log = some (log, [])
drain (suc fuel) log =
    if BatchLog.has_next_batch log
    then (do
      ((slot, batch), log₁) ← BatchLog.next_batch log
      (log₂, batches) ← drain fuel log₁
      some (log₂, batch ∷ batches))
    else some (log, [])

-- `EmitBatch`
abbrev pub to_schedulers : List Transaction → List Sent
to_schedulers [] = []
to_schedulers (txn ∷ txns) = Sent.to_scheduler txn ∷ to_schedulers txns

unfoldable pub emit_batch : Batch Transaction → List Sent
emit_batch batch = to_schedulers (unbatch batch)

abbrev pub emit_all : List (Batch Transaction) → List Sent
emit_all [] = []
emit_all (b ∷ bs) = emit_batch b ++ emit_all bs

-- The loop over the single-home logs.
unfoldable pub drain_logs :
    Map ℕ (BatchLog Transaction) → Option (Map ℕ (BatchLog Transaction) × List Sent)
unfolding drain emit_batch
drain_logs [] = some ([], [])
drain_logs ((home, log) ∷ logs) = do
  (log', batches) ← drain (length log.ready_batches) log
  (logs', sent) ← drain_logs logs
  some ((home, log') ∷ logs', emit_all batches ++ sent)

-- `AdvanceLogs`
unfoldable pub advance_logs : Settings → Interleaver → Option (Interleaver × List Sent)
unfolding advance_local drain_logs
advance_logs c i = do
  (i₁, sent) ← advance_local c (length i.local_log.ready_batches) i
  (logs, sent') ← drain_logs i₁.single_home_logs
  some (record i₁ { single_home_logs = logs }, sent ++ sent')

-- The switch on the type of a request.
abbrev pub process : Settings → ℤ → Request → Interleaver → Option (Interleaver × List Sent)
process c from (Request.batch_replication_ack batch_id) i = some (process_ack c from batch_id i)
process c from (Request.forward_batch_data f) i = process_data c from f i
process c from (Request.forward_batch_order o) i = process_order c from o i

-- `OnInternalRequestReceived`
unfoldable pub on_request : Settings → ℤ → Request → Interleaver → Option (Interleaver × List Sent)
unfolding process_ack process_data process_order advance_logs
on_request c from request i = do
  (i₁, sent) ← process c from request i
  (i₂, sent') ← advance_logs c i₁
  some (i₂, sent ++ sent')
