-- ===== src/Interleaver/Tests.antt =====
-- A batch of the region, with its order: it goes to the scheduler.
use slog.Base.{◌≡◌, refl, some, [], ◌∷◌, All, pos, lookup, insert, erase_key, ◌+ℤ◌, ◌-ℤ◌}
use slog.Txn.{Transaction, TransactionType}
use slog.Locks.Fixtures.{writer}
use slog.Config.{make_machine_id}
use slog.AsyncLog
use slog.BatchLog
use slog.BatchLog.{Batch}
use slog.LocalLog
use slog.ProtoUtils.Batch.{unbatch, unbatch_loop}
use slog.Messages.{ForwardBatchOrder}
use slog.Interleaver.{
  Interleaver, Settings, Request, Sent, on_request, process_order, advance_logs, advance_local,
  drain_logs, drain, emit_batch, regions_from,
}
use slog.Interleaver.Drained.{IsEmpty, on_request-IsEmpty}

abbrev settings : Settings
settings = record {
  local_replica = 0;
  local_partition = 0;
  num_replicas = 1;
  num_partitions = 1;
  replication_factor = 1;
  replication_order = [];
}

-- The data of the batch is there, and its place in the queue of the partition.
abbrev batch : Batch Transaction
batch = record {
  id = 100;
  transactions = writer ∷ [];
  transaction_type = TransactionType.single_home;
  events = [];
}

abbrev start : Interleaver
start = record {
  single_home_logs = (0, record BatchLog.empty { batches = (100, batch) ∷ [] }) ∷ [];
  local_log = record LocalLog.empty {
    batch_queues = (0, record { log = (0, 100) ∷ []; next_position = 0 }) ∷ [];
  };
}

abbrev order : Request
order =
    Request.forward_batch_order
      (ForwardBatchOrder.local_batch_order (record { queue_id = 0; slot = 0; leader = 1 }))

abbrev after : Interleaver
after = record {
  single_home_logs =
      (0, record BatchLog.empty { slots = record { log = []; next_position = 1 } }) ∷ [];
  local_log = record LocalLog.empty {
    slots = record { log = []; next_position = 1 };
    batch_queues = (0, record { log = []; next_position = 1 }) ∷ [];
  };
}

sends : on_request settings (pos 0) order start ≡ some (after, Sent.to_scheduler writer ∷ [])
unfolding on_request process_order advance_logs advance_local drain_logs drain emit_batch
    regions_from unbatch unbatch_loop make_machine_id lookup insert erase_key ◌+ℤ◌ ◌-ℤ◌
    LocalLog.add_slot LocalLog.update_ready_batches LocalLog.update_rounds LocalLog.update_round
    LocalLog.next_batch BatchLog.add_slot BatchLog.update_ready_batches BatchLog.update_rounds
    BatchLog.update_round BatchLog.next_batch AsyncLog.insert AsyncLog.next AsyncLog.peek
sends = refl

on_request-IsEmpty_example :
    (after.local_log.ready_batches ≡ []) × All IsEmpty after.single_home_logs
on_request-IsEmpty_example =
    on_request-IsEmpty settings (pos 0) order start after (Sent.to_scheduler writer ∷ []) sends
