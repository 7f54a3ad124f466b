-- ===== src/Messages.antt =====
-- proto/internal.proto: the data and the order of batches, as the machines send them around.
use slog.Base.{ℕ, Bool, List}
use slog.Txn.{Transaction}
use slog.BatchLog.{Batch}

pub record ForwardBatchData : Type 0 where
  pub batch_data : List (Batch Transaction)
  pub home : ℕ
  pub home_position : ℕ

pub record LocalBatchOrder : Type 0 where
  pub queue_id : ℕ
  pub slot : ℕ
  pub leader : ℕ

pub record RemoteBatchOrder : Type 0 where
  pub batch_id : ℕ
  pub slot : ℕ
  pub home : ℕ
  pub need_ack : Bool

pub data ForwardBatchOrder : Type 0 where
  local_batch_order : LocalBatchOrder → ForwardBatchOrder
  remote_batch_order : RemoteBatchOrder → ForwardBatchOrder
