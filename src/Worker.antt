-- ===== src/Worker.antt =====
-- module/scheduler_components/worker.h and .cpp: a worker reads, waits for the reads of other
-- partitions, executes, and reports. The transactions that it works on belong to the holders of the
-- scheduler, a store that both share; here they are `holders`. What is sent is returned.
pub mod Reading
pub mod Steps
pub mod Phases
pub mod Reads
pub mod Stepping
pub mod Waiting
mod Tests
use slog.Base.{
  ℕ, zero, suc, Bool, Option, none, some, List, [], ◌∷◌, ◌>>=◌, Map, lookup, insert, nat_Eq, ℤ,
}
use slog.Txn.{Transaction, KeyValueEntry}
use slog.TxnHolder.{TxnHolder, slot}
use slog.Storage.{Table}

pub data Phase : Type 0 where
  read_local_storage wait_remote_read execute finish : Phase

pub record TransactionState : Type 0 where
  pub txn_holder : ℕ
  pub remote_reads_waiting_on : ℕ
  pub phase : Phase

pub record Worker : Type 0 where
  pub txn_states : Map ℕ TransactionState
  pub holders : Map ℕ TxnHolder
  pub storage : Table

-- What a worker reads of the configuration, and its own channel. The build flag for a remaster
-- protocol that is not counterless is `checks_counters`.
pub record Settings : Type 0 where
  pub local_replica : ℕ
  pub local_partition : ℕ
  pub num_partitions : ℕ
  pub return_dummy_txn : Bool
  pub channel : ℕ
  pub checks_counters : Bool

-- internal::RemoteReadResult
pub record RemoteReadResult : Type 0 where
  pub txn_id : ℕ
  pub partition : ℕ
  pub will_abort : Bool
  pub abort_reason : List ℕ
  pub reads : List KeyValueEntry

-- The messages, with their destinations: the start and the stop of a redirection at the broker, a
-- read result, a finished transaction for the server, and the id that goes back to the scheduler.
pub data Sent : Type 0 where
  redirect : (tag : ℕ) → (channel : ℕ) → Sent
  stop_redirect : (tag : ℕ) → Sent
  read_result : RemoteReadResult → List ℤ → Sent
  finished_subtxn : Transaction → (partition : ℕ) → (coordinator : ℕ) → Sent
  done : ℕ → Sent

-- `TxnHolder::txn`; a null pointer fails its `CHECK`.
abbrev pub main_txn : TxnHolder → Option Transaction
main_txn h = do there ← slot h.main_txn_idx h.lo_txns; there

abbrev pub put_main : ℕ → Transaction → List (Option Transaction) → List (Option Transaction)
put_main i txn [] = []
put_main zero txn (t ∷ ts) = some txn ∷ ts
put_main (suc i) txn (t ∷ ts) = t ∷ put_main i txn ts

-- The transaction behind the pointer in a state, and a change to it.
abbrev pub txn_of : TransactionState → Worker → Option Transaction
txn_of state w = do h ← lookup state.txn_holder w.holders; main_txn h

abbrev pub set_txn : TransactionState → Transaction → Worker → Option Worker
set_txn state txn w = do
  h ← lookup state.txn_holder w.holders
  some (record w {
    holders =
        insert state.txn_holder (record h { lo_txns = put_main h.main_txn_idx txn h.lo_txns })
          w.holders;
  })
