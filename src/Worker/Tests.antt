-- ===== src/Worker/Tests.antt =====
-- A transaction on two partitions: it waits for one result, which then finishes it.
use slog.Base.{◌≡◌, refl, false, Option, none, some, List, [], ◌∷◌, lookup, insert, nat_Eq, arith}
use slog.Txn.{Transaction}
use slog.Locks.Request.{read, write}
use slog.Locks.Fixtures.{single_home_txn, key_entry}
use slog.TxnHolder.{TxnHolder}
use slog.Storage.{Table}
use slog.Worker.{Worker, Settings, RemoteReadResult, Sent, Phase}
use slog.Worker.Reading.{read_local, read_into, read_keys, notify_other_partitions}
use slog.Worker.Steps.{on_dispatched, advance, advance_wait}
use slog.Worker.Waiting.{AllWaiting, run, run-AllWaiting, Happening}

abbrev settings : Settings
settings = record {
  local_replica = 0;
  local_partition = 0;
  num_partitions = 2;
  return_dummy_txn = false;
  channel = 9;
  checks_counters = false;
}

abbrev txn : Transaction
txn =
    (let t = single_home_txn 5 (key_entry b'A' write ∷ []) in
      record t {
        internal = record t.internal {
          involved_partitions = 0 ∷ 1 ∷ [];
          active_partitions = 0 ∷ [];
        };
      })

abbrev holder : TxnHolder
holder = record {
  txn_id = 5;
  main_txn_idx = 0;
  lo_txns = some txn ∷ [];
  remaster_result = none;
  aborting = false;
  done = false;
  num_lo_txns = 1;
  expected_num_lo_txns = 1;
  num_dispatches = 1;
}

abbrev start : Worker
start = record { txn_states = []; holders = (5, holder) ∷ []; storage = [] }

abbrev no_code : Transaction → Table → Option (Transaction × Table)
no_code t storage = some (t, storage)

abbrev waiting : Worker
waiting = record start {
  txn_states =
      (5, record { txn_holder = 5; remote_reads_waiting_on = 1; phase = Phase.wait_remote_read })
      ∷ [];
}

dispatches : run no_code settings (Happening.dispatched 5 ∷ []) start ≡ some waiting
unfolding run on_dispatched advance advance_wait read_local read_into read_keys
    notify_other_partitions lookup insert
dispatches = refl

start-AllWaiting : AllWaiting []
unfolding lookup
start-AllWaiting j s e = absurd (ground arith)

run-AllWaiting_example : AllWaiting waiting.txn_states
run-AllWaiting_example =
    run-AllWaiting no_code settings (Happening.dispatched 5 ∷ []) start waiting start-AllWaiting
      dispatches

abbrev result : RemoteReadResult
result = record {
  txn_id = 5;
  partition = 1;
  will_abort = false;
  abort_reason = [];
  reads = key_entry b'B' read ∷ [];
}

abbrev finished : Worker
finished = record {
  txn_states = [];
  holders = (5, record holder { lo_txns = none ∷ [] }) ∷ [];
  storage = [];
}

abbrev reported : List Sent
reported =
    Sent.stop_redirect 5
    ∷ Sent.finished_subtxn (record txn { keys = key_entry b'A' write ∷ key_entry b'B' read ∷ [] }) 0
        0
    ∷ Sent.done 5
    ∷ []
