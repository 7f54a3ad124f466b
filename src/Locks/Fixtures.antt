-- ===== src/Locks/Fixtures.antt =====
-- Transactions for the tests of the lock managers.
use slog.Base.{ℕ, some, List, [], ◌∷◌, pos}
use slog.Txn.{Transaction, TransactionType, TransactionStatus, Program, KeyValueEntry}
use slog.Locks.Request.{KeyType, read, write}

abbrev pub key_entry : ℕ → KeyType → KeyValueEntry
key_entry name type = record {
  key = name ∷ [];
  value_entry = record {
    value = [];
    new_value = [];
    type = type;
    optional_metadata = some (record { master = 0; counter = 0 });
  };
}

-- A single-home transaction of region 0.
abbrev pub single_home_txn : ℕ → List KeyValueEntry → Transaction
single_home_txn id keys = record {
  internal = record {
    id = id;
    type = TransactionType.single_home;
    home = pos 0;
    coordinating_server = 0;
    sequencer_delay_ms = pos 0;
    involved_partitions = 0 ∷ [];
    active_partitions = [];
    involved_replicas = 0 ∷ [];
    events = [];
    global_log_positions = [];
  };
  program = Program.code [];
  keys = keys;
  deleted_keys = [];
  status = TransactionStatus.not_started;
  abort_reason = [];
}

-- Both write the key A, the second also reads B.
abbrev pub writer : Transaction
writer = single_home_txn 100 (key_entry b'A' write ∷ [])

abbrev pub second_writer : Transaction
second_writer = single_home_txn 200 (key_entry b'A' write ∷ key_entry b'B' read ∷ [])
