-- ===== src/ProtoUtils.antt =====
-- common/proto_utils.cpp: the type and the regions of a transaction, its parts for regions and
-- partitions, and the merge of their results. The build flag REMASTER_PROTOCOL_COUNTERLESS is the
-- argument `counterless`. A failed CHECK, an exception and an access out of range are `none`.
pub mod Home
pub mod Partition
pub mod Merge
pub mod Batch
pub mod Equality
mod Tests
use slog.Base.{
  ℕ, suc, ◌+◌, Bool, true, false, not, ◌&&◌, Option, none, some, List, [], ◌∷◌, ◌++◌, nat_eq,
  is_empty, sort_unique, if◌then◌else◌, ◌>>=◌, ◌>>◌, guard, ℤ, pos, negsuc, map,
}
use slog.Txn.{
  MasterMetadata, ValueEntry, KeyValueEntry, TransactionType, TransactionStatus,
  TransactionInternal, Program, Transaction, metadata, is_remaster, to_int,
}
use slog.Locks.Request.{KeyType}

-- common/proto_utils.h, KeyMetadata
pub record KeyMetadata : Type 0 where
  pub key : List ℕ
  pub type : KeyType
  pub optional_metadata : Option MasterMetadata

abbrev pub has_metadata : KeyValueEntry → Bool
has_metadata kv = elim kv.value_entry.optional_metadata [ none ↦ false | some m ↦ true ]

abbrev pub master : KeyValueEntry → ℕ
master kv = (metadata kv.value_entry).master

abbrev pub all_metadata : List KeyValueEntry → Bool
all_metadata [] = true
all_metadata (kv ∷ kvs) = has_metadata kv && all_metadata kvs

abbrev pub all_mastered_at : ℕ → List KeyValueEntry → Bool
all_mastered_at home [] = true
all_mastered_at home (kv ∷ kvs) = nat_eq (master kv) home && all_mastered_at home kvs

abbrev pub set_type : TransactionType → ℤ → Transaction → Transaction
set_type type home txn = record txn { internal = record txn.internal { type = type; home = home } }

-- The type of a transaction whose metadata is complete; `keys` are its keys from the first on.
unfoldable pub set_complete_type : Bool → List KeyValueEntry → Transaction → Transaction
set_complete_type counterless [] txn = txn
set_complete_type counterless (first ∷ kvs) txn =
    if all_mastered_at (master first) (first ∷ kvs) && not (counterless && is_remaster txn)
    then set_type TransactionType.single_home (to_int (master first)) txn
    else set_type TransactionType.multi_home_or_lock_only (negsuc 0) txn

-- `SetTransactionType`; its result is the type that it sets.
unfoldable pub set_transaction_type : Bool → Transaction → Transaction
unfolding set_complete_type
set_transaction_type counterless txn =
    if not (is_empty txn.keys) && all_metadata txn.keys
    then set_complete_type counterless txn.keys txn
    else record txn { internal = record txn.internal { type = TransactionType.unknown } }

abbrev pub set_involved_replicas : List ℕ → Transaction → Transaction
set_involved_replicas replicas txn = record txn {
  internal = record txn.internal { involved_replicas = replicas };
}

-- The loop that collects the masters, with the `CHECK` for each key.
unfoldable pub masters : List KeyValueEntry → Option (List ℕ)
masters [] = some []
masters (kv ∷ kvs) = do guard (has_metadata kv); rest ← masters kvs; some (master kv ∷ rest)

abbrev pub new_masters : Program → List ℕ
new_masters (Program.remaster new_master lock_only) = new_master ∷ []
new_masters _ = []

-- `PopulateInvolvedReplicas`
unfoldable pub populate_involved_replicas : Bool → Transaction → Option Transaction
unfolding masters
populate_involved_replicas counterless txn = elim txn.internal.type [
  | TransactionType.unknown ↦ some txn
  | TransactionType.single_home ↦ elim txn.keys [
    | [] ↦ none
    | first ∷ kvs ↦ (do
      guard (has_metadata first)
      some (set_involved_replicas (master first ∷ []) txn))
  ]
  | TransactionType.multi_home_or_lock_only ↦ (do
    of_keys ← masters txn.keys
    let involved_replicas = of_keys ++ (if counterless then new_masters txn.program else [])
    some (
        set_involved_replicas (txn.internal.involved_replicas ++ sort_unique involved_replicas)
          txn))
]

abbrev pub new_entry : KeyMetadata → KeyValueEntry
new_entry k = record {
  key = k.key;
  value_entry = record {
    value = [];
    new_value = [];
    type = k.type;
    optional_metadata = k.optional_metadata;
  };
}

abbrev pub entries : List KeyMetadata → List KeyValueEntry
entries [] = []
entries (k ∷ ks) = new_entry k ∷ entries ks

-- The transaction before its type and its regions are set. `set_new_master` takes an int as a uint32,
-- which the caller of the model does.
abbrev pub draft : List KeyMetadata → List (List (List ℕ)) → Option ℕ → ℕ → Transaction
draft key_metadatas code remaster coordinating_server = record {
  internal = record {
    id = 1000;
    type = TransactionType.unknown;
    home = pos 0;
    coordinating_server = coordinating_server;
    sequencer_delay_ms = pos 0;
    involved_partitions = [];
    active_partitions = [];
    involved_replicas = [];
    events = [];
    global_log_positions = [];
  };
  program = elim remaster [
    | none ↦ elim code [ [] ↦ Program.not_set | proc ∷ procs ↦ Program.code (proc ∷ procs) ]
    | some new_master ↦ Program.remaster new_master false
  ];
  keys = entries key_metadatas;
  deleted_keys = [];
  status = TransactionStatus.not_started;
  abort_reason = [];
}

-- `MakeTransaction`
unfoldable pub make_transaction :
    Bool → List KeyMetadata → List (List (List ℕ)) → Option ℕ → ℕ → Option Transaction
unfolding set_transaction_type populate_involved_replicas
make_transaction counterless key_metadatas code remaster coordinating_server =
    populate_involved_replicas counterless
      (set_transaction_type counterless (draft key_metadatas code remaster coordinating_server))

abbrev pub lock_only_program : ℕ → Program → Program
lock_only_program lo_master (Program.remaster new_master lock_only) =
    Program.remaster new_master (if nat_eq new_master lo_master then true else lock_only)
lock_only_program lo_master p = p

-- `GenerateLockOnlyTxn`; in place or not, the result is the same.
unfoldable pub generate_lock_only_txn : Bool → ℕ → Transaction → Transaction
generate_lock_only_txn counterless lo_master txn = record txn {
  internal = record txn.internal { home = to_int lo_master };
  program = if counterless then lock_only_program lo_master txn.program else txn.program;
}
