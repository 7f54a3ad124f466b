-- ===== src/ProtoUtils/Partition.antt =====
-- common/proto_utils.cpp, GeneratePartitionedTxn and PopulateInvolvedPartitions: the part of a
-- transaction for one partition. The sharder is a parameter, a function from keys to partitions.
pub mod Parts
pub mod Involved
use slog.Base.{
  ℕ, suc, ◌+◌, ◌%◌, ◌^◌, Bool, true, false, not, ◌&&◌, ◌||◌, Option, none, some, List, [], ◌∷◌,
  ◌++◌, nat_eq, ltb, leb, is_empty, length, if◌then◌else◌, ◌>>=◌, cleared, resize, set_flag,
  flagged,
}
use slog.Txn.{KeyValueEntry, TransactionType, Transaction, is_remaster, is_at_home}
use slog.Locks.Request.{KeyType}
use slog.ProtoUtils.{master, set_involved_replicas}

-- Where the loop over the keys stands: the keys that stay, the flags of their masters, and whether
-- no key of the home region has stayed.
pub record Sifted : Type 0 where
  pub keys : List KeyValueEntry
  pub involved_replicas : List Bool
  pub is_redundant : Bool

-- The flag of a master is set, and is there to be set: `master + 1` is a uint32. If it wraps, the code
-- writes out of range, which is undefined; the flags stay as they are here.
abbrev pub involve : ℕ → List Bool → List Bool
involve m flags =
    set_flag m (if leb (length flags) m then resize ((m + 1) % 2 ^ 32) flags else flags)

-- The flags of the partitions that have a key, and of those that have one to write.
pub record Flags : Type 0 where
  pub involved : List Bool
  pub active : List Bool

abbrev pub is_write : KeyType → Bool
is_write KeyType.write = true
is_write KeyType.read = false

module _ (compute_partition : List ℕ → ℕ) where
  -- One key of the loop.
  abbrev pub sift_one : ℕ → Transaction → KeyValueEntry → Sifted → Sifted
  sift_one partition txn kv s =
      if nat_eq (compute_partition kv.key) partition
      then (record {
        keys = s.keys ++ kv ∷ [];
        involved_replicas = involve (master kv) s.involved_replicas;
        is_redundant = s.is_redundant && not (is_at_home txn kv);
      })
      else s

  unfoldable pub sift : ℕ → Transaction → List KeyValueEntry → Sifted → Sifted
  sift partition txn [] s = s
  sift partition txn (kv ∷ kvs) s = sift partition txn kvs (sift_one partition txn kv s)

  -- `GeneratePartitionedTxn`; a null pointer is `none`.
  unfoldable pub generate_partitioned_txn : Transaction → ℕ → Option Transaction
  unfolding sift
  generate_partitioned_txn txn partition =
      let s = sift partition txn txn.keys (record {
        keys = [];
        involved_replicas = cleared 8;
        is_redundant = not (is_remaster txn);
      }) in
      let new_txn = record txn { keys = s.keys } in
      if is_empty s.keys || s.is_redundant
      then none
      else some (elim txn.internal.type [
        | TransactionType.multi_home_or_lock_only ↦
            set_involved_replicas (flagged 0 s.involved_replicas) new_txn
        | TransactionType.single_home ↦ new_txn
        | TransactionType.unknown ↦ new_txn
      ])

  -- One key of the loop.
  abbrev pub flag_key : KeyValueEntry → Flags → Flags
  flag_key kv f = record {
    involved = set_flag (compute_partition kv.key) f.involved;
    active =
        if is_write kv.value_entry.type
        then set_flag (compute_partition kv.key) f.active
        else f.active;
  }

  -- An index out of range is undefined in the code.
  unfoldable pub flag_partitions : List KeyValueEntry → Flags → Option Flags
  flag_partitions [] f = some f
  flag_partitions (kv ∷ kvs) f =
      let rest = flag_partitions kvs (flag_key kv f) in
      if ltb (compute_partition kv.key) (length f.involved) then rest else none

  -- `PopulateInvolvedPartitions`
  unfoldable pub populate_involved_partitions : ℕ → Transaction → Option Transaction
  unfolding flag_partitions
  populate_involved_partitions num_partitions txn = do
    f ←
        flag_partitions txn.keys
          (record { involved = cleared num_partitions; active = cleared num_partitions })
    some (record txn {
      internal = record txn.internal {
        involved_partitions = txn.internal.involved_partitions ++ flagged 0 f.involved;
        active_partitions = txn.internal.active_partitions ++ flagged 0 f.active;
      };
    })
