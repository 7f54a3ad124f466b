-- ===== src/ProtoUtils/Tests.antt =====
-- Transactions over two keys, in two regions and two partitions.
use slog.Base.{
  ℕ, ◌≡◌, ◌≢◌, ◌⊎◌, ◌↔◌, refl, true, false, not, ◌&&◌, ◌||◌, none, some, List, [], ◌∷◌, ◌++◌,
  is_empty, elem, nat_Eq, bytes_Eq, sort_unique, if◌then◌else◌, list_eq, arith, pos, negsuc,
  Increasing,
}
use slog.Txn.{Transaction, TransactionType, is_remaster}
use slog.Locks.Request.{KeyType, read, write}
use slog.Locks.Fixtures.{single_home_txn}
use slog.ProtoUtils.{KeyMetadata, make_transaction, set_involved_replicas, entries}
use slog.ProtoUtils.Home.{Typed, make_transaction-Typed, masters_of}
use slog.ProtoUtils.Partition.{generate_partitioned_txn, populate_involved_partitions}
use slog.ProtoUtils.Partition.Parts.{keys_of, none_at_home, generate_partitioned_txn_lem}
use slog.ProtoUtils.Partition.Involved.{writes, partitions_of, populate_involved_partitions_lem}
use slog.ProtoUtils.Merge.{is_aborted, merge_transaction}
use slog.ProtoUtils.Merge.Laws.{find, or_else, merge_transaction-none, merge_transaction_lem}
use slog.ProtoUtils.Equality.{
  transaction_eq, keys_eq, key_value_entry_eq, value_entry_eq, metadata_eq,
}

abbrev mastered : ℕ → KeyType → ℕ → KeyMetadata
mastered name type master = record {
  key = name ∷ [];
  type = type;
  optional_metadata = some (record { master = master; counter = 0 });
}

abbrev keys : List KeyMetadata
keys = mastered b'A' write 1 ∷ mastered b'B' read 0 ∷ mastered b'C' read 1 ∷ []

make_transaction-Typed_example :
    (txn : Transaction) × (make_transaction true keys [] none 3 ≡ some txn)
    × Typed true txn txn.internal.type
    × (txn.keys ≡ entries keys)
make_transaction-Typed_example = make_transaction-Typed true keys [] none 3

-- B is in partition 0, the others in partition 1.
abbrev by_name : List ℕ → ℕ
by_name key = if list_eq key (b'B' ∷ []) then 0 else 1

-- The lock-only transaction of region 1.
abbrev multi_home : Transaction
multi_home =
    (let txn = single_home_txn 7 (entries keys) in
      record txn {
        internal = record txn.internal {
          type = TransactionType.multi_home_or_lock_only;
          home = pos 1;
          involved_partitions = [];
          involved_replicas = 0 ∷ 1 ∷ [];
        };
      })

generate_partitioned_txn_lem_example :
    let kept = keys_of by_name 1 multi_home.keys in
    let part = record multi_home { keys = kept } in
    generate_partitioned_txn by_name multi_home 1 ≡ (
      if is_empty kept || (not (is_remaster multi_home) && none_at_home multi_home kept)
      then none
      else some (elim TransactionType.multi_home_or_lock_only [
        | TransactionType.multi_home_or_lock_only ↦
            set_involved_replicas (sort_unique (masters_of kept)) part
        | TransactionType.single_home ↦ part
        | TransactionType.unknown ↦ part
      ]))
generate_partitioned_txn_lem_example =
    generate_partitioned_txn_lem by_name multi_home 1
      (omega arith, (omega arith, (omega arith, tt)))

populate_involved_partitions_lem_example :
    populate_involved_partitions by_name 2 multi_home
    ≡ some (record multi_home {
      internal = record multi_home.internal {
        involved_partitions = [] ++ sort_unique (partitions_of by_name multi_home.keys);
        active_partitions = [] ++ sort_unique (partitions_of by_name (writes multi_home.keys));
      };
    })
populate_involved_partitions_lem_example =
    populate_involved_partitions_lem by_name 2 multi_home
      (omega arith, (omega arith, (omega arith, tt)))

abbrev left : Transaction
left = record multi_home { keys = entries (mastered b'B' read 0 ∷ []) }

abbrev right : Transaction
right = record multi_home {
  internal = record multi_home.internal { involved_replicas = 1 ∷ 2 ∷ [] };
  keys = entries (mastered b'A' write 1 ∷ mastered b'B' read 5 ∷ []);
}

abbrev merged : Transaction
merged = record multi_home {
  internal = record multi_home.internal {
    involved_replicas = 0 ∷ 1 ∷ 2 ∷ [];
    global_log_positions = negsuc 0 ∷ [];
  };
  keys = entries (mastered b'B' read 0 ∷ mastered b'A' write 1 ∷ []);
}

merges : merge_transaction left right ≡ some merged
unfolding merge_transaction sort_unique
merges = refl

merge_transaction_lem_example :
    (is_aborted merged ≡ is_aborted left || is_aborted right)
    × (is_aborted merged ≡ false
        → (k : List ℕ) → find k merged.keys ≡ or_else (find k left.keys) (find k right.keys))
    × Increasing merged.internal.involved_replicas
    × ((r : ℕ)
        → elem r merged.internal.involved_replicas
          ≡ elem r left.internal.involved_replicas || elem r right.internal.involved_replicas)
merge_transaction_lem_example = merge_transaction_lem left right merged merges

abbrev other_id : Transaction
other_id = record left { internal = record left.internal { id = 8 } }

merge_transaction-none_example :
    (merge_transaction left other_id ≡ none)
    ↔ ((left.internal.id ≢ 8) ⊎ (left.internal.type ≢ left.internal.type))
merge_transaction-none_example = merge_transaction-none left other_id

-- The values and masters are compared, the homes are not.
compares :
    transaction_eq left (record left { internal = record left.internal { home = pos 5 } }) ≡ true
unfolding transaction_eq keys_eq key_value_entry_eq value_entry_eq metadata_eq
compares = refl

compares_masters :
    transaction_eq left (record left { keys = entries (mastered b'B' read 4 ∷ []) }) ≡ false
unfolding transaction_eq keys_eq key_value_entry_eq value_entry_eq metadata_eq
compares_masters = refl
