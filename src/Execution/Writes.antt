-- ===== src/Execution/Writes.antt =====
-- What the writes of a transaction do to the storage.
use slog.Base.{
  ℕ, ◌≡◌, refl, ap, ◌∙◌, Bool, not, ◌&&◌, ◌||◌, Option, none, some, List, [], ◌∷◌, elem, lookup,
  lookup-insert, lookup-erase_key, bytes_Eq, if◌then◌else◌, arith, ◌==◌, Bool-cases, inl, inr,
}
use slog.Txn.{KeyValueEntry, Transaction, metadata}
use slog.ProtoUtils.Partition.{is_write}
use slog.Storage.{Table, Record, write, delete}
use slog.Execution.{write_keys, delete_keys, apply_writes}

-- The record for a key in the entry of a key.
abbrev pub written : KeyValueEntry → Record
written kv = record { metadata = metadata kv.value_entry; value = kv.value_entry.new_value }

module _ (is_local_key : List ℕ → Bool) where
  -- What the last write of a key, among those of local keys, leaves.
  abbrev pub last_write : List ℕ → List KeyValueEntry → Option Record → Option Record
  last_write key [] before = before
  last_write key (kv ∷ kvs) before = last_write key kvs (
      if kv.key == key && (is_local_key key && is_write kv.value_entry.type)
      then some (written kv)
      else before)

  one_write :
      (k : List ℕ) (kv : KeyValueEntry) (table : Table)
      → lookup k (
          if not (is_local_key kv.key) || not (is_write kv.value_entry.type)
          then table
          else write kv.key (written kv) table)
        ≡ (if kv.key == k && (is_local_key k && is_write kv.value_entry.type)
            then some (written kv)
            else lookup k table)
  one_write k kv table = elim (Bool-cases (kv.key == k)) [
    | inl same ↦
        ground (arith, lookup-insert kv.key k (written kv) table, bytes_Eq.same_iff kv.key k)
    | inr other ↦ ground (arith, lookup-insert kv.key k (written kv) table)
  ]

  lookup-write_keys :
      (k : List ℕ) (kvs : List KeyValueEntry) (table : Table)
      → lookup k (write_keys is_local_key kvs table) ≡ last_write k kvs (lookup k table)
  unfolding write_keys
  lookup-write_keys k [] table = refl
  lookup-write_keys k (kv ∷ kvs) table =
      lookup-write_keys k kvs _ ∙ ap (last_write k kvs) (one_write k kv table)

  lookup-delete_keys :
      (k : List ℕ) (ks : List (List ℕ)) (table : Table)
      → lookup k (delete_keys is_local_key ks table) ≡ (if elem k ks then none else lookup k table)
  unfolding delete_keys
  lookup-delete_keys k [] table = refl
  lookup-delete_keys k (j ∷ ks) table =
      ground (arith, lookup-delete_keys k ks (delete j table), lookup-erase_key j k table)

  -- After the writes of a transaction, a deleted key is not there, and any other key has what the
  -- last write entry of a local key says, or what it had if there is none.
  pub lookup-apply_writes :
      (txn : Transaction) (storage : Table) (k : List ℕ)
      → lookup k (apply_writes is_local_key txn storage)
        ≡ (if elem k txn.deleted_keys then none else last_write k txn.keys (lookup k storage))
  unfolding apply_writes
  lookup-apply_writes txn storage k =
      lookup-delete_keys k txn.deleted_keys (write_keys is_local_key txn.keys storage)
      ∙ ap (λ x. if elem k txn.deleted_keys then none else x) (lookup-write_keys k txn.keys storage)
