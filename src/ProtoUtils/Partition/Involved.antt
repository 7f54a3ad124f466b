-- ===== src/ProtoUtils/Partition/Involved.antt =====
-- Which partitions a transaction involves, and which it writes.
use slog.Base.{
  ℕ, ◌≡◌, ◌<◌, refl, not, ◌||◌, some, List, [], ◌∷◌, ◌++◌, nat_Eq, is_empty, length, if◌then◌else◌,
  cleared, flag, flag-cleared, length-cleared, length-set_flag, flag-set_flag,
  flagged-eq-sort_unique, sort_unique, elem, All, arith,
}
use slog.Txn.{KeyValueEntry, Transaction}
use slog.ProtoUtils.Partition.{
  Flags, flag_partitions, flag_key, populate_involved_partitions, is_write,
}
use slog.ProtoUtils.Partition.Parts.{keys_of}

abbrev pub writes : List KeyValueEntry → List KeyValueEntry
writes [] = []
writes (kv ∷ kvs) = if is_write kv.value_entry.type then kv ∷ writes kvs else writes kvs

module _ (compute_partition : List ℕ → ℕ) where
  abbrev pub partitions_of : List KeyValueEntry → List ℕ
  partitions_of [] = []
  partitions_of (kv ∷ kvs) = compute_partition kv.key ∷ partitions_of kvs

  abbrev pub InRange : ℕ → List KeyValueEntry → Type 0
  InRange n = All (λ kv. compute_partition kv.key < n)

  record Flagged (n : ℕ) (kvs : List KeyValueEntry) (f f' : Flags) : Type 0 where
    involved : (p : ℕ) → flag p f'.involved ≡ (flag p f.involved || elem p (partitions_of kvs))
    active : (p : ℕ) → flag p f'.active ≡ (flag p f.active || elem p (partitions_of (writes kvs)))

  flag_partitions-Flagged :
      (n : ℕ) (kvs : List KeyValueEntry) (f : Flags)
      → length f.involved ≡ n
      → length f.active ≡ n
      → InRange n kvs
      → (f' : Flags) × (flag_partitions compute_partition kvs f ≡ some f') × Flagged n kvs f f'
  unfolding flag_partitions
  flag_partitions-Flagged n [] f hi ha r =
      (f, refl, record { involved = λ p. ground arith; active = λ p. ground arith })
  flag_partitions-Flagged n (kv ∷ kvs) f hi ha r =
      let p = compute_partition kv.key in
      let f₁ = flag_key compute_partition kv f in
      let (f', done, v) =
        flag_partitions-Flagged n kvs f₁ (ground (arith, length-set_flag p f.involved))
          (ground (arith, length-set_flag p f.active)) r.1 in
      (
        f',
        ground (arith, r.0),
        record {
          involved = λ q. ground (arith, v.involved q, flag-set_flag p q f.involved, r.0);
          active = λ q. ground (arith, v.active q, flag-set_flag p q f.active, r.0);
        },
      )

  -- If the sharder gives every key one of the `n` partitions, the involved partitions that are added
  -- are those of the keys and the active ones those of the keys to write, each once and in order.
  pub populate_involved_partitions_lem :
      (n : ℕ) (txn : Transaction)
      → InRange n txn.keys
      → populate_involved_partitions compute_partition n txn
        ≡ some (record txn {
          internal = record txn.internal {
            involved_partitions =
                txn.internal.involved_partitions ++ sort_unique (partitions_of txn.keys);
            active_partitions =
                txn.internal.active_partitions ++ sort_unique (partitions_of (writes txn.keys));
          };
        })
  unfolding populate_involved_partitions
  populate_involved_partitions_lem n txn r =
      let start : Flags = record { involved = cleared n; active = cleared n } in
      let (f, done, v) =
        flag_partitions-Flagged n txn.keys start (length-cleared n) (length-cleared n) r in
      let involved =
        flagged-eq-sort_unique (partitions_of txn.keys) f.involved
          (λ p. ground (arith, v.involved p, flag-cleared p n)) in
      let active =
        flagged-eq-sort_unique (partitions_of (writes txn.keys)) f.active
          (λ p. ground (arith, v.active p, flag-cleared p n)) in
      ground (arith, done, involved, active)

  -- A partition is involved exactly when it has a key.
  pub partitions_of-keys_of :
      (p : ℕ) (kvs : List KeyValueEntry)
      → elem p (partitions_of kvs) ≡ not (is_empty (keys_of compute_partition p kvs))
  partitions_of-keys_of p [] = refl
  partitions_of-keys_of p (kv ∷ kvs) = ground (arith, partitions_of-keys_of p kvs)
