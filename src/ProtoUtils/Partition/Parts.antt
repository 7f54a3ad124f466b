-- ===== src/ProtoUtils/Partition/Parts.antt =====
-- What the part of a transaction for a partition has, and which partitions are involved.
use mathlib.Core.List.{append_assoc, append-nil}
use slog.Base.{
  ℕ, suc, ◌+◌, ◌^◌, ◌<◌, All, set_flag, ◌≡◌, sym, ap, ◌∙◌, Bool, true, not, ◌&&◌, ◌||◌, none, some,
  List, [], ◌∷◌, ◌++◌, nat_eq, nat_Eq, leb, is_empty, length, if◌then◌else◌, cleared, resize,
  flagged, flag, flag-cleared, flag-set_flag, length-resize, flag-resize, flagged-eq-sort_unique,
  sort_unique, elem, arith, Bool-cases, inl, inr,
}
use slog.Txn.{KeyValueEntry, TransactionType, Transaction, is_remaster, is_at_home}
use slog.ProtoUtils.{master, set_involved_replicas}
use slog.ProtoUtils.Home.{masters_of}
use slog.ProtoUtils.Partition.{Sifted, involve, sift, sift_one, generate_partitioned_txn}

flag-involve :
    (m j : ℕ) (flags : List Bool)
    → m + 1 < 2 ^ 32
    → flag j (involve m flags) ≡ (nat_eq m j || flag j flags)
flag-involve m j flags fits = elim (Bool-cases (leb (length flags) m)) [
  | inl short ↦ rw short (
      ap (λ n. flag j (set_flag m (resize n flags))) {y = suc m} (omega arith)
      ∙ flag-set_flag m j (resize (suc m) flags) (omega (arith, length-resize (suc m) flags))
      ∙ ap (λ b. nat_eq m j || b) (flag-resize (suc m) j flags (ground arith)))
  | inr long ↦ rw long (flag-set_flag m j flags (ground arith))
]

-- The number after each master is a uint32 as well.
abbrev pub HasSmallMasters : List KeyValueEntry → Type 0
HasSmallMasters = All (λ kv. master kv + 1 < 2 ^ 32)

-- No key is of the transaction's home.
abbrev pub none_at_home : Transaction → List KeyValueEntry → Bool
none_at_home txn [] = true
none_at_home txn (kv ∷ kvs) = not (is_at_home txn kv) && none_at_home txn kvs

module _ (compute_partition : List ℕ → ℕ) where
  -- The keys of a partition, in their order.
  abbrev pub keys_of : ℕ → List KeyValueEntry → List KeyValueEntry
  keys_of partition [] = []
  keys_of partition (kv ∷ kvs) =
      if nat_eq (compute_partition kv.key) partition
      then kv ∷ keys_of partition kvs
      else keys_of partition kvs

  sift-keys :
      (p : ℕ) (txn : Transaction) (kvs : List KeyValueEntry) (s : Sifted)
      → (sift compute_partition p txn kvs s).keys ≡ s.keys ++ keys_of p kvs
  unfolding sift
  sift-keys p txn [] s = sym (append-nil s.keys)
  sift-keys p txn (kv ∷ kvs) s = ground (
    arith,
    sift-keys p txn kvs (sift_one compute_partition p txn kv s),
    append_assoc s.keys (kv ∷ []) (keys_of p kvs),
  )

  sift-redundant :
      (p : ℕ) (txn : Transaction) (kvs : List KeyValueEntry) (s : Sifted)
      → (sift compute_partition p txn kvs s).is_redundant
        ≡ s.is_redundant && none_at_home txn (keys_of p kvs)
  unfolding sift
  sift-redundant p txn [] s = ground arith
  sift-redundant p txn (kv ∷ kvs) s =
      ground (arith, sift-redundant p txn kvs (sift_one compute_partition p txn kv s))

  sift-flags :
      (p : ℕ) (txn : Transaction) (kvs : List KeyValueEntry) (s : Sifted) (r : ℕ)
      → HasSmallMasters kvs
      → flag r (sift compute_partition p txn kvs s).involved_replicas
        ≡ (flag r s.involved_replicas || elem r (masters_of (keys_of p kvs)))
  unfolding sift
  sift-flags p txn [] s r small = ground arith
  sift-flags p txn (kv ∷ kvs) s r small = ground (
    arith,
    sift-flags p txn kvs (sift_one compute_partition p txn kv s) r small.1,
    flag-involve (master kv) r s.involved_replicas small.0,
  )

  -- If the masters of a transaction's keys are below 2^32 - 1, its part for a partition is there
  -- exactly when the partition has a key of it, and one of the home region unless the transaction is
  -- a remaster; it is the transaction with the keys of the partition alone, and if it is multi-home
  -- or lock-only, its regions are the masters of these keys, each once and in order.
  pub generate_partitioned_txn_lem :
      (txn : Transaction) (partition : ℕ)
      → HasSmallMasters txn.keys
      → let kept = keys_of partition txn.keys in
        let part = record txn { keys = kept } in
        generate_partitioned_txn compute_partition txn partition ≡ (
          if is_empty kept || (not (is_remaster txn) && none_at_home txn kept)
          then none
          else some (elim txn.internal.type [
            | TransactionType.multi_home_or_lock_only ↦
                set_involved_replicas (sort_unique (masters_of kept)) part
            | TransactionType.single_home ↦ part
            | TransactionType.unknown ↦ part
          ]))
  unfolding generate_partitioned_txn
  generate_partitioned_txn_lem txn p small =
      let start : Sifted = record {
        keys = [];
        involved_replicas = cleared 8;
        is_redundant = not (is_remaster txn);
      } in
      let s = sift compute_partition p txn txn.keys start in
      let regions : flagged 0 s.involved_replicas ≡ sort_unique (masters_of (keys_of p txn.keys)) =
        flagged-eq-sort_unique (masters_of (keys_of p txn.keys)) s.involved_replicas
          (λ r. ground (arith, sift-flags p txn txn.keys start r small, flag-cleared r 8)) in
      ground (arith, sift-keys p txn txn.keys start, sift-redundant p txn txn.keys start, regions)
