-- ===== src/Locks/Ddr/Counts.antt =====
-- The counts and the graph of a DDRLockManager while transactions ask for locks: the invariant, and
-- each step of `AcquireLocks` against it.
use slog.Base.{
  ℕ, ◌+◌, ◌≡◌, ◌≢◌, refl, ap, subst, true, none, some, List, [], ◌∷◌, arith, Map, has, lookup,
  insert, lookup-insert, Unique, insert-Unique, nat_Eq, nat_eq, sort_unique, if◌then◌else◌, count,
  count-append, Option-cases, Bool-cases, inl, inr, pos, ◌+ℤ◌,
}
use slog.Txn.{Transaction}
use slog.Locks.Ddr.{
  TxnInfo, DdrLockManager, wait_for, wait_for_all, emplace, modify, arrive, add_wait, add_waiter,
  acquire_locks, request_locks, num_required_locks,
}
use slog.Locks.Ddr.Graph.{edges, edges-empty, edges-insert, edges-insert_new}

pub record Inv (m : Map ℕ TxnInfo) : Type 0 where
  pub unique : Unique m
  pub counted :
      (b : ℕ) (info : TxnInfo) → lookup b m ≡ some info → info.waiting_for_cnt ≡ pos (edges b m)
  pub closed : (b : ℕ) → lookup b m ≡ none → edges b m ≡ 0

pub init-Inv : Inv []
unfolding lookup
init-Inv = record {
  unique = tt;
  counted = λ b info h. absurd (ground arith);
  closed = λ b h. edges-empty b;
}

abbrev new_info : Transaction → TxnInfo
new_info txn = record {
  waited_by = [];
  unarrived_lock_requests = pos (num_required_locks txn);
  waiting_for_cnt = pos 0;
}

emplace-Inv : (txn : Transaction) (m : Map ℕ TxnInfo) → Inv m → Inv (emplace txn m)
unfolding emplace
emplace-Inv txn m v = elim (Option-cases (lookup txn.internal.id m)) [
  | inr (info, e) ↦ subst Inv {x = m} (ground arith) v
  | inl e ↦ subst Inv {x = insert k fresh m} (ground arith) (record {
    unique = insert-Unique k fresh m v.unique;
    counted = λ b info h. ground (
      arith,
      edges-insert_new b k fresh m e,
      lookup-insert k b fresh m,
      v.counted b info,
      v.closed b,
    );
    closed = λ b h.
        ground (arith, edges-insert_new b k fresh m e, lookup-insert k b fresh m, v.closed b);
  })
]
  where
    k : ℕ
    k = txn.internal.id

    fresh : TxnInfo
    fresh = new_info txn

pos_suc : (n : ℕ) → pos n +ℤ pos 1 ≡ pos (n + 1)
unfolding ◌+ℤ◌
pos_suc n = ground arith

-- Writing a transaction with the same edges and count.
same_edges-Inv :
    (k : ℕ) (old new : TxnInfo) (m : Map ℕ TxnInfo)
    → lookup k m ≡ some old
    → new.waited_by ≡ old.waited_by
    → new.waiting_for_cnt ≡ old.waiting_for_cnt
    → Inv m
    → Inv (insert k new m)
same_edges-Inv k old new m e ew ec v = record {
  unique = insert-Unique k new m v.unique;
  counted = λ b info h. ground (
    arith,
    edges-insert b k new old m e,
    lookup-insert k b new m,
    v.counted b info,
    v.counted k old e,
    ap (count b) ew,
  );
  closed = λ b h.
      ground
        (arith, edges-insert b k new old m e, lookup-insert k b new m, v.closed b, ap (count b) ew);
}

arrive-Inv : (k n : ℕ) (m : Map ℕ TxnInfo) → Inv m → Inv (modify k (arrive n) m)
arrive-Inv k n m v = elim (Option-cases (lookup k m)) [
  | inl e ↦ subst Inv {x = m} (ground arith) v
  | inr (info, e) ↦
      subst Inv {x = insert k (arrive n info) m} (ground arith)
        (same_edges-Inv k info (arrive n info) m e refl refl v)
]

-- One more edge, from `j` to `k`, with one more to the count of `k`.
abbrev with_edge : ℕ → ℕ → TxnInfo → TxnInfo → Map ℕ TxnInfo → Map ℕ TxnInfo
with_edge k j old blocker m = insert j (add_waiter k blocker) (insert k (add_wait (pos 1) old) m)

module _ (k j : ℕ) (old blocker : TxnInfo) (m : Map ℕ TxnInfo) (ne : j ≢ k)
    (ek : lookup k m ≡ some old) (ej : lookup j m ≡ some blocker) where
  lookup-with_edge :
      (b : ℕ)
      → lookup b (with_edge k j old blocker m) ≡ (
          if nat_eq j b
          then some (add_waiter k blocker)
          else if nat_eq k b
          then some (add_wait (pos 1) old)
          else lookup b m)
  lookup-with_edge b =
      simp (lookup-insert j b (add_waiter k blocker), lookup-insert k b (add_wait (pos 1) old) m)

  edges-with_edge : (b : ℕ) → edges b (with_edge k j old blocker m) ≡ edges b m + count b (k ∷ [])
  edges-with_edge b =
      let m₁ = insert k (add_wait (pos 1) old) m in
      let still : lookup j m₁ ≡ some blocker =
        ground (arith, lookup-insert k j (add_wait (pos 1) old) m) in
      ground (
        arith,
        edges-insert b j (add_waiter k blocker) blocker m₁ still,
        edges-insert b k (add_wait (pos 1) old) old m ek,
        count-append b blocker.waited_by (k ∷ []),
      )

  with_edge-Inv : Inv m → Inv (with_edge k j old blocker m)
  with_edge-Inv v = record {
    unique =
        insert-Unique j (add_waiter k blocker) (insert k (add_wait (pos 1) old) m)
          (insert-Unique k (add_wait (pos 1) old) m v.unique);
    counted = λ b info h. ground (
      arith,
      lookup-with_edge b,
      edges-with_edge b,
      v.counted b info,
      v.counted j blocker ej,
      v.counted k old ek,
      pos_suc (edges k m),
    );
    closed = λ b h. ground (arith, lookup-with_edge b, edges-with_edge b, v.closed b);
  }

wait_for-Inv :
    (k j : ℕ) (m : Map ℕ TxnInfo)
    → has k m ≡ true
    → Inv m
    → Inv (wait_for k j m) × (has k (wait_for k j m) ≡ true)
unfolding wait_for
wait_for-Inv k j m h v = elim (Bool-cases (nat_eq j k)) [
  | inl same ↦ kept (ground arith)
  | inr other ↦ elim (Option-cases (lookup j m)) [
    | inl gone ↦ kept (ground arith)
    | inr (blocker, ej) ↦ elim (Option-cases (lookup k m)) [
      | inl absent ↦ absurd (ground arith)
      | inr (old, ek) ↦
          (let ne : j ≢ k = ground arith in
            let still = lookup-insert k j (add_wait (pos 1) old) m in
            let e : with_edge k j old blocker m ≡ wait_for k j m = ground (arith, still) in
            subst (λ n. Inv n × (has k n ≡ true)) e
              (
                with_edge-Inv k j old blocker m ne ek ej v,
                ground (arith, lookup-with_edge k j old blocker m ne ek ej k),
              ))
    ]
  ]
]
  where
    kept : m ≡ wait_for k j m → Inv (wait_for k j m) × (has k (wait_for k j m) ≡ true)
    kept e = subst (λ n. Inv n × (has k n ≡ true)) e (v, h)

wait_for_all-Inv :
    (k : ℕ) (bs : List ℕ) (m : Map ℕ TxnInfo) → has k m ≡ true → Inv m → Inv (wait_for_all k bs m)
unfolding wait_for_all
wait_for_all-Inv k [] m h v = v
wait_for_all-Inv k (b ∷ bs) m h v =
    let (v', h') = wait_for-Inv k b m h v in wait_for_all-Inv k bs (wait_for k b m) h' v'

has-emplace : (txn : Transaction) (m : Map ℕ TxnInfo) → has txn.internal.id (emplace txn m) ≡ true
unfolding emplace
has-emplace txn m = ground (arith, lookup-insert txn.internal.id txn.internal.id (new_info txn) m)

has-modify :
    (k : ℕ) (f : TxnInfo → TxnInfo) (m : Map ℕ TxnInfo)
    → has k m ≡ true
    → has k (modify k f m) ≡ true
has-modify k f m h = elim (Option-cases (lookup k m)) [
  | inl e ↦ absurd (ground arith)
  | inr (v, e) ↦ ground (arith, lookup-insert k k (f v) m)
]

-- `AcquireLocks` keeps every `waiting_for_cnt` at the number of entries for the transaction in the
-- `waited_by` lists, and every such entry at a transaction that is there.
pub acquire_locks-Inv :
    (txn : Transaction) (lm : DdrLockManager)
    → Inv lm.txn_info
    → Inv (acquire_locks txn lm).0.txn_info
unfolding acquire_locks
acquire_locks-Inv txn lm v =
    let r =
      request_locks txn txn.keys
        (record { lock_table = lm.lock_table; num_relevant_locks = 0; blocking_txns = [] }) in
    wait_for_all-Inv txn.internal.id (sort_unique r.blocking_txns)
      (modify txn.internal.id (arrive r.num_relevant_locks) (emplace txn lm.txn_info))
      (has-modify txn.internal.id (arrive r.num_relevant_locks) (emplace txn lm.txn_info)
        (has-emplace txn lm.txn_info))
      (arrive-Inv txn.internal.id r.num_relevant_locks _ (emplace-Inv txn lm.txn_info v))
