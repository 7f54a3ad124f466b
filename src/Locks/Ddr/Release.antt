-- ===== src/Locks/Ddr/Release.antt =====
-- What a DDRLockManager keeps when a transaction releases its locks.
use slog.Base.{
  ℕ, ◌+◌, ◌-◌, ◌≤◌, ◌<◌, ◌≡◌, ◌≢◌, refl, ap, sym, ◌∙◌, subst, true, false, none, some, List, [],
  ◌∷◌, ◌++◌, arith, Map, lookup, insert, erase_key, lookup-insert, lookup-erase_key, Unique,
  insert-Unique, erase_key-Unique, nat_Eq, nat_eq, if◌then◌else◌, count, Option-cases, Bool-cases,
  inl, inr, pos, ◌-ℤ◌,
}
use slog.Locks.Ddr.{TxnInfo, DdrLockManager, is_ready, unblock, unblock_all, release_locks}
use slog.Locks.Ddr.Graph.{edges, edges-insert, edges-erase_key, count-le-edges}
use slog.Locks.Ddr.Counts.{Inv}

pos_pred : (c : ℕ) → 0 < c → pos c -ℤ pos 1 ≡ pos (c - 1)
unfolding ◌-ℤ◌
pos_pred c h = ground arith

-- While the transaction `a` is being released: `ws` waits for it, and `rest` has not been told yet.
pub record Telling (a : ℕ) (from : TxnInfo) (rest : List ℕ) (m : Map ℕ TxnInfo) : Type 0 where
  pub unique : Unique m
  pub counted :
      (b : ℕ) (info : TxnInfo)
      → lookup b m ≡ some info
      → (c : ℕ) × (info.waiting_for_cnt ≡ pos c)
        × (c + count b from.waited_by ≡ edges b m + count b rest)
  pub closed : (b : ℕ) → lookup b m ≡ none → edges b m ≡ 0
  pub source : lookup a m ≡ some from
  pub unblocked : edges a m ≡ 0
  pub within : (b : ℕ) → count b rest ≤ count b from.waited_by

abbrev pub told : TxnInfo → TxnInfo
told info = record info { waiting_for_cnt = info.waiting_for_cnt -ℤ pos 1 }

module _ (a : ℕ) (from : TxnInfo) (x : ℕ) (rest : List ℕ) (m : Map ℕ TxnInfo)
    (v : Telling a from (x ∷ rest) m) where
  waits : (info : TxnInfo) → lookup x m ≡ some info → is_ready info ≡ false
  waits info e =
      let (c, ec, sum) = v.counted x info e in
      let le = count-le-edges x a from m v.source in ground (arith, v.within x)

  -- A transaction that waits is there, is another one, and is not ready.
  pub blocked_info : (info : TxnInfo) × (lookup x m ≡ some info) × (x ≢ a) × (is_ready info ≡ false)
  blocked_info =
      let le = count-le-edges x a from m v.source in
      let pos_edges : 0 < edges x m = ground (arith, le, v.within x) in
      elim (Option-cases (lookup x m)) [
        | inl e ↦ absurd (ground (arith, v.closed x e))
        | inr (info, e) ↦ (info, e, (λ same. ground (arith, v.unblocked)), waits info e)
      ]

  told-count :
      (info : TxnInfo)
      → lookup x m ≡ some info
      → (b : ℕ) (i : TxnInfo) → lookup b (insert x (told info) m) ≡ some i
      → (c : ℕ) × (i.waiting_for_cnt ≡ pos c)
        × (c + count b from.waited_by ≡ edges b (insert x (told info) m) + count b rest)
  told-count info e b i h =
      let still = edges-insert b x (told info) info m e in
      let found = lookup-insert x b (told info) m in
      elim (Bool-cases (nat_eq x b)) [
        | inr other ↦ (let (c, ec, sum) = v.counted b i (ground arith) in (c, ec, ground arith))
        | inl same ↦
            (let (c, ec, sum) = v.counted x info e in
              let some_edge = count-le-edges x a from m v.source in
              let c_pos : 0 < c = ground (arith, v.within x) in
              (c - 1, ground (arith, pos_pred c c_pos), ground arith))
      ]

  pub told-Telling :
      (info : TxnInfo)
      → lookup x m ≡ some info
      → x ≢ a
      → Telling a from rest (insert x (told info) m)
  told-Telling info e ne = record {
    unique = insert-Unique x (told info) m v.unique;
    counted = told-count info e;
    closed = λ b h.
        ground (
          arith,
          edges-insert b x (told info) info m e,
          lookup-insert x b (told info) m,
          v.closed b,
        );
    source = ground (arith, lookup-insert x a (told info) m, v.source);
    unblocked = ground (arith, edges-insert a x (told info) info m e, v.unblocked);
    within = λ b. ground (arith, v.within b);
  }

pub unblock-eq :
    (x : ℕ) (info : TxnInfo) (m : Map ℕ TxnInfo) (result : List ℕ)
    → lookup x m ≡ some info
    → unblock x (m, result)
      ≡ (insert x (told info) m, if is_ready (told info) then result ++ x ∷ [] else result)
unfolding unblock
unblock-eq x info m result e = ground arith

pub unblock_all-Telling :
    (a : ℕ) (from : TxnInfo) (rest : List ℕ) (m : Map ℕ TxnInfo) (result : List ℕ)
    → Telling a from rest m
    → Telling a from [] (unblock_all rest (m, result)).0
unfolding unblock_all
unblock_all-Telling a from [] m result v = v
unblock_all-Telling a from (x ∷ rest) m result v =
    let (info, e, ne, _) = blocked_info a from x rest m v in
    subst (λ s. Telling a from [] (unblock_all rest s).0) (sym (unblock-eq x info m result e))
      (unblock_all-Telling a from rest (insert x (told info) m) _
        (told-Telling a from x rest m v info e ne))

erase-Inv : (a : ℕ) (from : TxnInfo) (m : Map ℕ TxnInfo) → Telling a from [] m → Inv (erase_key a m)
erase-Inv a from m v = record {
  unique = erase_key-Unique a m v.unique;
  counted = λ b info h.
      let found = lookup-erase_key a b m in
      let (c, ec, sum) = v.counted b info (ground arith) in
      ec ∙ ap pos (omega (arith, edges-erase_key b a from m v.unique v.source));
  closed = λ b h. ground (
    arith,
    lookup-erase_key a b m,
    edges-erase_key b a from m v.unique v.source,
    v.closed b,
    v.unblocked,
  );
}

pub start-Telling :
    (a : ℕ) (from : TxnInfo) (m : Map ℕ TxnInfo)
    → Inv m
    → lookup a m ≡ some from
    → is_ready from ≡ true
    → Telling a from from.waited_by m
start-Telling a from m v e ready = record {
  unique = v.unique;
  counted = λ b info h. (edges b m, v.counted b info h, refl);
  closed = v.closed;
  source = e;
  unblocked = ground (arith, v.counted a from e);
  within = λ b. omega arith;
}

-- `ReleaseLocks`, where it returns, keeps every `waiting_for_cnt` at the number of entries for the
-- transaction in the `waited_by` lists, and every such entry at a transaction that is there.
pub release_locks-Inv :
    (txn_id : ℕ) (lm lm' : DdrLockManager) (result : List ℕ)
    → Inv lm.txn_info
    → release_locks txn_id lm ≡ some (lm', result)
    → Inv lm'.txn_info
unfolding release_locks
release_locks-Inv a lm lm' result v e = elim (Option-cases (lookup a lm.txn_info)) [
  | inl gone ↦ subst Inv {x = lm.txn_info} (ground arith) v
  | inr (from, found) ↦ elim (Bool-cases (is_ready from)) [
    | inr busy ↦ absurd (ground arith)
    | inl ready ↦
        (let m = (unblock_all from.waited_by (lm.txn_info, [])).0 in
          subst Inv {x = erase_key a m} (ground arith) (
            erase-Inv a from m (
              unblock_all-Telling a from from.waited_by lm.txn_info []
                (start-Telling a from lm.txn_info v found ready))))
  ]
]
