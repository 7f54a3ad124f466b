-- ===== src/Locks/Ddr/Wakes.antt =====
-- Which transactions `ReleaseLocks` of a DDRLockManager returns.
use slog.Base.{
  ℕ, ◌<◌, ◌≡◌, ◌≢◌, ◌↔◌, ◌⊎◌, refl, sym, subst, subst₂, true, false, some, List, [], ◌∷◌, ◌++◌,
  arith, Map, lookup, insert, erase_key, lookup-insert, lookup-erase_key, nat_Eq, nat_eq,
  if◌then◌else◌, count, elem, elem-append, Option-cases, Bool-cases, inl, inr,
}
use slog.Locks.Ddr.{TxnInfo, DdrLockManager, is_ready, txn_is_ready, unblock_all, release_locks}
use slog.Locks.Ddr.Graph.{count-le-edges}
use slog.Locks.Ddr.Counts.{Inv}
use slog.Locks.Ddr.Release.{Telling, told, blocked_info, told-Telling, unblock-eq, start-Telling}

-- `result` so far, with the transactions as they were and as they are.
record Woken (a : ℕ) (from : TxnInfo) (before now : Map ℕ TxnInfo) (result : List ℕ) : Type 0 where
  ready : (b : ℕ) → elem b result ≡ true → txn_is_ready b now ≡ true
  waited : (b : ℕ) → elem b result ≡ true → 0 < count b from.waited_by
  all :
      (b : ℕ) (i : TxnInfo)
      → lookup b now ≡ some i
      → is_ready i ≡ true
      → (elem b result ≡ true) ⊎ (lookup b before ≡ some i)
  others : elem a result ≡ false

told-Woken :
    (a : ℕ) (from : TxnInfo) (x : ℕ) (rest : List ℕ) (before m : Map ℕ TxnInfo) (result : List ℕ)
    → Telling a from (x ∷ rest) m
    → Woken a from before m result
    → (info : TxnInfo) → lookup x m ≡ some info
    → x ≢ a
    → is_ready info ≡ false
    → Woken a from before
        (insert x (told info) m)
        (if is_ready (told info) then result ++ x ∷ [] else result)
told-Woken a from x rest before m result v w info e ne busy =
    elim (Bool-cases (is_ready (told info))) [
      | inl now ↦ rw now (record {
        ready = λ b h. ground (arith, found b, elem-append b result (x ∷ []), w.ready b);
        waited = λ b h. ground (arith, elem-append b result (x ∷ []), w.waited b, v.within b);
        all = λ b i h r. ground (arith, found b, elem-append b result (x ∷ []), w.all b i);
        others = ground (arith, elem-append a result (x ∷ []), w.others);
      })
      | inr later ↦ rw later (record {
        ready = λ b h. ground (arith, found b, w.ready b);
        waited = w.waited;
        all = λ b i h r. ground (arith, found b, w.all b i);
        others = w.others;
      })
    ]
  where
    found :
        (b : ℕ)
        → lookup b (insert x (told info) m) ≡ (if nat_eq x b then some (told info) else lookup b m)
    found b = lookup-insert x b (told info) m

unblock_all-Woken :
    (a : ℕ) (from : TxnInfo) (rest : List ℕ) (before m : Map ℕ TxnInfo) (result : List ℕ)
    → Telling a from rest m
    → Woken a from before m result
    → Woken a from before (unblock_all rest (m, result)).0 (unblock_all rest (m, result)).1
unfolding unblock_all
unblock_all-Woken a from [] before m result v w = w
unblock_all-Woken a from (x ∷ rest) before m result v w =
    let (info, e, ne, busy) = blocked_info a from x rest m v in
    subst (λ s. Woken a from before (unblock_all rest s).0 (unblock_all rest s).1)
      (sym (unblock-eq x info m result e))
      (unblock_all-Woken a from rest before (insert x (told info) m) _
        (told-Telling a from x rest m v info e ne)
        (told-Woken a from x rest before m result v w info e ne busy))

Woken-exact :
    (a : ℕ) (from : TxnInfo) (before now : Map ℕ TxnInfo) (result : List ℕ) (b : ℕ)
    → Inv before
    → lookup a before ≡ some from
    → Woken a from before now result
    → (elem b result ≡ true)
      ↔ ((txn_is_ready b before ≡ false) × (txn_is_ready b (erase_key a now) ≡ true))
Woken-exact a from before now result b v found w = (there, back)
  where
    not_before : elem b result ≡ true → txn_is_ready b before ≡ false
    not_before h = elim (Option-cases (lookup b before)) [
      | inl e ↦ ground arith
      | inr (i, e) ↦
          ground (arith, v.counted b i e, count-le-edges b a from before found, w.waited b)
    ]

    there :
        elem b result ≡ true
        → (txn_is_ready b before ≡ false) × (txn_is_ready b (erase_key a now) ≡ true)
    there h = (not_before h, ground (arith, lookup-erase_key a b now, w.ready b, w.others))

    back :
        (txn_is_ready b before ≡ false) × (txn_is_ready b (erase_key a now) ≡ true)
        → elem b result ≡ true
    back (nr, r) = elim (Option-cases (lookup b now)) [
      | inl e ↦ absurd (ground (arith, lookup-erase_key a b now))
      | inr (i, e) ↦ ground (arith, lookup-erase_key a b now, w.all b i)
    ]

-- Where the counts hold before it, a release that returns gives exactly the transactions that were
-- not ready before it and are ready after it.
pub release_locks_wakes :
    (txn_id : ℕ) (lm lm' : DdrLockManager) (result : List ℕ)
    → Inv lm.txn_info
    → release_locks txn_id lm ≡ some (lm', result)
    → (b : ℕ)
    → (elem b result ≡ true)
      ↔ ((txn_is_ready b lm.txn_info ≡ false) × (txn_is_ready b lm'.txn_info ≡ true))
unfolding release_locks
release_locks_wakes a lm lm' result v e b = elim (Option-cases (lookup a lm.txn_info)) [
  | inl gone ↦ ((λ h. absurd (ground arith)), (λ h. absurd (ground arith)))
  | inr (from, found) ↦ elim (Bool-cases (is_ready from)) [
    | inr busy ↦ absurd (ground arith)
    | inl ready ↦
        (let end = unblock_all from.waited_by (lm.txn_info, []) in
          let t = start-Telling a from lm.txn_info v found ready in
          let w = unblock_all-Woken a from from.waited_by lm.txn_info lm.txn_info [] t (record {
            ready = λ c h. absurd (ground arith);
            waited = λ c h. absurd (ground arith);
            all = λ c i h r. inr h;
            others = refl;
          }) in
          let infos : lm'.txn_info ≡ erase_key a end.0 = ground arith in
          let woken : end.1 ≡ result = ground arith in
          subst₂
            (λ m r.
              (elem b r ≡ true)
              ↔ ((txn_is_ready b lm.txn_info ≡ false) × (txn_is_ready b m ≡ true)))
            (sym infos) woken (Woken-exact a from lm.txn_info end.0 end.1 b v found w))
  ]
]
