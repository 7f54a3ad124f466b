-- ===== src/Scheduler/Managers.antt =====
-- RMALockManager, as what a scheduler uses.
use slog.Base.{
  ℕ, ◌≡◌, refl, sym, ap, ◌∙◌, Bool, true, false, not, ◌&&◌, ◌||◌, none, some, List, [], ◌∷◌, ◌++◌,
  nat_eq, nat_Eq, bytes_Eq, elem, elem-append, elem-sort_unique, sort_unique, if◌then◌else◌, Map,
  has, lookup, insert, erase_key, lookup-insert, lookup-erase_key, arith, Bool-cases, Option-cases,
  inl, inr, some_inj, >>=-eq-some, pos, ◌-ℤ◌,
}
use slog.Txn.{Transaction}
use slog.Locks.Rma
use slog.Locks.Rma.{
  RmaLockManager, TxnInfo, grant_all, release_key, release_keys, release_locks, acquire_locks,
  is_ready,
}
use slog.Locks.LockState.{release}
use slog.Scheduler.{LockManager, AcquireLocksResult}

abbrev pub answer : Bool → AcquireLocksResult
answer true = AcquireLocksResult.acquired
answer false = AcquireLocksResult.waiting

abbrev knows : ℕ → Map ℕ TxnInfo → Bool
knows j infos = has j infos

knows-insert :
    (k j : ℕ) (v : TxnInfo) (infos : Map ℕ TxnInfo)
    → has j (insert k v infos) ≡ (nat_eq k j || has j infos)
knows-insert k j v infos = ground (arith, lookup-insert k j v infos)

-- One that becomes ready is there.
pub ready_one :
    {V : Type 0} (t j : ℕ) (info : V) (infos : Map ℕ V) (result : List ℕ) (b : Bool)
    → lookup t infos ≡ some info
    → elem j (if b then result ++ t ∷ [] else result) ≡ true
    → (elem j result || has j infos) ≡ true
ready_one t j info infos result false there h = ground arith
ready_one t j info infos result true there h = elim (Bool-cases (nat_eq t j)) [
  | inl same ↦
      (let at : lookup j infos ≡ some info =
          ap (λ x. lookup x infos) (sym ((nat_Eq.same_iff t j).0 same)) ∙ there in
        ground arith)
  | inr other ↦ ground (arith, elem-append j result (t ∷ []))
]

-- Grants change no key, and those that become ready are there.
grant_all-known :
    (ts : List ℕ) (infos infos' : Map ℕ TxnInfo) (result result' : List ℕ) (j : ℕ)
    → grant_all ts infos result ≡ some (infos', result')
    → (has j infos' ≡ has j infos) × (elem j result' ≡ true → (elem j result || has j infos) ≡ true)
unfolding grant_all
grant_all-known [] infos infos' result result' j e =
    (ground arith, λ h. ground (arith, ap (λ x. elem j x.1) (some_inj e)))
grant_all-known (t ∷ ts) infos infos' result result' j e =
    let (info, there, rest) = >>=-eq-some (lookup t infos) _ e in
    let granted = record info { num_waiting_for = info.num_waiting_for -ℤ pos 1 } in
    let result₁ = if is_ready granted then result ++ t ∷ [] else result in
    let (same, ready) = grant_all-known ts (insert t granted infos) infos' result₁ result' j rest in
    let had : has j (insert t granted infos) ≡ has j infos =
      ground (arith, lookup-insert t j granted infos, there) in
    let first = ready_one t j info infos result (is_ready granted) there in
    (same ∙ had, λ h. ground (arith, ready h, had, first))

release_key-known :
    (t : ℕ) (k : List ℕ) (lm lm' : RmaLockManager) (result result' : List ℕ) (j : ℕ)
    → release_key t k (lm, result) ≡ some (lm', result')
    → (has j lm'.txn_info ≡ has j lm.txn_info)
      × (elem j result' ≡ true → (elem j result || has j lm.txn_info) ≡ true)
unfolding release_key
release_key-known t k lm lm' result result' j e = elim (Option-cases (lookup k lm.lock_table)) [
  | inl gone ↦ (
    ap (λ x. has j x.txn_info) {x = lm'} {y = lm} (ground arith),
    (λ h. ground (arith, ap (elem j) {x = result'} {y = result} (ground arith))),
  )
  | inr (before, found) ↦ elim (Option-cases (grant_all (release t before).1 lm.txn_info result)) [
    | inl stopped ↦ absurd (ground arith)
    | inr ((infos, r₁), done) ↦
        (let (same, ready) =
            grant_all-known (release t before).1 lm.txn_info infos result r₁ j done in
          (
            ap (has j) {x = lm'.txn_info} {y = infos} (ground arith) ∙ same,
            (λ h. ready (ap (elem j) {x = r₁} {y = result'} (ground arith) ∙ h)),
          ))
  ]
]

release_keys-known :
    (t : ℕ) (ks : List (List ℕ)) (lm lm' : RmaLockManager) (result result' : List ℕ) (j : ℕ)
    → release_keys t ks (lm, result) ≡ some (lm', result')
    → (has j lm'.txn_info ≡ has j lm.txn_info)
      × (elem j result' ≡ true → (elem j result || has j lm.txn_info) ≡ true)
unfolding release_keys
release_keys-known t [] lm lm' result result' j e = (
  ap (λ x. has j x.0.txn_info) (sym (some_inj e)),
  (λ h. ground (arith, ap (λ x. elem j x.1) (some_inj e))),
)
release_keys-known t (k ∷ ks) lm lm' result result' j e =
    let ((lm₁, r₁), first, rest) =
      >>=-eq-some (release_key t k (lm, result)) (release_keys t ks) e in
    let (same, ready) = release_key-known t k lm lm₁ result r₁ j first in
    let (same', ready') = release_keys-known t ks lm₁ lm' r₁ result' j rest in
    (same' ∙ same, λ h. ground (arith, ready' h, ready, same))

pub absent :
    {V : Type 0} (t j : ℕ) (infos : Map ℕ V)
    → lookup t infos ≡ none
    → has j infos ≡ (has j infos && not (nat_eq t j))
absent t j infos gone = elim (Bool-cases (nat_eq t j)) [
  | inl same ↦
      (let at : lookup j infos ≡ none =
          ap (λ x. lookup x infos) (sym ((nat_Eq.same_iff t j).0 same)) ∙ gone in
        ground arith)
  | inr other ↦ ground arith
]

pub acquire_locks-known :
    (txn : Transaction) (lm : RmaLockManager) (j : ℕ)
    → has j (acquire_locks txn lm).0.txn_info ≡ true
    → (nat_eq txn.internal.id j || has j lm.txn_info) ≡ true
unfolding acquire_locks
acquire_locks-known txn lm j h = sym (knows-insert txn.internal.id j _ lm.txn_info) ∙ h

pub none_known : (j : ℕ) → has {V = TxnInfo} j [] ≡ false
unfolding lookup
none_known j = refl

-- What a release leaves and what it returns.
pub release_locks-known :
    (t : ℕ) (lm lm' : RmaLockManager) (ready : List ℕ) (j : ℕ)
    → release_locks t lm ≡ some (lm', ready)
    → (has j lm'.txn_info ≡ (has j lm.txn_info && not (nat_eq t j)))
      × (elem j ready ≡ true → has j lm.txn_info ≡ true)
unfolding release_locks
release_locks-known t lm lm' ready j e = elim (Option-cases (lookup t lm.txn_info)) [
  | inl gone ↦ (
    ap (λ x. has j x.txn_info) {x = lm'} {y = lm} (ground arith) ∙ absent t j lm.txn_info gone,
    (λ h. absurd (ground (arith, ap (elem j) {x = ready} {y = []} (ground arith)))),
  )
  | inr (info, found) ↦ elim (Option-cases (release_keys t info.keys (lm, []))) [
    | inl stopped ↦ absurd (ground arith)
    | inr ((lm₁, r₁), done) ↦
        (let (same, ok) = release_keys-known t info.keys lm lm₁ [] r₁ j done in
          (
            ap (has j) {x = lm'.txn_info} {y = erase_key t lm₁.txn_info} (ground arith)
                ∙ ground (arith, lookup-erase_key t j lm₁.txn_info, same),
            (λ h. ok (
                sym (elem-sort_unique j r₁)
                ∙ ap (elem j) {x = sort_unique r₁} {y = ready} (ground arith)
                ∙ h)),
          ))
  ]
]

-- `RMALockManager`, the default.
abbrev pub rma : LockManager RmaLockManager
rma = record {
  new = Rma.init;
  acquire = λ txn lm. ((acquire_locks txn lm).0, answer (acquire_locks txn lm).1);
  release = release_locks;
  aborts = true;
  tracks = λ j lm. has j lm.txn_info;
  new-tracks = none_known;
  acquire-tracks = acquire_locks-known;
  release-tracks = λ t lm lm' ready j e h. sym (release_locks-known t lm lm' ready j e).0 ∙ h;
  release-ready = λ t lm lm' ready j e h. (release_locks-known t lm lm' ready j e).1 h;
}
