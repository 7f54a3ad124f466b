-- ===== src/Scheduler/DdrManager.antt =====
-- DDRLockManager, as what a scheduler uses.
use slog.Base.{
  ℕ, ◌≡◌, refl, sym, ap, ◌∙◌, true, false, not, ◌&&◌, ◌||◌, some, List, [], ◌∷◌, ◌++◌, nat_eq,
  nat_Eq, bytes_Eq, elem, sort_unique, if◌then◌else◌, Map, has, lookup, insert, erase_key,
  lookup-insert, lookup-erase_key, arith, Bool-cases, Option-cases, inl, inr, pos, ◌-ℤ◌,
}
use slog.Txn.{Transaction}
use slog.Locks.Ddr
use slog.Locks.Ddr.{
  DdrLockManager, TxnInfo, is_ready, modify, emplace, wait_for, wait_for_all, add_wait, add_waiter,
  arrive, request_locks, acquire_locks, unblock, unblock_all, release_locks, num_required_locks,
}
use slog.Scheduler.{LockManager}
use slog.Scheduler.Managers.{answer, ready_one, absent}

has-insert :
    (k j : ℕ) (v : TxnInfo) (infos : Map ℕ TxnInfo)
    → has j (insert k v infos) ≡ (nat_eq k j || has j infos)
has-insert k j v infos = ground (arith, lookup-insert k j v infos)

-- A change to an entry that is there adds none.
has-change :
    (k j : ℕ) (old new : TxnInfo) (infos : Map ℕ TxnInfo)
    → lookup k infos ≡ some old
    → has j (insert k new infos) ≡ has j infos
has-change k j old new infos there = elim (Bool-cases (nat_eq k j)) [
  | inl same ↦
      (let at : lookup j infos ≡ some old =
          ap (λ x. lookup x infos) (sym ((nat_Eq.same_iff k j).0 same)) ∙ there in
        ground (arith, has-insert k j new infos))
  | inr other ↦ ground (arith, has-insert k j new infos)
]

has-modify :
    (k j : ℕ) (f : TxnInfo → TxnInfo) (infos : Map ℕ TxnInfo)
    → has j (modify k f infos) ≡ has j infos
has-modify k j f infos = elim (Option-cases (lookup k infos)) [
  | inl gone ↦ ground arith
  | inr (info, there) ↦ (let changed = has-change k j info (f info) infos there in ground arith)
]

has-wait_for : (t b j : ℕ) (infos : Map ℕ TxnInfo) → has j (wait_for t b infos) ≡ has j infos
unfolding wait_for
has-wait_for t b j infos = elim (Bool-cases (nat_eq b t)) [
  | inl same ↦ ground arith
  | inr other ↦ elim (Bool-cases (has b infos)) [
    | inl there ↦
        (let waits = has-modify t j (add_wait (pos 1)) infos in
          let waited = has-modify b j (add_waiter t) (modify t (add_wait (pos 1)) infos) in
          ap (has j) {x = wait_for t b infos}
            {y = modify b (add_waiter t) (modify t (add_wait (pos 1)) infos)} (ground arith)
          ∙ waited
          ∙ waits)
    | inr gone ↦ ap (has j) {x = wait_for t b infos} {y = infos} (ground arith)
  ]
]

has-wait_for_all :
    (t j : ℕ) (bs : List ℕ) (infos : Map ℕ TxnInfo) → has j (wait_for_all t bs infos) ≡ has j infos
unfolding wait_for_all
has-wait_for_all t j [] infos = refl
has-wait_for_all t j (b ∷ bs) infos =
    has-wait_for_all t j bs (wait_for t b infos) ∙ has-wait_for t b j infos

has-emplace :
    (txn : Transaction) (j : ℕ) (infos : Map ℕ TxnInfo)
    → has j (emplace txn infos) ≡ true
    → (nat_eq txn.internal.id j || has j infos) ≡ true
unfolding emplace
has-emplace txn j infos h =
    let fresh : TxnInfo = record {
      waited_by = [];
      unarrived_lock_requests = pos (num_required_locks txn);
      waiting_for_cnt = pos 0;
    } in
    elim (Bool-cases (has txn.internal.id infos)) [
      | inl there ↦
          (let at : has j infos ≡ true =
              ap (has j) {x = infos} {y = emplace txn infos} (ground arith) ∙ h in
            ground arith)
      | inr gone ↦
          sym (has-insert txn.internal.id j fresh infos)
          ∙ ap (has j) {x = insert txn.internal.id fresh infos} {y = emplace txn infos}
              (ground arith)
          ∙ h
    ]

pub acquire_locks-has :
    (txn : Transaction) (lm : DdrLockManager) (j : ℕ)
    → has j (acquire_locks txn lm).0.txn_info ≡ true
    → (nat_eq txn.internal.id j || has j lm.txn_info) ≡ true
unfolding acquire_locks
acquire_locks-has txn lm j h =
    let r =
      request_locks txn txn.keys
        (record { lock_table = lm.lock_table; num_relevant_locks = 0; blocking_txns = [] }) in
    has-emplace txn j lm.txn_info (
      sym (has-modify txn.internal.id j (arrive r.num_relevant_locks) (emplace txn lm.txn_info))
      ∙ sym (
          has-wait_for_all txn.internal.id j (sort_unique r.blocking_txns)
            (modify txn.internal.id (arrive r.num_relevant_locks) (emplace txn lm.txn_info)))
      ∙ h)

-- One blocked transaction: no entry comes or goes, and one that becomes ready is there.
has-unblock :
    (b j : ℕ) (infos : Map ℕ TxnInfo) (result : List ℕ)
    → (has j (unblock b (infos, result)).0 ≡ has j infos)
      × (elem j (unblock b (infos, result)).1 ≡ true → (elem j result || has j infos) ≡ true)
unfolding unblock
has-unblock b j infos result = elim (Option-cases (lookup b infos)) [
  | inl gone ↦
      (let same : unblock b (infos, result) ≡ (infos, result) = ground arith in
        (
          ap (λ x. has j x.0) same,
          λ h.
              (let before : elem j result ≡ true = ap (λ x. elem j x.1) (sym same) ∙ h in
                ground arith),
        ))
  | inr (info, there) ↦
      (let blocked = record info { waiting_for_cnt = info.waiting_for_cnt -ℤ pos 1 } in
        let same : unblock b (infos, result)
            ≡ (insert b blocked infos, if is_ready blocked then result ++ b ∷ [] else result) =
          ground arith in
        (
          ap (λ x. has j x.0) same ∙ has-change b j info blocked infos there,
          λ h.
              ready_one b j info infos result (is_ready blocked) there
                (ap (λ x. elem j x.1) (sym same) ∙ h),
        ))
]

has-unblock_all :
    (j : ℕ) (bs : List ℕ) (infos : Map ℕ TxnInfo) (result : List ℕ)
    → (has j (unblock_all bs (infos, result)).0 ≡ has j infos)
      × (elem j (unblock_all bs (infos, result)).1 ≡ true → (elem j result || has j infos) ≡ true)
unfolding unblock_all
has-unblock_all j [] infos result = (refl, λ h. ground arith)
has-unblock_all j (b ∷ bs) infos result =
    let (infos₁, result₁) = unblock b (infos, result) in
    let (same, ready) = has-unblock b j infos result in
    let (same', ready') = has-unblock_all j bs infos₁ result₁ in
    (same' ∙ same, λ h. ground (arith, ready' h, ready, same))

-- What a release leaves and what it returns.
pub release_locks-has :
    (t : ℕ) (lm lm' : DdrLockManager) (ready : List ℕ) (j : ℕ)
    → release_locks t lm ≡ some (lm', ready)
    → (has j lm'.txn_info ≡ (has j lm.txn_info && not (nat_eq t j)))
      × (elem j ready ≡ true → has j lm.txn_info ≡ true)
unfolding release_locks
release_locks-has t lm lm' ready j e = elim (Option-cases (lookup t lm.txn_info)) [
  | inl gone ↦ (
    ap (λ x. has j x.txn_info) {x = lm'} {y = lm} (ground arith) ∙ absent t j lm.txn_info gone,
    λ h. absurd (ground (arith, ap (elem j) {x = ready} {y = []} (ground arith))),
  )
  | inr (info, found) ↦ elim (Bool-cases (is_ready info)) [
    | inr waits ↦ absurd (ground arith)
    | inl done ↦
        (let r = unblock_all info.waited_by (lm.txn_info, []) in
          let (same, ok) = has-unblock_all j info.waited_by lm.txn_info [] in
          let outcome : DdrLockManager × List ℕ = (record lm { txn_info = erase_key t r.0 }, r.1) in
          let returned : DdrLockManager × List ℕ = (lm', ready) in
          let is : outcome ≡ returned = ground arith in
          (
            ap (λ x. has j x.0.txn_info) (sym is) ∙ ground (arith, lookup-erase_key t j r.0, same),
            λ h. ok (ap (λ x. elem j x.1) is ∙ h),
          ))
  ]
]

pub none_has : (j : ℕ) → has {V = TxnInfo} j [] ≡ false
unfolding lookup
none_has j = refl

-- `DDRLockManager`, with which a scheduler has no abort before a dispatch.
abbrev pub ddr : LockManager DdrLockManager
ddr = record {
  new = Ddr.init;
  acquire = λ txn lm. ((acquire_locks txn lm).0, answer (acquire_locks txn lm).1);
  release = release_locks;
  aborts = false;
  tracks = λ j lm. has j lm.txn_info;
  new-tracks = none_has;
  acquire-tracks = acquire_locks-has;
  release-tracks = λ t lm lm' ready j e h. sym (release_locks-has t lm lm' ready j e).0 ∙ h;
  release-ready = λ t lm lm' ready j e h. (release_locks-has t lm lm' ready j e).1 h;
}
