-- ===== src/Scheduler/Answers.antt =====
-- What the lock manager's answer does to a scheduler, an abort included.
use slog.Base.{
  ℕ, ◌≡◌, sym, ap, subst, ◌∙◌, false, Option, none, some, nat_eq, nat_Eq, if◌then◌else◌, Map,
  lookup, insert, lookup-insert, arith, Bool-cases, Option-cases, inl, inr, some_inj,
}
use slog.Txn.{Transaction}
use slog.TxnHolder.{TxnHolder, set_aborting}
use slog.Worker.{main_txn}
use slog.Scheduler.{
  LockManager, AcquireLocksResult, Outcome, ◌>>=◌, check, follow, Scheduler, change_main, abort_txn,
  dispatch, release_and_dispatch, trigger_abort, trigger_pre_dispatch_abort, on_result,
}
use slog.Scheduler.Active.{
  Holds, Holds-bind, Holds-imp, Holds-if, Holds-check, Inv, Good, insert-Inv,
}
use slog.Scheduler.Releases.{After, Before, Released, dispatch-After, release_and_dispatch-Released}

pub change_main-aborting :
    (f : Transaction → Transaction) (h h' : TxnHolder)
    → change_main f h ≡ some h'
    → h'.aborting ≡ h.aborting
change_main-aborting f h h' e = elim (Option-cases (main_txn h)) [
  | inl gone ↦ absurd (ground arith)
  | inr (txn, there) ↦ ground arith
]

module _ {S : Type 0} (m : LockManager S) where
  pub acquire-Inv :
      (txn : Transaction) (h : TxnHolder) (lm : S) (active : Map ℕ TxnHolder)
      → Inv m lm active
      → lookup txn.internal.id active ≡ some h
      → h.aborting ≡ false
      → Inv m (m.acquire txn lm).0 active
  acquire-Inv txn h lm active v there alive = record {
    known = λ j tracked. elim (Bool-cases (nat_eq txn.internal.id j)) [
      | inl here ↦
          (h, ap (λ x. lookup x active) (sym ((nat_Eq.same_iff txn.internal.id j).0 here)) ∙ there)
      | inr other ↦ v.known j (ground (arith, m.acquire-tracks txn lm j tracked))
    ];
    aborting = λ j k found aborts. elim (Bool-cases (m.tracks j (m.acquire txn lm).0)) [
      | inl tracked ↦ elim (Bool-cases (nat_eq txn.internal.id j)) [
        | inl here ↦
            (let same : h ≡ k = some_inj (
                sym there
                ∙ ap (λ x. lookup x active) ((nat_Eq.same_iff txn.internal.id j).0 here)
                ∙ found) in
              absurd (ground (arith, ap (λ x. x.aborting) same)))
        | inr other ↦
            absurd (ground (arith, m.acquire-tracks txn lm j tracked, v.aborting j k found aborts))
      ]
      | inr free ↦ free
    ];
  }

  abort-Before :
      (t : ℕ) (h : TxnHolder) (lm : S) (active : Map ℕ TxnHolder)
      → Inv m lm active
      → lookup t active ≡ some h
      → Before m t lm (insert t (set_aborting h) active)
  abort-Before t h lm active v there = record {
    known = λ j tracked. elim (Bool-cases (nat_eq t j)) [
      | inl here ↦ (set_aborting h, lookup-insert t j (set_aborting h) active ∙ ground arith)
      | inr other ↦
          (let (k, found) = v.known j tracked in
            (k, lookup-insert t j (set_aborting h) active ∙ ground arith))
    ];
    aborting = λ j k found aborts other.
        v.aborting j k (ground (arith, lookup-insert t j (set_aborting h) active)) aborts;
  }

  -- The end of an abort.
  abort_and_dispatch-Good :
      (t : ℕ) (s : Scheduler S) (h : TxnHolder)
      → Good m s
      → lookup t s.active_txns ≡ some h
      → Holds (Good m) (do
        h' ← follow (lookup t s.active_txns)
        aborted ← check (change_main abort_txn h')
        dispatch m t (record s { active_txns = insert t aborted s.active_txns }))
  abort_and_dispatch-Good t s h v there = rw there (
      Holds-bind (λ a. change_main abort_txn h ≡ some a) (Good m) (check (change_main abort_txn h))
        _ (Holds-check (change_main abort_txn h))
        (λ a e.
          (let next = record s { active_txns = insert t a s.active_txns } in
            let same = change_main-aborting abort_txn h a e in
            Holds-imp (After m next.lock_manager next.active_txns) (Good m) (dispatch m t next)
              (λ s' after. after.good)
              (dispatch-After m t next a
                (insert-Inv m t h a s.lock_manager s.active_txns v there same)
                (lookup-insert t t a s.active_txns ∙ ground arith)))))

  trigger_abort-Good : (t : ℕ) (s : Scheduler S) → Good m s → Holds (Good m) (trigger_abort m t s)
  unfolding trigger_abort
  trigger_abort-Good t s v =
      Holds-bind (λ h. lookup t s.active_txns ≡ some h) (Good m) (check (lookup t s.active_txns)) _
        (Holds-check (lookup t s.active_txns))
        (λ h there.
          Holds-bind (λ a. (if h.aborting then none else some (set_aborting h)) ≡ some a) (Good m)
            (check (if h.aborting then none else some (set_aborting h))) _
            (Holds-check (if h.aborting then none else some (set_aborting h)))
            (λ a e.
              (let is : a ≡ set_aborting h = ground arith in
                Holds-bind (λ x. Unit) (Good m) (check (main_txn h)) _ (any (main_txn h))
                  (λ main u.
                    (let next = record s { active_txns = insert t a s.active_txns } in
                      Holds-bind (Released m t next.active_txns) (Good m)
                        (release_and_dispatch m t next) _
                        (release_and_dispatch-Released m t next (
                          subst (λ x. Before m t s.lock_manager (insert t x s.active_txns)) (sym is)
                            (abort-Before t h s.lock_manager s.active_txns v there)))
                        (λ released r.
                          (let (h', there', same) =
                              r.kept t a (lookup-insert t t a s.active_txns ∙ ground arith) in
                            abort_and_dispatch-Good t released h' r.good there')))))))
    where
      any : {A : Type 0} (o : Option A) → Holds (λ x. Unit) (check o)
      any none = tt
      any (some a) = tt

  pub on_result-Good :
      (r : AcquireLocksResult) (t : ℕ) (s : Scheduler S) (h : TxnHolder)
      → Good m s
      → lookup t s.active_txns ≡ some h
      → Holds (Good m) (on_result m r t s)
  unfolding trigger_pre_dispatch_abort
  on_result-Good AcquireLocksResult.acquired t s h v there =
      Holds-imp (After m s.lock_manager s.active_txns) (Good m) (dispatch m t s)
        (λ s' after. after.good) (dispatch-After m t s h v there)
  on_result-Good AcquireLocksResult.waiting t s h v there = v
  on_result-Good AcquireLocksResult.abort t s h v there =
      Holds-if (Good m) m.aborts (trigger_abort m t s) (Outcome.returns s)
        (trigger_abort-Good t s v) v
