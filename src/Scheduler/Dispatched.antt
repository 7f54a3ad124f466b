-- ===== src/Scheduler/Dispatched.antt =====
-- A scheduler never dispatches a transaction that it does not have.
use slog.Base.{
  ℕ, ◌+◌, ◌≡◌, ◌≢◌, refl, subst, ◌∙◌, Bool, true, false, Option, none, some, List, [], ◌∷◌, nat_Eq,
  if◌then◌else◌, Map, lookup, insert, lookup-insert, arith, Bool-cases, Option-cases, inl, inr,
}
use slog.Txn.{Transaction}
use slog.TxnHolder.{
  TxnHolder, new_holder, add_lock_only_txn, set_done, is_ready_for_gc, slot, index, nulls,
}
use slog.Scheduler.{
  LockManager, Outcome, ◌>>=◌, check, Scheduler, change_main, add_global_log_positions, enter,
  empty, release_and_dispatch, send_to_lock_manager, proceed, accept, process_transaction, on_done,
}
use slog.Scheduler.Active.{
  Holds, Holds-bind, Holds-check, Inv, Good, insert-Inv, add-Inv, erase_key-Inv,
}
use slog.Scheduler.Releases.{Released, release_and_dispatch-Released}
use slog.Scheduler.Answers.{change_main-aborting, acquire-Inv, on_result-Good}

new_holder-aborting :
    (n : ℕ) (txn : Transaction) (h : TxnHolder) → new_holder n txn ≡ some h → h.aborting ≡ false
unfolding new_holder
new_holder-aborting n txn h e = elim (Option-cases (slot (index txn) (nulls n))) [
  | inl out ↦ absurd (ground arith)
  | inr (free, there) ↦ ground arith
]

add_lock_only_txn-aborting :
    (txn : Transaction) (h h' : TxnHolder) (is_new : Bool)
    → add_lock_only_txn txn h ≡ some (h', is_new)
    → h'.aborting ≡ h.aborting
unfolding add_lock_only_txn
add_lock_only_txn-aborting txn h h' is_new e = elim (Option-cases (slot (index txn) h.lo_txns)) [
  | inl out ↦ absurd (ground arith)
  | inr (none, there) ↦ ground arith
  | inr (some t, there) ↦ ground arith
]

-- A holder as it enters: it is not aborting, or aborting as the one that was there.
abbrev Entered : Option TxnHolder → TxnHolder → Type 0
Entered none h = h.aborting ≡ false
Entered (some k) h = h.aborting ≡ k.aborting

enter-Entered :
    (n : ℕ) (txn : Transaction) (o : Option TxnHolder) (h : TxnHolder) (is_new : Bool)
    → enter n txn o ≡ some (h, is_new)
    → Entered o h
unfolding enter
enter-Entered n txn none h is_new e = elim (Option-cases (new_holder n txn)) [
  | inl out ↦ absurd (ground arith)
  | inr (k, made) ↦ new_holder-aborting n txn h (ground arith)
]
enter-Entered n txn (some k) h is_new e = add_lock_only_txn-aborting txn k h is_new e

module _ {S : Type 0} (m : LockManager S) where
  proceed-Good :
      (txn : Transaction) (h : TxnHolder) (s : Scheduler S)
      → Good m s
      → lookup txn.internal.id s.active_txns ≡ some h
      → Holds (Good m) (proceed m txn h s)
  unfolding send_to_lock_manager
  proceed-Good txn h s v there = elim (Bool-cases h.aborting) [
    | inl aborts ↦ elim (Bool-cases (is_ready_for_gc h)) [
      | inl over ↦ rw aborts (
          rw over (
            erase_key-Inv m txn.internal.id s.lock_manager s.active_txns v
              (v.aborting txn.internal.id h there aborts)))
      | inr early ↦ rw aborts (rw early v)
    ]
    | inr alive ↦ rw alive (
        on_result-Good m (m.acquire txn s.lock_manager).1 txn.internal.id
          (record s { lock_manager = (m.acquire txn s.lock_manager).0 }) h
          (acquire-Inv m txn h s.lock_manager s.active_txns v there alive) there)
  ]

  placed :
      (t : ℕ) (h h' : TxnHolder) (o : Option TxnHolder) (lm : S) (active : Map ℕ TxnHolder)
      → Inv m lm active
      → lookup t active ≡ o
      → Entered o h
      → h'.aborting ≡ h.aborting
      → Inv m lm (insert t h' active)
  placed t h h' none lm active v there fresh same = add-Inv m t h' lm active v (same ∙ fresh)
  placed t h h' (some k) lm active v there known same =
      insert-Inv m t k h' lm active v there (same ∙ known)

  accept-Good :
      (txn : Transaction) (h : TxnHolder) (s : Scheduler S)
      → Good m s
      → Entered (lookup txn.internal.id s.active_txns) h
      → Holds (Good m) (accept m txn h s)
  accept-Good txn h s v entered =
      let add = add_global_log_positions txn.internal.home s.global_log_counter in
      Holds-bind (λ h'. change_main add h ≡ some h') (Good m) (check (change_main add h)) _
        (Holds-check (change_main add h))
        (λ h' e.
          proceed-Good txn h' (record s { active_txns = insert txn.internal.id h' s.active_txns })
            (placed txn.internal.id h h' (lookup txn.internal.id s.active_txns) s.lock_manager
              s.active_txns v refl entered (change_main-aborting add h h' e))
            (lookup-insert txn.internal.id txn.internal.id h' s.active_txns ∙ ground arith))

  process_transaction-Good :
      (n : ℕ) (txn : Transaction) (s : Scheduler S)
      → Good m s
      → Holds (Good m) (process_transaction m n txn s)
  unfolding process_transaction
  process_transaction-Good n txn s v =
      let o = lookup txn.internal.id s.active_txns in
      Holds-bind (λ r. enter n txn o ≡ some r) (Good m) (check (enter n txn o)) _
        (Holds-check (enter n txn o))
        (λ (r : TxnHolder × Bool) e. go r.0 r.1 (enter-Entered n txn o r.0 r.1 e))
    where
      go :
          (h : TxnHolder) (is_new : Bool)
          → Entered (lookup txn.internal.id s.active_txns) h
          → (let counted = record s { global_log_counter = s.global_log_counter + 1 } in
              Holds (Good m) (if is_new then accept m txn h counted else Outcome.returns counted))
      go h true entered =
          accept-Good txn h (record s { global_log_counter = s.global_log_counter + 1 }) v entered
      go h false entered = v

  on_done-Good : (t : ℕ) (s : Scheduler S) → Good m s → Holds (Good m) (on_done m t s)
  unfolding on_done
  on_done-Good t s v =
      Holds-bind (Released m t s.active_txns) (Good m) (release_and_dispatch m t s) _
        (release_and_dispatch-Released m t s (record {
          known = v.known;
          aborting = λ j h there aborts other. v.aborting j h there aborts;
        }))
        (λ released r.
          Holds-bind (λ h. lookup t released.active_txns ≡ some h) (Good m)
            (check (lookup t released.active_txns)) _ (Holds-check (lookup t released.active_txns))
            (λ h there. elim (Bool-cases (is_ready_for_gc (set_done h))) [
              | inl over ↦
                  rw over (
                    erase_key-Inv m t released.lock_manager released.active_txns r.good r.untracked)
              | inr early ↦ rw early (
                  insert-Inv m t h (set_done h) released.lock_manager released.active_txns r.good
                    there refl)
            ]))

-- What happens to a scheduler: a transaction comes in, a worker says that it is done with one, or a
-- worker changes what a holder has.
pub data Happening : Type 0 where
  received : Transaction → Happening
  done : ℕ → Happening
  worked : ℕ → List (Option Transaction) → Option (List ℕ × ℕ) → Happening

module _ {S : Type 0} (m : LockManager S) where
  abbrev pub work :
      ℕ
      → List (Option Transaction)
      → Option (List ℕ × ℕ)
      → Option TxnHolder
      → Scheduler S
      → Scheduler S
  work t lo_txns remaster_result none s = s
  work t lo_txns remaster_result (some h) s = record s {
    active_txns =
        insert t (record h { lo_txns = lo_txns; remaster_result = remaster_result }) s.active_txns;
  }

  unfoldable pub step : ℕ → Happening → Scheduler S → Outcome (Scheduler S)
  unfolding process_transaction on_done
  step n (Happening.received txn) s = process_transaction m n txn s
  step n (Happening.done t) s = on_done m t s
  step n (Happening.worked t lo_txns remaster_result) s =
      Outcome.returns (work t lo_txns remaster_result (lookup t s.active_txns) s)

  unfoldable pub run : ℕ → List Happening → Scheduler S → Outcome (Scheduler S)
  unfolding step
  run n [] s = Outcome.returns s
  run n (e ∷ es) s = step n e s >>= run n es

  work-Good :
      (t : ℕ) (lo : List (Option Transaction)) (r : Option (List ℕ × ℕ)) (o : Option TxnHolder)
      (s : Scheduler S)
      → Good m s
      → lookup t s.active_txns ≡ o
      → Good m (work t lo r o s)
  work-Good t lo r none s v there = v
  work-Good t lo r (some h) s v there =
      insert-Inv m t h (record h { lo_txns = lo; remaster_result = r }) s.lock_manager s.active_txns
        v there refl

  step-Good : (n : ℕ) (e : Happening) (s : Scheduler S) → Good m s → Holds (Good m) (step n e s)
  unfolding step
  step-Good n (Happening.received txn) s v = process_transaction-Good m n txn s v
  step-Good n (Happening.done t) s v = on_done-Good m t s v
  step-Good n (Happening.worked t lo r) s v = work-Good t lo r (lookup t s.active_txns) s v refl

  run-Good :
      (n : ℕ) (es : List Happening) (s : Scheduler S) → Good m s → Holds (Good m) (run n es s)
  unfolding run
  run-Good n [] s v = v
  run-Good n (e ∷ es) s v =
      Holds-bind (Good m) (Good m) (step n e s) (run n es) (step-Good n e s v) (run-Good n es)

  empty-Good : Good m (empty m)
  unfolding lookup
  empty-Good = record {
    known = λ j tracked. absurd (ground (arith, m.new-tracks j));
    aborting = λ j h there aborts. absurd (ground arith);
  }

  -- From the start on and whatever comes in any order, with any lock manager that keeps the contract, a
  -- scheduler never dispatches a transaction that it does not have, in an abort either; and the
  -- transactions that the lock manager knows are all active, none of them aborting.
  pub never_missing :
      (n : ℕ) (es : List Happening)
      → (run n es (empty m) ≢ Outcome.missing_txn)
        × ((s : Scheduler S) → run n es (empty m) ≡ Outcome.returns s → Good m s)
  never_missing n es =
      let h = run-Good n es (empty m) empty-Good in
      ((λ e. subst (Holds (Good m)) e h), (λ s e. subst (Holds (Good m)) e h))
