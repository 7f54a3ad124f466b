-- ===== src/Worker/Phases.antt =====
-- What the phases of a transaction do to the states of a worker.
use slog.Base.{
  ℕ, ◌≡◌, refl, sym, ap, ◌∙◌, false, Option, none, some, List, [], ◌∷◌, ◌++◌, nat_eq, nat_Eq,
  if◌then◌else◌, >>=-eq-some, Map, get_elem?, lookup, erase_key, lookup-insert, lookup-erase_key,
  arith, Bool-cases, Option-cases, inl, inr,
}
use slog.Txn.{Transaction, TransactionStatus, Program}
use slog.ProtoUtils.Merge.{is_aborted}
use slog.Storage.{Table}
use slog.TxnHolder.Finalize.{finalize_and_release}
use slog.Worker.{Worker, TransactionState, Phase, Settings, Sent, txn_of, set_txn}
use slog.Worker.Steps.{
  set_phase, execute_remaster, report, finish_txn, run_code, run_program, execute_txn, execute_in,
  advance_execute,
}

-- The ids that go back to the scheduler.
abbrev pub dones : List Sent → List ℕ
dones [] = []
dones (Sent.done txn_id ∷ sent) = txn_id ∷ dones sent
dones (_ ∷ sent) = dones sent

pub dones-append : (xs ys : List Sent) → dones (xs ++ ys) ≡ dones xs ++ dones ys
dones-append [] ys = refl
dones-append (Sent.done t ∷ xs) ys = ap (◌∷◌ t) (dones-append xs ys)
dones-append (Sent.redirect t c ∷ xs) ys = dones-append xs ys
dones-append (Sent.stop_redirect t ∷ xs) ys = dones-append xs ys
dones-append (Sent.read_result r ds ∷ xs) ys = dones-append xs ys
dones-append (Sent.finished_subtxn t p d ∷ xs) ys = dones-append xs ys

abbrev pub States : Type 0
States = Map ℕ TransactionState

-- The transaction is gone, the others stay, and the scheduler is told once.
pub record Left (txn_id : ℕ) (before after : States) (sent : List Sent) : Type 0 where
  pub gone : (j : ℕ) → lookup j after ≡ (if nat_eq txn_id j then none else lookup j before)
  pub told : dones sent ≡ txn_id ∷ []

-- The transaction waits for that many results, the others stay, and the scheduler is told nothing.
pub record Waits (txn_id holder count : ℕ) (before after : States) (sent : List Sent) : Type 0 where
  pub there :
      (j : ℕ)
      → lookup j after ≡ (
          if nat_eq txn_id j
          then some (record {
            txn_holder = holder;
            remote_reads_waiting_on = count;
            phase = Phase.wait_remote_read;
          })
          else lookup j before)
  pub told : dones sent ≡ []

-- Others are not touched.
Apart : ℕ → States → States → Type 0
Apart txn_id before after = (j : ℕ) → nat_eq txn_id j ≡ false → lookup j after ≡ lookup j before

pub set_txn-states :
    (state : TransactionState) (txn : Transaction) (w w' : Worker)
    → set_txn state txn w ≡ some w'
    → w'.txn_states ≡ w.txn_states
set_txn-states state txn w w' e =
    let (h, there, rest) = >>=-eq-some (lookup state.txn_holder w.holders) _ e in ground arith

dones-report : (c : Settings) (txn : Transaction) → dones (report c txn) ≡ []
dones-report c txn = ground arith

finish_txn-Left :
    (c : Settings) (txn_id : ℕ) (w w' : Worker) (sent : List Sent)
    → finish_txn c txn_id w ≡ some (w', sent)
    → Left txn_id w.txn_states w'.txn_states sent
unfolding finish_txn
finish_txn-Left c txn_id w w' sent e =
    let (state, there, rest) = >>=-eq-some (lookup txn_id w.txn_states) _ e in
    let (h, there', rest') = >>=-eq-some (lookup state.txn_holder w.holders) _ rest in
    let ((txn, h'), final, rest'') = >>=-eq-some (finalize_and_release h) _ rest' in
    let states : erase_key txn_id w.txn_states ≡ w'.txn_states = ground arith in
    let out : report c txn ++ Sent.done txn_id ∷ [] ≡ sent = ground arith in
    record {
      gone = λ j. ap (lookup j) (sym states) ∙ lookup-erase_key txn_id j w.txn_states;
      told =
          ap dones (sym out)
          ∙ dones-append (report c txn) (Sent.done txn_id ∷ [])
          ∙ ap (λ x. x ++ txn_id ∷ []) (dones-report c txn);
    }

set_phase-Apart :
    (txn_id : ℕ) (p : Phase) (w w' : Worker)
    → set_phase txn_id p w ≡ some w'
    → Apart txn_id w.txn_states w'.txn_states
unfolding Apart
set_phase-Apart txn_id p w w' e j other =
    let (state, there, rest) = >>=-eq-some (lookup txn_id w.txn_states) _ e in
    ground (arith, lookup-insert txn_id j (record state { phase = p }) w.txn_states)

execute_remaster-states :
    (state : TransactionState) (new_master : ℕ) (txn : Transaction) (w w' : Worker)
    → execute_remaster state new_master txn w ≡ some w'
    → w'.txn_states ≡ w.txn_states
unfolding execute_remaster
execute_remaster-states state new_master txn w w' e =
    let committed = record txn { status = TransactionStatus.committed } in
    let (kv, first, rest) = >>=-eq-some (get_elem? txn.keys 0) _ e in
    let (w₁, set, rest') = >>=-eq-some (set_txn state committed w) _ rest in
    let (h, there, rest'') = >>=-eq-some (lookup state.txn_holder w₁.holders) _ rest' in
    ground (arith, set_txn-states state committed w w₁ set)

module _ (execute_code : Transaction → Table → Option (Transaction × Table)) where
  run_code-states :
      (state : TransactionState) (txn : Transaction) (w w' : Worker)
      → run_code execute_code state txn w ≡ some w'
      → w'.txn_states ≡ w.txn_states
  run_code-states state txn w w' e = elim (Bool-cases (is_aborted txn)) [
    | inl a ↦ ground arith
    | inr n ↦ elim (Option-cases (execute_code txn w.storage)) [
      | inl stopped ↦ absurd (ground arith)
      | inr ((txn', storage), ran) ↦
          set_txn-states state txn' (record w { storage = storage }) w' (ground arith)
    ]
  ]

  run_program-states :
      (p : Program) (state : TransactionState) (txn : Transaction) (w w' : Worker)
      → run_program execute_code p state txn w ≡ some w'
      → w'.txn_states ≡ w.txn_states
  unfolding run_program
  run_program-states Program.not_set state txn w w' e = absurd (ground arith)
  run_program-states (Program.code ps) state txn w w' e = run_code-states state txn w w' e
  run_program-states (Program.remaster new_master lo) state txn w w' e =
      execute_remaster-states state new_master txn w w' e

  execute_txn-Apart :
      (txn_id : ℕ) (w w' : Worker)
      → execute_txn execute_code txn_id w ≡ some w'
      → Apart txn_id w.txn_states w'.txn_states
  unfolding execute_txn Apart
  execute_txn-Apart txn_id w w' e j other =
      let (state, there, rest) = >>=-eq-some (lookup txn_id w.txn_states) _ e in
      let (txn, main, rest') = >>=-eq-some (txn_of state w) _ rest in
      let (w₁, ran, rest'') =
        >>=-eq-some (run_program execute_code txn.program state txn w) _ rest' in
      set_phase-Apart txn_id Phase.finish w₁ w' rest'' j other
      ∙ ap (lookup j) (run_program-states txn.program state txn w w₁ ran)

  execute_in-Apart :
      (p : Phase) (txn_id : ℕ) (w w' : Worker)
      → execute_in execute_code p txn_id w ≡ some w'
      → Apart txn_id w.txn_states w'.txn_states
  execute_in-Apart Phase.execute txn_id w w' e = execute_txn-Apart txn_id w w' e
  execute_in-Apart Phase.read_local_storage txn_id w w' e = unfold Apart in λ j o. ground arith
  execute_in-Apart Phase.wait_remote_read txn_id w w' e = unfold Apart in λ j o. ground arith
  execute_in-Apart Phase.finish txn_id w w' e = unfold Apart in λ j o. ground arith

  pub advance_execute-Left :
      (c : Settings) (txn_id : ℕ) (w w' : Worker) (sent : List Sent)
      → advance_execute execute_code c txn_id w ≡ some (w', sent)
      → Left txn_id w.txn_states w'.txn_states sent
  unfolding advance_execute Apart
  advance_execute-Left c txn_id w w' sent e =
      let (state, there, rest) = >>=-eq-some (lookup txn_id w.txn_states) _ e in
      let (w₁, ran, rest') = >>=-eq-some (execute_in execute_code state.phase txn_id w) _ rest in
      let apart = execute_in-Apart state.phase txn_id w w₁ ran in
      let left = finish_txn-Left c txn_id w₁ w' sent rest' in
      record { gone = λ j. ground (arith, left.gone j, apart j); told = left.told }
