-- ===== src/Worker/Stepping.antt =====
-- Where the steps of a worker leave a transaction.
use slog.Base.{
  zero, suc, ℕ, ◌+◌, ◌-◌, ◌%◌, ◌^◌, ◌<◌, ◌≡◌, refl, sym, ap, subst, some_inj, ◌∙◌, Option, some,
  List, [], ◌++◌, nat_eq, nat_Eq, if◌then◌else◌, >>=-eq-some, lookup, arith, Bool-cases, inl, inr,
}
use slog.Txn.{Transaction}
use slog.Storage.{Table}
use slog.Worker.{Worker, TransactionState, Phase, Settings, Sent, txn_of}
use slog.Worker.Reading.{read_local, num_remote_reads}
use slog.Worker.Steps.{wait_in, advance_in, advance_wait, advance, count_result}
use slog.Worker.Phases.{dones, dones-append, States, Left, Waits, advance_execute-Left}
use slog.Worker.Reads.{read_state, read_local-HasRead}

read_state-suc :
    (holder n : ℕ)
    → read_state holder (suc n) ≡ record {
      txn_holder = holder;
      remote_reads_waiting_on = suc n;
      phase = Phase.wait_remote_read;
    }
read_state-suc holder n = ground arith

pub count_result-Counted :
    (txn_id : ℕ) (s s' : TransactionState) (sent : List Sent)
    → s.phase ≡ Phase.wait_remote_read
    → 0 < s.remote_reads_waiting_on
    → s.remote_reads_waiting_on < 2 ^ 32
    → count_result txn_id s ≡ some (s', sent)
    → (s' ≡ read_state s.txn_holder (s.remote_reads_waiting_on - 1)) × (dones sent ≡ [])
unfolding count_result
count_result-Counted txn_id s s' sent waits some_left fits e =
    let left : (s.remote_reads_waiting_on + (2 ^ 32 - 1)) % 2 ^ 32 ≡ s.remote_reads_waiting_on - 1 =
      omega arith in
    elim (Bool-cases (nat_eq (s.remote_reads_waiting_on - 1) 0)) [
      | inl last ↦ (ground arith, ground arith)
      | inr more ↦ (ground arith, ground arith)
    ]

-- After a step of a transaction it is done, or it waits for so many results.
abbrev pub Stepped : ℕ → ℕ → ℕ → States → States → List Sent → Type 0
Stepped txn_id holder zero before after sent = Left txn_id before after sent
Stepped txn_id holder (suc n) before after sent = Waits txn_id holder (suc n) before after sent

pub Stepped-dones :
    (txn_id holder count : ℕ) (before after : States) (sent sent' : List Sent)
    → dones sent' ≡ dones sent
    → Stepped txn_id holder count before after sent
    → Stepped txn_id holder count before after sent'
Stepped-dones txn_id holder zero before after sent sent' e h = record {
  gone = h.gone;
  told = e ∙ h.told;
}
Stepped-dones txn_id holder (suc n) before after sent sent' e h = record {
  there = h.there;
  told = e ∙ h.told;
}

module _ (execute_code : Transaction → Table → Option (Transaction × Table)) where
  advance_wait-execute :
      (c : Settings) (txn_id : ℕ) (state : TransactionState) (w w' : Worker) (sent : List Sent)
      → lookup txn_id w.txn_states ≡ some state
      → state.phase ≡ Phase.execute
      → advance_wait execute_code c txn_id w ≡ some (w', sent)
      → Left txn_id w.txn_states w'.txn_states sent
  unfolding advance_wait
  advance_wait-execute c txn_id state w w' sent is phase e =
      let (state', there, rest) = >>=-eq-some (lookup txn_id w.txn_states) _ e in
      let same : state'.phase ≡ Phase.execute =
        ap (λ x. x.phase) (some_inj (sym there ∙ is)) ∙ phase in
      advance_execute-Left execute_code c txn_id w w' sent
        (subst (λ p. wait_in execute_code p c txn_id w ≡ some (w', sent)) same rest)

  advance_wait-wait :
      (c : Settings) (txn_id : ℕ) (state : TransactionState) (w w' : Worker) (sent : List Sent)
      → lookup txn_id w.txn_states ≡ some state
      → state.phase ≡ Phase.wait_remote_read
      → advance_wait execute_code c txn_id w ≡ some (w', sent)
      → (w ≡ w') × (dones sent ≡ [])
  unfolding advance_wait
  advance_wait-wait c txn_id state w w' sent is phase e =
      let (state', there, rest) = >>=-eq-some (lookup txn_id w.txn_states) _ e in
      let same : state'.phase ≡ Phase.wait_remote_read =
        ap (λ x. x.phase) (some_inj (sym there ∙ is)) ∙ phase in
      let out : some (w, []) ≡ some (w', sent) =
        subst (λ p. wait_in execute_code p c txn_id w ≡ some (w', sent)) same rest in
      (ap (λ x. x.0) (some_inj out), ap (λ x. dones x.1) (sym (some_inj out)))

  read_then :
      (c : Settings) (txn_id holder count : ℕ) (before : States) (w w' : Worker) (sent : List Sent)
      → ((j : ℕ)
          → lookup j w.txn_states
            ≡ (if nat_eq txn_id j then some (read_state holder count) else lookup j before))
      → advance_wait execute_code c txn_id w ≡ some (w', sent)
      → Stepped txn_id holder count before w'.txn_states sent
  read_then c txn_id holder zero before w w' sent there e =
      let left =
        advance_wait-execute c txn_id (read_state holder zero) w w' sent
          (there txn_id ∙ ground arith) refl e in
      record { gone = λ j. ground (arith, left.gone j, there j); told = left.told }
  read_then c txn_id holder (suc n) before w w' sent there e =
      let (same, quiet) =
        advance_wait-wait c txn_id (read_state holder (suc n)) w w' sent
          (there txn_id ∙ ground arith) (ground arith) e in
      record {
        there = λ j.
            ap (λ x. lookup j x.txn_states) (sym same)
            ∙ there j
            ∙ ap (λ x. if nat_eq txn_id j then some x else lookup j before)
                (read_state-suc holder n);
        told = quiet;
      }

  pub advance-counted :
      (c : Settings) (txn_id holder count : ℕ) (before : States) (w w' : Worker) (sent : List Sent)
      → ((j : ℕ)
          → lookup j w.txn_states
            ≡ (if nat_eq txn_id j then some (read_state holder count) else lookup j before))
      → advance execute_code c txn_id w ≡ some (w', sent)
      → Stepped txn_id holder count before w'.txn_states sent
  unfolding advance
  advance-counted c txn_id holder zero before w w' sent there e =
      let (state', is, rest) = >>=-eq-some (lookup txn_id w.txn_states) _ e in
      let at : some state' ≡ some (read_state holder zero) = sym is ∙ there txn_id ∙ ground arith in
      let same : state'.phase ≡ Phase.execute = ap (λ x. x.phase) (some_inj at) in
      let left =
        advance_execute-Left execute_code c txn_id w w' sent
          (subst (λ p. advance_in execute_code p c txn_id w ≡ some (w', sent)) same rest) in
      record { gone = λ j. ground (arith, left.gone j, there j); told = left.told }
  advance-counted c txn_id holder (suc n) before w w' sent there e =
      let (state', is, rest) = >>=-eq-some (lookup txn_id w.txn_states) _ e in
      let waits : some (read_state holder (suc n))
          ≡ some (record {
            txn_holder = holder;
            remote_reads_waiting_on = suc n;
            phase = Phase.wait_remote_read;
          }) =
        ap some (read_state-suc holder n) in
      let at : some state' ≡ some (read_state holder (suc n)) =
        sym is ∙ there txn_id ∙ ground arith in
      let same : state'.phase ≡ Phase.wait_remote_read =
        ap (λ x. x.phase) (some_inj (at ∙ waits)) in
      read_then c txn_id holder (suc n) before w w' sent there
        (subst (λ p. advance_in execute_code p c txn_id w ≡ some (w', sent)) same rest)

  pub advance-read :
      (c : Settings) (txn_id : ℕ) (state : TransactionState) (w w' : Worker) (sent : List Sent)
      → lookup txn_id w.txn_states ≡ some state
      → state.phase ≡ Phase.read_local_storage
      → advance execute_code c txn_id w ≡ some (w', sent)
      → (txn : Transaction) × (txn_of state w ≡ some txn)
        × Stepped txn_id state.txn_holder (num_remote_reads c txn) w.txn_states w'.txn_states sent
  unfolding advance
  advance-read c txn_id state w w' sent is phase e =
      let (state', there, rest) = >>=-eq-some (lookup txn_id w.txn_states) _ e in
      let same : state'.phase ≡ Phase.read_local_storage =
        ap (λ x. x.phase) (some_inj (sym there ∙ is)) ∙ phase in
      let read = subst (λ p. advance_in execute_code p c txn_id w ≡ some (w', sent)) same rest in
      let ((w₁, sent₁), reads, rest') = >>=-eq-some (read_local c txn_id w) _ read in
      let ((w₂, sent₂), waits, rest'') =
        >>=-eq-some (advance_wait execute_code c txn_id w₁) _ rest' in
      let has = read_local-HasRead c txn_id state w w₁ sent₁ is reads in
      let next =
        read_then c txn_id state.txn_holder (num_remote_reads c has.txn) w.txn_states w₁ w₂ sent₂
          has.there waits in
      let all : sent₁ ++ sent₂ ≡ sent = ground arith in
      let last : w₂ ≡ w' = ground arith in
      (
        has.txn,
        has.main,
        subst
            (λ x.
              Stepped txn_id state.txn_holder (num_remote_reads c has.txn) w.txn_states x.txn_states
                sent)
            last
            (Stepped-dones txn_id state.txn_holder (num_remote_reads c has.txn) w.txn_states
              w₂.txn_states sent₂ sent
              (ap dones (sym all) ∙ dones-append sent₁ sent₂ ∙ ap (λ x. x ++ dones sent₂) has.told)
              next),
      )
