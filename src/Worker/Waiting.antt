-- ===== src/Worker/Waiting.antt =====
-- Which transactions a worker keeps between its messages, and when it is done with one.
use slog.Base.{
  zero, suc, ℕ, ◌-◌, ◌^◌, ◌<◌, ◌≡◌, refl, sym, ap, ap₂, subst, ◌∙◌, false, Option, none, some, List,
  [], ◌∷◌, ◌++◌, nat_eq, nat_Eq, if◌then◌else◌, ◌>>=◌, >>=-eq-some, Map, get_or, lookup, insert,
  lookup-insert, arith, Bool-cases, Option-cases, inl, inr,
}
use slog.Txn.{Transaction}
use slog.Storage.{Table}
use slog.TxnHolder.{TxnHolder}
use slog.Worker.{Worker, TransactionState, Phase, Settings, RemoteReadResult, Sent, txn_of, set_txn}
use slog.Worker.Reading.{num_remote_reads}
use slog.Worker.Steps.{
  new_state, advance, on_dispatched, count_result, apply_result, answer, on_read_result,
}
use slog.Worker.Phases.{dones, dones-append, States, set_txn-states}
use slog.Worker.Stepping.{
  Stepped, Stepped-dones, advance-counted, advance-read, count_result-Counted,
}

-- Where a transaction stands that is between two messages: it waits for at least one result.
abbrev pub Waiting : TransactionState → Type 0
Waiting s =
    (s.phase ≡ Phase.wait_remote_read)
    × (0 < s.remote_reads_waiting_on)
    × (s.remote_reads_waiting_on < 2 ^ 32)

abbrev pub AllWaiting : States → Type 0
AllWaiting states = (j : ℕ) (s : TransactionState) → lookup j states ≡ some s → Waiting s

Stepped-AllWaiting :
    (txn_id holder count : ℕ) (before after : States) (sent : List Sent)
    → count < 2 ^ 32
    → ((j : ℕ) (s : TransactionState)
        → nat_eq txn_id j ≡ false
        → lookup j before ≡ some s
        → Waiting s)
    → Stepped txn_id holder count before after sent
    → AllWaiting after
Stepped-AllWaiting txn_id holder zero before after sent lt others h j s e =
    elim (Bool-cases (nat_eq txn_id j)) [
      | inl same ↦ absurd (ground (arith, h.gone j))
      | inr other ↦ others j s other (ground (arith, h.gone j))
    ]
Stepped-AllWaiting txn_id holder (suc n) before after sent lt others h j s e =
    elim (Bool-cases (nat_eq txn_id j)) [
      | inl same ↦
          (let is : record {
            txn_holder = holder;
            remote_reads_waiting_on = suc n;
            phase = Phase.wait_remote_read;
          }
                ≡ s =
              ground (arith, h.there j) in
            subst Waiting is (refl, omega arith, lt))
      | inr other ↦ others j s other (ground (arith, h.there j))
    ]

-- What a result does, to a transaction that the worker has or has not.
abbrev pub Answered : ℕ → Option TransactionState → Worker → Worker → List Sent → Type 0
Answered txn_id none w w' sent = (w' ≡ w) × (sent ≡ [])
Answered txn_id (some s) w w' sent =
    Stepped txn_id s.txn_holder (s.remote_reads_waiting_on - 1) w.txn_states w'.txn_states sent

module _ (execute_code : Transaction → Table → Option (Transaction × Table)) where
  answered_some :
      (c : Settings) (r : RemoteReadResult) (state : TransactionState) (w w' : Worker)
      (sent : List Sent)
      → Waiting state
      → answer execute_code c r state w ≡ some (w', sent)
      → Stepped r.txn_id state.txn_holder
          (state.remote_reads_waiting_on - 1)
          w.txn_states
          w'.txn_states
          sent
  unfolding answer
  answered_some c r state w w' sent (waits, some_left, fits) e =
      let (txn, main, rest) = >>=-eq-some (txn_of state w) _ e in
      let (w₁, set, rest₁) = >>=-eq-some (set_txn state (apply_result r txn) w) _ rest in
      let ((state', sent₁), counts, rest₂) = >>=-eq-some (count_result r.txn_id state) _ rest₁ in
      let w₁' = record w₁ { txn_states = insert r.txn_id state' w₁.txn_states } in
      let ((w₂, sent₂), advances, rest₃) =
        >>=-eq-some (advance execute_code c r.txn_id w₁') _ rest₂ in
      let all : sent₁ ++ sent₂ ≡ sent = ground arith in
      let last : w₂ ≡ w' = ground arith in
      let counted = count_result-Counted r.txn_id state state' sent₁ waits some_left fits counts in
      subst
        (λ x.
          Stepped r.txn_id state.txn_holder (state.remote_reads_waiting_on - 1) w.txn_states
            x.txn_states sent)
        last
        (Stepped-dones r.txn_id state.txn_holder (state.remote_reads_waiting_on - 1) w.txn_states
          w₂.txn_states sent₂ sent
          (ap dones (sym all) ∙ dones-append sent₁ sent₂ ∙ ap (λ x. x ++ dones sent₂) counted.1)
          (advance-counted execute_code c r.txn_id state.txn_holder
            (state.remote_reads_waiting_on - 1) w.txn_states w₁' w₂ sent₂
            (λ j.
              lookup-insert r.txn_id j state' w₁.txn_states
              ∙ ap₂ (λ x y. if nat_eq r.txn_id j then some x else lookup j y) counted.0
                  (set_txn-states state (apply_result r txn) w w₁ set))
            advances))

  pub on_read_result-Answered :
      (c : Settings) (r : RemoteReadResult) (w w' : Worker) (sent : List Sent)
      → AllWaiting w.txn_states
      → on_read_result execute_code c r w ≡ some (w', sent)
      → Answered r.txn_id (lookup r.txn_id w.txn_states) w w' sent
  unfolding on_read_result
  on_read_result-Answered c r w w' sent all e = elim (Option-cases (lookup r.txn_id w.txn_states)) [
    | inl gone ↦ rw gone (ground arith, ground arith)
    | inr (state, found) ↦
        rw found (answered_some c r state w w' sent (all r.txn_id state found) (ground arith))
  ]

  on_read_result-AllWaiting :
      (c : Settings) (r : RemoteReadResult) (w w' : Worker) (sent : List Sent)
      → AllWaiting w.txn_states
      → on_read_result execute_code c r w ≡ some (w', sent)
      → AllWaiting w'.txn_states
  on_read_result-AllWaiting c r w w' sent all e =
      after_answer (lookup r.txn_id w.txn_states) refl (on_read_result-Answered c r w w' sent all e)
    where
      after_answer :
          (o : Option TransactionState)
          → lookup r.txn_id w.txn_states ≡ o
          → Answered r.txn_id o w w' sent
          → AllWaiting w'.txn_states
      after_answer none is h = subst (λ x. AllWaiting x.txn_states) (sym h.0) all
      after_answer (some s) is h =
          Stepped-AllWaiting r.txn_id s.txn_holder (s.remote_reads_waiting_on - 1) w.txn_states
            w'.txn_states sent (let (p, pos, fits) = all r.txn_id s is in omega arith)
            (λ j t other. all j t) h

  on_dispatched-AllWaiting :
      (c : Settings) (txn_holder : ℕ) (w w' : Worker) (sent : List Sent)
      → AllWaiting w.txn_states
      → on_dispatched execute_code c txn_holder w ≡ some (w', sent)
      → AllWaiting w'.txn_states
  unfolding on_dispatched
  on_dispatched-AllWaiting c txn_holder w w' sent all e =
      let (txn, main, rest) = >>=-eq-some (txn_of (new_state txn_holder) w) _ e in
      let id = txn.internal.id in
      let start : TransactionState = record (get_or id (new_state txn_holder) w.txn_states) {
        phase = Phase.read_local_storage;
      } in
      let w₁ = record w { txn_states = insert id start w.txn_states } in
      let (txn', main', step) =
        advance-read execute_code c id start w₁ w' sent
          (lookup-insert id id start w.txn_states ∙ ground arith) refl rest in
      Stepped-AllWaiting id start.txn_holder (num_remote_reads c txn') w₁.txn_states w'.txn_states
        sent (ground arith)
        (λ j s other found.
          all j s (sym (lookup-insert id j start w.txn_states ∙ ground arith) ∙ found))
        step

-- What happens to a worker: a dispatched holder, a read result, or a change of the holders and the
-- storage by the scheduler and the other workers.
pub data Happening : Type 0 where
  dispatched : (txn_holder : ℕ) → Happening
  received : RemoteReadResult → Happening
  shared : Map ℕ TxnHolder → Table → Happening

module _ (execute_code : Transaction → Table → Option (Transaction × Table)) where
  unfoldable pub run : Settings → List Happening → Worker → Option Worker
  run c [] w = some w
  run c (dispatched h ∷ more) w = do (w', sent) ← on_dispatched execute_code c h w; run c more w'
  run c (received r ∷ more) w = do (w', sent) ← on_read_result execute_code c r w; run c more w'
  run c (shared holders storage ∷ more) w =
      run c more (record w { holders = holders; storage = storage })

  -- If a worker has only transactions in the phase WAIT_REMOTE_READ that wait for at least one result,
  -- as one without transactions has, then so it has after any messages in any order that it handles,
  -- whatever others do to the holders and to the storage meanwhile.
  pub run-AllWaiting :
      (c : Settings) (hs : List Happening) (w w' : Worker)
      → AllWaiting w.txn_states
      → run c hs w ≡ some w'
      → AllWaiting w'.txn_states
  unfolding run
  run-AllWaiting c [] w w' all e =
      subst (λ x. AllWaiting x.txn_states) {x = w} {y = w'} (ground arith) all
  run-AllWaiting c (dispatched h ∷ more) w w' all e =
      let ((w₁, sent), first, rest) = >>=-eq-some (on_dispatched execute_code c h w) _ e in
      run-AllWaiting c more w₁ w' (on_dispatched-AllWaiting execute_code c h w w₁ sent all first)
        rest
  run-AllWaiting c (received r ∷ more) w w' all e =
      let ((w₁, sent), first, rest) = >>=-eq-some (on_read_result execute_code c r w) _ e in
      run-AllWaiting c more w₁ w' (on_read_result-AllWaiting execute_code c r w w₁ sent all first)
        rest
  run-AllWaiting c (shared holders storage ∷ more) w w' all e =
      run-AllWaiting c more (record w { holders = holders; storage = storage }) w' all e
