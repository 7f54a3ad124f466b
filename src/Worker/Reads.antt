-- ===== src/Worker/Reads.antt =====
-- What the local reads of a transaction do to the states of a worker.
use slog.Base.{
  ℕ, ◌+◌, ◌-◌, ◌%◌, ◌^◌, ◌≡◌, refl, sym, ap, ap₂, subst, some_inj, elem, length, ◌∙◌, Bool, true,
  false, Option, none, some, List, [], ◌∷◌, ◌++◌, nat_eq, nat_Eq, if◌then◌else◌, ◌>>=◌, >>=-eq-some,
  lookup, insert, lookup-insert, arith, Bool-cases, inl, inr,
}
use slog.Txn.{KeyValueEntry, is_remaster, Transaction}
use slog.ProtoUtils.Merge.{is_aborted}
use slog.Storage.{Table}
use slog.Worker.{Worker, TransactionState, Phase, Settings, Sent, txn_of, set_txn}
use slog.Remaster.{VerifyMasterResult, check_counters}
use slog.Storage.{get_master_metadata}
use slog.Worker.Reading.{
  verified, with_reads, read_keys, check_counters_of, read_local, read_into, num_remote_reads,
  notify_other_partitions,
}
use slog.Worker.Phases.{dones, set_txn-states}

verified-internal :
    (r : VerifyMasterResult) (txn txn' : Transaction)
    → verified r txn ≡ some txn'
    → txn'.internal ≡ txn.internal
verified-internal VerifyMasterResult.valid txn txn' e = ground arith
verified-internal VerifyMasterResult.abort txn txn' e = ground arith
verified-internal VerifyMasterResult.waiting txn txn' e = absurd (ground arith)

with_reads-internal :
    (txn : Transaction) (r : List KeyValueEntry × Option (List ℕ))
    → (with_reads txn r).internal ≡ txn.internal
with_reads-internal txn (keys, none) = refl
with_reads-internal txn (keys, some reason) = refl

checked-internal :
    (checks : Bool) (storage : Table) (txn txn' : Transaction)
    → (if checks then check_counters_of storage txn else some txn) ≡ some txn'
    → txn'.internal ≡ txn.internal
unfolding check_counters_of
checked-internal false storage txn txn' e = ground arith
checked-internal true storage txn txn' e =
    let (result, done, rest) =
      >>=-eq-some (check_counters (λ key. get_master_metadata key storage) false txn) _ e in
    verified-internal result txn txn' rest

-- What is read does not change what a transaction says about itself.
read_into-internal :
    (checks : Bool) (storage : Table) (txn txn' : Transaction)
    → read_into checks storage txn ≡ some txn'
    → txn'.internal ≡ txn.internal
unfolding read_into check_counters_of
read_into-internal checks storage txn txn' e = elim (Bool-cases (is_aborted txn)) [
  | inl a ↦ ground arith
  | inr n ↦
      (let reads : (do
        checked ← if checks then check_counters_of storage txn else some txn
        some (with_reads checked (read_keys storage (is_remaster checked) checked.keys)))
            ≡ some txn' =
          ground arith in
        let (checked, done, rest) =
          >>=-eq-some (if checks then check_counters_of storage txn else some txn) _ reads in
        let same : with_reads checked (read_keys storage (is_remaster checked) checked.keys)
            ≡ txn' =
          ground arith in
        sym (ap (λ t. t.internal) same)
        ∙ with_reads-internal checked (read_keys storage (is_remaster checked) checked.keys)
        ∙ checked-internal checks storage txn checked done)
]

-- The state of a transaction after its local reads.
abbrev pub read_state : ℕ → ℕ → TransactionState
read_state holder count = record {
  txn_holder = holder;
  remote_reads_waiting_on = count;
  phase = if nat_eq count 0 then Phase.execute else Phase.wait_remote_read;
}

-- A transaction has read: it waits for the results that it needs, or is to be executed.
pub record HasRead (c : Settings) (txn_id : ℕ) (state : TransactionState) (w w' : Worker)
    (sent : List Sent) : Type 0 where
  pub txn : Transaction
  pub main : txn_of state w ≡ some txn
  pub there :
      (j : ℕ)
      → lookup j w'.txn_states ≡ (
          if nat_eq txn_id j
          then some (read_state state.txn_holder (num_remote_reads c txn))
          else lookup j w.txn_states)
  pub told : dones sent ≡ []

dones-read :
    (c : Settings) (txn_id : ℕ) (txn : Transaction) (ready : Bool)
    → dones (
        notify_other_partitions c txn_id txn
        ++ (if ready then [] else Sent.redirect txn_id c.channel ∷ []))
      ≡ []
unfolding notify_other_partitions
dones-read c txn_id txn ready = ground arith

pub read_local-HasRead :
    (c : Settings) (txn_id : ℕ) (state : TransactionState) (w w' : Worker) (sent : List Sent)
    → lookup txn_id w.txn_states ≡ some state
    → read_local c txn_id w ≡ some (w', sent)
    → HasRead c txn_id state w w' sent
unfolding read_local
read_local-HasRead c txn_id state w w' sent is e =
    let (state', there, rest) = >>=-eq-some (lookup txn_id w.txn_states) _ e in
    let same : state' ≡ state = some_inj (sym there ∙ is) in
    let (before, main, rest') = >>=-eq-some (txn_of state' w) _ rest in
    let (txn, reads, rest'') = >>=-eq-some (read_into c.checks_counters w.storage before) _ rest' in
    let (w₁, set, rest₃) = >>=-eq-some (set_txn state' txn w) _ rest'' in
    let internal = read_into-internal c.checks_counters w.storage before txn reads in
    let count : num_remote_reads c txn ≡ num_remote_reads c before =
      ap
        (λ i.
          if elem c.local_partition i.active_partitions
          then (length i.involved_partitions + (2 ^ 32 - 1)) % 2 ^ 32
          else 0)
        internal in
    let states : insert txn_id (read_state state'.txn_holder (num_remote_reads c txn)) w₁.txn_states
        ≡ w'.txn_states =
      ground arith in
    let out : notify_other_partitions c txn_id txn
          ++ (if nat_eq (num_remote_reads c txn) 0 then [] else Sent.redirect txn_id c.channel ∷ [])
        ≡ sent =
      ground arith in
    record {
      txn = before;
      main = subst (λ x. txn_of x w ≡ some before) same main;
      there = λ j.
          ap (lookup j) (sym states)
          ∙ lookup-insert txn_id j (read_state state'.txn_holder (num_remote_reads c txn))
              w₁.txn_states
          ∙ ap₂ (λ x y. if nat_eq txn_id j then some x else lookup j y)
              (ap₂ read_state (ap (λ x. x.txn_holder) same) count)
              (set_txn-states state' txn w w₁ set);
      told = ap dones (sym out) ∙ dones-read c txn_id txn (nat_eq (num_remote_reads c txn) 0);
    }
