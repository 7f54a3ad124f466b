-- ===== src/Worker/Steps.antt =====
-- module/scheduler_components/worker.cpp, the phases from EXECUTE on and the two handlers. What the
-- procedures of a transaction do is the parameter `execute_code`; a LOG(FATAL) is `none`.
use slog.Base.{
  ℕ, ◌+◌, ◌-◌, ◌%◌, ◌^◌, false, Option, none, some, List, [], ◌∷◌, ◌++◌, nat_eq, nat_Eq, bytes_Eq,
  get_or, get_elem?, if◌then◌else◌, ◌>>=◌, lookup, insert, erase_key, pos,
}
use slog.Txn.{KeyValueEntry, Transaction, TransactionStatus, Program, metadata}
use slog.Config.{unpack_machine_id}
use slog.Storage.{Table, Record, empty_record, write}
use slog.ProtoUtils.Merge.{is_aborted}
use slog.TxnHolder.{set_remaster_result}
use slog.TxnHolder.Finalize.{finalize_and_release}
use slog.Worker.{Worker, TransactionState, Phase, Settings, RemoteReadResult, Sent, txn_of, set_txn}
use slog.Worker.Reading.{read_local, abort_with}

-- `TransactionState(txn_holder)`
abbrev pub new_state : ℕ → TransactionState
new_state txn_holder = record {
  txn_holder = txn_holder;
  remote_reads_waiting_on = 0;
  phase = Phase.read_local_storage;
}

-- The new record of a remastered key, and its counter.
abbrev pub remastered : ℕ → KeyValueEntry → Table → Record × ℕ
remastered new_master kv storage =
    let counter = ((metadata kv.value_entry).counter + 1) % 2 ^ 32 in
    (
      record (get_or kv.key empty_record storage) {
        metadata = record { master = new_master; counter = counter };
      },
      counter,
    )

abbrev pub set_phase : ℕ → Phase → Worker → Option Worker
set_phase txn_id phase w = do
  state ← lookup txn_id w.txn_states
  some (record w { txn_states = insert txn_id (record state { phase = phase }) w.txn_states })

-- The branch of a remaster: the first key gets its new master.
unfoldable pub execute_remaster : TransactionState → ℕ → Transaction → Worker → Option Worker
execute_remaster state new_master txn w = do
  kv ← get_elem? txn.keys 0
  let (new_record, counter) = remastered new_master kv w.storage
  w' ← set_txn state (record txn { status = TransactionStatus.committed }) w
  h ← lookup state.txn_holder w'.holders
  some (record w' {
    holders = insert state.txn_holder (set_remaster_result kv.key counter h) w'.holders;
    storage = write kv.key new_record w'.storage;
  })

-- The request to the server at the coordinator, if that is in this region.
abbrev pub report : Settings → Transaction → List Sent
report c txn =
    let coordinator = txn.internal.coordinating_server in
    let (replica, partition) = unpack_machine_id c.num_partitions (pos coordinator) in
    if nat_eq replica c.local_replica
    then Sent.finished_subtxn
        (if c.return_dummy_txn
          then record txn { keys = []; program = Program.remaster 0 false }
          else txn)
        c.local_partition coordinator
      ∷ []
    else []

-- `Finish`
unfoldable pub finish_txn : Settings → ℕ → Worker → Option (Worker × List Sent)
finish_txn c txn_id w = do
  state ← lookup txn_id w.txn_states
  h ← lookup state.txn_holder w.holders
  (txn, h') ← finalize_and_release h
  some (
    record w {
      txn_states = erase_key txn_id w.txn_states;
      holders = insert state.txn_holder h' w.holders;
    },
    report c txn ++ Sent.done txn_id ∷ [],
  )

-- What a read result does to the transaction.
abbrev pub apply_result : RemoteReadResult → Transaction → Transaction
apply_result r txn =
    if is_aborted txn
    then txn
    else if r.will_abort
    then abort_with r.abort_reason txn
    else record txn { keys = txn.keys ++ r.reads }

-- The last result moves a state on; another phase than WAIT_REMOTE_READ is fatal then.
abbrev pub all_arrived : Phase → Option Phase
all_arrived Phase.wait_remote_read = some Phase.execute
all_arrived _ = none

-- A state after a result.
unfoldable pub count_result : ℕ → TransactionState → Option (TransactionState × List Sent)
count_result txn_id state =
    let left = (state.remote_reads_waiting_on + (2 ^ 32 - 1)) % 2 ^ 32 in
    if nat_eq left 0
    then (do
      phase ← all_arrived state.phase
      some (
        record state { remote_reads_waiting_on = left; phase = phase },
        Sent.stop_redirect txn_id ∷ [],
      ))
    else some (record state { remote_reads_waiting_on = left }, [])

module _ (execute_code : Transaction → Table → Option (Transaction × Table)) where
  abbrev pub run_code : TransactionState → Transaction → Worker → Option Worker
  run_code state txn w = if is_aborted txn then some w else (do
    (txn', storage) ← execute_code txn w.storage
    set_txn state txn' (record w { storage = storage }))

  -- The switch on the program.
  unfoldable pub run_program : Program → TransactionState → Transaction → Worker → Option Worker
  unfolding execute_remaster
  run_program Program.not_set state txn w = none
  run_program (Program.code ps) state txn w = run_code state txn w
  run_program (Program.remaster new_master lock_only) state txn w =
      execute_remaster state new_master txn w

  -- `Execute`
  unfoldable pub execute_txn : ℕ → Worker → Option Worker
  unfolding run_program
  execute_txn txn_id w = do
    state ← lookup txn_id w.txn_states
    txn ← txn_of state w
    w' ← run_program txn.program state txn w
    set_phase txn_id Phase.finish w'

  abbrev pub execute_in : Phase → ℕ → Worker → Option Worker
  execute_in Phase.execute txn_id w = execute_txn txn_id w
  execute_in _ txn_id w = some w

  -- `AdvanceTransaction` from the phase EXECUTE on.
  unfoldable pub advance_execute : Settings → ℕ → Worker → Option (Worker × List Sent)
  unfolding execute_txn finish_txn
  advance_execute c txn_id w = do
    state ← lookup txn_id w.txn_states
    w' ← execute_in state.phase txn_id w
    finish_txn c txn_id w'

  abbrev pub wait_in : Phase → Settings → ℕ → Worker → Option (Worker × List Sent)
  wait_in Phase.wait_remote_read c txn_id w = some (w, [])
  wait_in _ c txn_id w = advance_execute c txn_id w

  -- From the phase WAIT_REMOTE_READ on.
  unfoldable pub advance_wait : Settings → ℕ → Worker → Option (Worker × List Sent)
  unfolding advance_execute
  advance_wait c txn_id w = do state ← lookup txn_id w.txn_states; wait_in state.phase c txn_id w

  abbrev pub advance_read : Settings → ℕ → Worker → Option (Worker × List Sent)
  advance_read c txn_id w = do
    (w', sent) ← read_local c txn_id w
    (w'', sent') ← advance_wait c txn_id w'
    some (w'', sent ++ sent')

  abbrev pub advance_in : Phase → Settings → ℕ → Worker → Option (Worker × List Sent)
  advance_in Phase.read_local_storage c txn_id w = advance_read c txn_id w
  advance_in Phase.wait_remote_read c txn_id w = advance_wait c txn_id w
  advance_in Phase.execute c txn_id w = advance_execute c txn_id w
  advance_in Phase.finish c txn_id w = finish_txn c txn_id w

  -- `AdvanceTransaction`
  unfoldable pub advance : Settings → ℕ → Worker → Option (Worker × List Sent)
  unfolding advance_wait
  advance c txn_id w = do state ← lookup txn_id w.txn_states; advance_in state.phase c txn_id w

  -- `OnCustomSocket`, for a holder that the scheduler has dispatched.
  unfoldable pub on_dispatched : Settings → ℕ → Worker → Option (Worker × List Sent)
  unfolding advance
  on_dispatched c txn_holder w = do
    txn ← txn_of (new_state txn_holder) w
    let txn_id = txn.internal.id
    let state = get_or txn_id (new_state txn_holder) w.txn_states
    advance c txn_id (record w {
      txn_states = insert txn_id (record state { phase = Phase.read_local_storage }) w.txn_states;
    })

  -- A result for a transaction that the worker has.
  unfoldable pub answer :
      Settings → RemoteReadResult → TransactionState → Worker → Option (Worker × List Sent)
  unfolding advance count_result
  answer c r state w = do
    txn ← txn_of state w
    w' ← set_txn state (apply_result r txn) w
    (state', sent) ← count_result r.txn_id state
    (w'', sent') ←
        advance c r.txn_id (record w' { txn_states = insert r.txn_id state' w'.txn_states })
    some (w'', sent ++ sent')

  -- `OnInternalRequestReceived`
  unfoldable pub on_read_result : Settings → RemoteReadResult → Worker → Option (Worker × List Sent)
  unfolding answer
  on_read_result c r w = elim (lookup r.txn_id w.txn_states) [
    | none ↦ some (w, [])
    | some state ↦ answer c r state w
  ]
