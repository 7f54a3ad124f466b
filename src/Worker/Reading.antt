-- ===== src/Worker/Reading.antt =====
-- module/scheduler_components/worker.cpp, ReadLocalStorage and NotifyOtherPartitions.
use slog.Base.{
  ℕ, ◌+◌, ◌-◌, ◌%◌, ◌^◌, Bool, false, Option, none, some, List, [], ◌∷◌, ◌++◌, nat_eq, nat_Eq,
  is_empty, elem, length, if◌then◌else◌, ◌>>=◌, lookup, insert, ℤ,
}
use slog.Txn.{KeyValueEntry, Transaction, TransactionStatus, metadata, is_remaster}
use slog.Config.{make_machine_id}
use slog.Storage.{Table, read, get_master_metadata}
use slog.Remaster.{VerifyMasterResult, check_counters}
use slog.ProtoUtils.Merge.{is_aborted}
use slog.Worker.{Worker, Phase, Settings, Sent, txn_of, set_txn}

abbrev pub abort_with : List ℕ → Transaction → Transaction
abort_with reason txn = record txn { status = TransactionStatus.aborted; abort_reason = reason }

abbrev pub outdated_counter : List ℕ
outdated_counter =
    b'O' ∷ b'u' ∷ b't' ∷ b'd' ∷ b'a' ∷ b't' ∷ b'e' ∷ b'd' ∷ b' ' ∷ b'c' ∷ b'o' ∷ b'u' ∷ b'n' ∷ b't'
    ∷ b'e' ∷ b'r' ∷ []

abbrev pub outdated_master : List ℕ
outdated_master =
    b'O' ∷ b'u' ∷ b't' ∷ b'd' ∷ b'a' ∷ b't' ∷ b'e' ∷ b'd' ∷ b' ' ∷ b'm' ∷ b'a' ∷ b's' ∷ b't' ∷ b'e'
    ∷ b'r' ∷ []

abbrev pub remaster_missing : List ℕ → List ℕ
remaster_missing key =
    (b'R' ∷ b'e' ∷ b'm' ∷ b'a' ∷ b's' ∷ b't' ∷ b'e' ∷ b'r' ∷ b' ' ∷ b'n' ∷ b'o' ∷ b'n' ∷ b'-' ∷ b'e'
      ∷ b'x' ∷ b'i' ∷ b's' ∷ b't' ∷ b'e' ∷ b'n' ∷ b't' ∷ b' ' ∷ b'k' ∷ b'e' ∷ b'y' ∷ b' ' ∷ [])
    ++ key

-- The switch on the check of the counters; a transaction that is ahead is fatal.
abbrev pub verified : VerifyMasterResult → Transaction → Option Transaction
verified VerifyMasterResult.valid txn = some txn
verified VerifyMasterResult.abort txn = some (abort_with outdated_counter txn)
verified VerifyMasterResult.waiting txn = none

-- The check, if the protocol has counters.
unfoldable pub check_counters_of : Table → Transaction → Option Transaction
check_counters_of storage txn = do
  result ← check_counters (λ key. get_master_metadata key storage) false txn
  verified result txn

-- The keys with the values read so far, and the reason where the loop breaks off.
unfoldable pub read_keys : Table → Bool → List KeyValueEntry → List KeyValueEntry × Option (List ℕ)
read_keys storage remaster [] = ([], none)
read_keys storage remaster (kv ∷ kvs) =
    let (rest, reason) = read_keys storage remaster kvs in
    elim (read kv.key storage) [
      | some found ↦
          if nat_eq (metadata kv.value_entry).master found.metadata.master
          then (
            record kv { value_entry = record kv.value_entry { value = found.value } } ∷ rest,
            reason,
          )
          else (kv ∷ kvs, some outdated_master)
      | none ↦ if remaster then (kv ∷ kvs, some (remaster_missing kv.key)) else (kv ∷ rest, reason)
    ]

abbrev pub with_reads : Transaction → List KeyValueEntry × Option (List ℕ) → Transaction
with_reads txn (keys, none) = record txn { keys = keys }
with_reads txn (keys, some reason) = abort_with reason (record txn { keys = keys })

-- What is read goes into the transaction, unless it is aborted. A transaction whose counters are
-- outdated reads on.
unfoldable pub read_into : Bool → Table → Transaction → Option Transaction
unfolding read_keys check_counters_of
read_into checks_counters storage txn = if is_aborted txn then some txn else (do
  checked ← if checks_counters then check_counters_of storage txn else some txn
  some (with_reads checked (read_keys storage (is_remaster checked) checked.keys)))

abbrev pub destinations : Settings → List ℕ → List ℤ
destinations c [] = []
destinations c (p ∷ ps) =
    if nat_eq p c.local_partition
    then destinations c ps
    else make_machine_id c.num_partitions c.local_replica p ∷ destinations c ps

-- `NotifyOtherPartitions`
unfoldable pub notify_other_partitions : Settings → ℕ → Transaction → List Sent
notify_other_partitions c txn_id txn =
    if is_empty txn.internal.active_partitions
    then []
    else Sent.read_result
        (record {
          txn_id = txn_id;
          partition = c.local_partition;
          will_abort = is_aborted txn;
          abort_reason = txn.abort_reason;
          reads = if is_aborted txn then [] else txn.keys;
        })
        (destinations c txn.internal.active_partitions)
      ∷ []

-- The results that a partition waits for; the number is a uint32.
abbrev pub num_remote_reads : Settings → Transaction → ℕ
num_remote_reads c txn =
    if elem c.local_partition txn.internal.active_partitions
    then (length txn.internal.involved_partitions + (2 ^ 32 - 1)) % 2 ^ 32
    else 0

-- `ReadLocalStorage`
unfoldable pub read_local : Settings → ℕ → Worker → Option (Worker × List Sent)
unfolding read_into notify_other_partitions
read_local c txn_id w = do
  state ← lookup txn_id w.txn_states
  before ← txn_of state w
  txn ← read_into c.checks_counters w.storage before
  w' ← set_txn state txn w
  let waiting_on = num_remote_reads c txn
  let ready = nat_eq waiting_on 0
  some (
    record w' {
      txn_states =
          insert txn_id
            (record state {
              remote_reads_waiting_on = waiting_on;
              phase = if ready then Phase.execute else Phase.wait_remote_read;
            })
            w'.txn_states;
    },
    notify_other_partitions c txn_id txn
        ++ (if ready then [] else Sent.redirect txn_id c.channel ∷ []),
  )
