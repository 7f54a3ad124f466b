-- ===== src/Locks/Rma.antt =====
-- module/scheduler_components/rma_lock_manager.h and .cpp, the class RMALockManager: the locks of a
-- partition, kept for each key and region. The `DCHECK`s, which a release build leaves out, are not
-- modelled; a grantee that has no entry, where the code would follow a missing iterator, is `none`.
pub mod Table
pub mod Invariant
pub mod Runs
mod Tests
use slog.Base.{
  ℕ, ◌+◌, ◌-◌, ◌%◌, ◌^◌, Bool, true, false, not, ◌&&◌, ◌||◌, Option, none, some, List, [], ◌∷◌,
  ◌++◌, Map, has, get_or, lookup, insert, erase_key, nat_Eq, bytes_Eq, sort_unique, if◌then◌else◌,
  ◌>>=◌, ℤ, pos, is_zero, ◌+ℤ◌, ◌-ℤ◌, length,
}
use slog.Txn.{Transaction, KeyValueEntry, is_remaster, is_at_home, to_uint32}
use slog.Locks.Request.{KeyType}
use slog.Locks.KeyReplica.{make_key_replica}
use slog.Locks.LockState.{
  LockMode, LockState, new_lock, acquire_read_lock, acquire_write_lock, release,
}

pub record TxnInfo : Type 0 where
  pub num_waiting_for : ℤ
  pub keys : List (List ℕ)

abbrev pub is_ready : TxnInfo → Bool
is_ready info = is_zero info.num_waiting_for

pub record RmaLockManager : Type 0 where
  pub txn_info : Map ℕ TxnInfo
  pub lock_table : Map (List ℕ) LockState
  pub num_locked_keys : ℕ

abbrev pub init : RmaLockManager
init = record { txn_info = []; lock_table = []; num_locked_keys = 0 }

abbrev pub is_unlocked : LockMode → Bool
is_unlocked LockMode.unlocked = true
is_unlocked _ = false

abbrev pub acquire_lock : KeyType → ℕ → LockState → LockState × Bool
acquire_lock KeyType.read txn_id s = acquire_read_lock txn_id s
acquire_lock KeyType.write txn_id s = acquire_write_lock txn_id s

-- `num_locked_keys_` is a uint32: `++` and `--` on it.
abbrev pub increment : ℕ → ℕ
increment n = (n + 1) % 2 ^ 32

abbrev pub decrement : ℕ → ℕ
decrement n = (n + (2 ^ 32 - 1)) % 2 ^ 32

-- Where the loop of `AcquireLocks` stands: the transaction's entry, the table and the counter.
pub record Acquiring : Type 0 where
  pub info : TxnInfo
  pub lock_table : Map (List ℕ) LockState
  pub num_locked_keys : ℕ

-- One key of the loop.
unfoldable pub acquire_key : ℕ → List ℕ → KeyType → Acquiring → Acquiring
acquire_key txn_id key_replica type a =
    let before = get_or key_replica new_lock a.lock_table in
    let (after, granted) = acquire_lock type txn_id before in
    let info = record a.info { keys = a.info.keys ++ key_replica ∷ [] } in
    record {
      info =
          if granted then record info { num_waiting_for = info.num_waiting_for -ℤ pos 1 } else info;
      lock_table = insert key_replica after a.lock_table;
      num_locked_keys =
          if is_unlocked before.mode && not (is_unlocked after.mode)
          then increment a.num_locked_keys
          else a.num_locked_keys;
    }

-- The keys of the transaction's home, or all keys of a remaster transaction.
abbrev pub is_relevant : Transaction → KeyValueEntry → Bool
is_relevant txn kv = is_remaster txn || is_at_home txn kv

abbrev pub acquire_one : Transaction → KeyValueEntry → Acquiring → Acquiring
acquire_one txn kv a =
    if is_relevant txn kv
    then acquire_key txn.internal.id (make_key_replica kv.key (to_uint32 txn.internal.home))
        kv.value_entry.type a
    else a

unfoldable pub acquire_keys : Transaction → List KeyValueEntry → Acquiring → Acquiring
acquire_keys txn [] a = a
acquire_keys txn (kv ∷ kvs) a = acquire_keys txn kvs (acquire_one txn kv a)

abbrev pub num_required_locks : Transaction → ℕ
num_required_locks txn = if is_remaster txn then 2 else length txn.keys

abbrev pub new_info : Transaction → TxnInfo
new_info txn = record { num_waiting_for = pos (num_required_locks txn); keys = [] }

-- `AcquireLocks`; true for ACQUIRED, false for WAITING.
unfoldable pub acquire_locks : Transaction → RmaLockManager → RmaLockManager × Bool
unfolding acquire_keys
acquire_locks txn lm =
    let a = acquire_keys txn txn.keys (record {
      info = get_or txn.internal.id (new_info txn) lm.txn_info;
      lock_table = lm.lock_table;
      num_locked_keys = lm.num_locked_keys;
    }) in
    (
      record {
        txn_info = insert txn.internal.id a.info lm.txn_info;
        lock_table = a.lock_table;
        num_locked_keys = a.num_locked_keys;
      },
      is_ready a.info,
    )

-- The loop over the new grantees: one lock less to wait for, and ready ones go to the result.
unfoldable pub grant_all : List ℕ → Map ℕ TxnInfo → List ℕ → Option (Map ℕ TxnInfo × List ℕ)
grant_all [] infos result = some (infos, result)
grant_all (new_txn ∷ txns) infos result = do
  info ← lookup new_txn infos
  let granted = record info { num_waiting_for = info.num_waiting_for -ℤ pos 1 }
  grant_all txns (insert new_txn granted infos)
      (if is_ready granted then result ++ new_txn ∷ [] else result)

-- One key of the loop in `ReleaseLocks`.
unfoldable pub release_key : ℕ → List ℕ → RmaLockManager × List ℕ → Option (RmaLockManager × List ℕ)
unfolding grant_all
release_key txn_id key_replica (lm, result) = elim (lookup key_replica lm.lock_table) [
  | none ↦ some (lm, result)
  | some before ↦
      (let (after, new_grantees) = release txn_id before in
        do
          (infos, result') ← grant_all new_grantees lm.txn_info result
          some (
            record {
              txn_info = infos;
              lock_table = insert key_replica after lm.lock_table;
              num_locked_keys =
                  if is_unlocked after.mode && not (is_unlocked before.mode)
                  then decrement lm.num_locked_keys
                  else lm.num_locked_keys;
            },
            result',
          ))
]

unfoldable pub release_keys :
    ℕ → List (List ℕ) → RmaLockManager × List ℕ → Option (RmaLockManager × List ℕ)
release_keys txn_id [] s = some s
release_keys txn_id (k ∷ ks) s = release_key txn_id k s >>= release_keys txn_id ks

-- `ReleaseLocks`
unfoldable pub release_locks : ℕ → RmaLockManager → Option (RmaLockManager × List ℕ)
unfolding release_keys
release_locks txn_id lm = elim (lookup txn_id lm.txn_info) [
  | none ↦ some (lm, [])
  | some info ↦ (do
    (lm', result) ← release_keys txn_id info.keys (lm, [])
    some (record lm' { txn_info = erase_key txn_id lm'.txn_info }, sort_unique result))
]
