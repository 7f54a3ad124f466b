-- ===== src/Locks/Ddr.antt =====
-- module/scheduler_components/ddr_lock_manager.h and .cpp: the lock manager that keeps only the tail
-- of each lock's queue, and a graph of which transactions wait for which. A `LOG(FATAL)` is `none`.
pub mod Graph
pub mod Counts
pub mod Release
pub mod Wakes
mod Tests
use slog.Base.{
  ◌||◌, ℕ, suc, ◌+◌, Bool, true, false, not, ◌&&◌, Option, none, some, List, [], ◌∷◌, ◌++◌, Map,
  has, get_or, lookup, insert, erase_key, nat_Eq, bytes_Eq, nat_eq, is_empty, sort_unique,
  if◌then◌else◌, ◌>>=◌, ℤ, pos, is_zero, ◌+ℤ◌, ◌-ℤ◌, length,
}
use slog.Txn.{Transaction, KeyValueEntry, is_remaster, is_at_home, to_uint32}
use slog.Locks.Request.{KeyType}
use slog.Locks.KeyReplica.{make_key_replica}

pub record LockQueueTail : Type 0 where
  pub write_lock_requester : Option ℕ
  pub read_lock_requesters : List ℕ

abbrev pub new_tail : LockQueueTail
new_tail = record { write_lock_requester = none; read_lock_requesters = [] }

-- `LockQueueTail::AcquireReadLock`
unfoldable pub acquire_read_lock : ℕ → LockQueueTail → LockQueueTail × Option ℕ
acquire_read_lock txn_id q = (
  record q { read_lock_requesters = q.read_lock_requesters ++ txn_id ∷ [] },
  q.write_lock_requester,
)

abbrev pub to_list : Option ℕ → List ℕ
to_list none = []
to_list (some t) = t ∷ []

-- `LockQueueTail::AcquireWriteLock`
unfoldable pub acquire_write_lock : ℕ → LockQueueTail → LockQueueTail × List ℕ
acquire_write_lock txn_id q =
    if is_empty q.read_lock_requesters
    then (record q { write_lock_requester = some txn_id }, to_list q.write_lock_requester)
    else (
      record { write_lock_requester = some txn_id; read_lock_requesters = [] },
      q.read_lock_requesters,
    )

pub record TxnInfo : Type 0 where
  pub waited_by : List ℕ
  pub unarrived_lock_requests : ℤ
  pub waiting_for_cnt : ℤ

abbrev pub is_ready : TxnInfo → Bool
is_ready info = is_zero info.waiting_for_cnt && is_zero info.unarrived_lock_requests

pub record DdrLockManager : Type 0 where
  pub txn_info : Map ℕ TxnInfo
  pub lock_table : Map (List ℕ) LockQueueTail

abbrev pub init : DdrLockManager
init = record { txn_info = []; lock_table = [] }

-- One key of the loop in `AcquireLocks`: the tail of its queue, and who blocks the request.
unfoldable pub request_lock : ℕ → KeyType → LockQueueTail → LockQueueTail × List ℕ
request_lock txn_id KeyType.read q =
    let (q', blocking) = acquire_read_lock txn_id q in (q', to_list blocking)
request_lock txn_id KeyType.write q = acquire_write_lock txn_id q

pub record Requested : Type 0 where
  pub lock_table : Map (List ℕ) LockQueueTail
  pub num_relevant_locks : ℕ
  pub blocking_txns : List ℕ

-- The keys that the transaction locks here, which are those of its home, or all for a remaster.
abbrev pub is_relevant : Transaction → KeyValueEntry → Bool
is_relevant txn kv = is_remaster txn || is_at_home txn kv

unfoldable pub request_locks : Transaction → List KeyValueEntry → Requested → Requested
unfolding request_lock
request_locks txn [] r = r
request_locks txn (kv ∷ kvs) r = request_locks txn kvs (
    if is_relevant txn kv
    then (let key_replica = make_key_replica kv.key (to_uint32 txn.internal.home) in
        let (tail, blocking) =
          request_lock txn.internal.id kv.value_entry.type
            (get_or key_replica new_tail r.lock_table) in
        record {
          lock_table = insert key_replica tail r.lock_table;
          num_relevant_locks = r.num_relevant_locks + 1;
          blocking_txns = r.blocking_txns ++ blocking;
        })
    else r)

-- `++`, `--` on `waiting_for_cnt`, and `push_back` on `waited_by`
abbrev pub add_wait : ℤ → TxnInfo → TxnInfo
add_wait n info = record info { waiting_for_cnt = info.waiting_for_cnt +ℤ n }

abbrev pub add_waiter : ℕ → TxnInfo → TxnInfo
add_waiter txn_id info = record info { waited_by = info.waited_by ++ txn_id ∷ [] }

abbrev pub modify : ℕ → (TxnInfo → TxnInfo) → Map ℕ TxnInfo → Map ℕ TxnInfo
modify k f m = elim (lookup k m) [ none ↦ m | some v ↦ insert k (f v) m ]

-- One blocking transaction of the loop that adds the edges of the graph.
unfoldable pub wait_for : ℕ → ℕ → Map ℕ TxnInfo → Map ℕ TxnInfo
wait_for txn_id b_txn infos =
    if nat_eq b_txn txn_id
    then infos
    else if has b_txn infos
    then modify b_txn (add_waiter txn_id) (modify txn_id (add_wait (pos 1)) infos)
    else infos

unfoldable pub wait_for_all : ℕ → List ℕ → Map ℕ TxnInfo → Map ℕ TxnInfo
unfolding wait_for
wait_for_all txn_id [] infos = infos
wait_for_all txn_id (b ∷ bs) infos = wait_for_all txn_id bs (wait_for txn_id b infos)

-- `try_emplace` with the number of locks that the transaction asks for in all regions
abbrev pub num_required_locks : Transaction → ℕ
num_required_locks txn = if is_remaster txn then 2 else length txn.keys

unfoldable pub emplace : Transaction → Map ℕ TxnInfo → Map ℕ TxnInfo
emplace txn infos =
    if has txn.internal.id infos
    then infos
    else insert txn.internal.id
        (record {
          waited_by = [];
          unarrived_lock_requests = pos (num_required_locks txn);
          waiting_for_cnt = pos 0;
        })
        infos

abbrev pub arrive : ℕ → TxnInfo → TxnInfo
arrive n info = record info { unarrived_lock_requests = info.unarrived_lock_requests -ℤ pos n }

abbrev pub txn_is_ready : ℕ → Map ℕ TxnInfo → Bool
txn_is_ready txn_id infos = elim (lookup txn_id infos) [ none ↦ false | some info ↦ is_ready info ]

-- `AcquireLocks`; true for ACQUIRED, false for WAITING.
unfoldable pub acquire_locks : Transaction → DdrLockManager → DdrLockManager × Bool
unfolding wait_for_all request_locks
acquire_locks txn lm =
    let txn_id = txn.internal.id in
    let start : Requested = record {
      lock_table = lm.lock_table;
      num_relevant_locks = 0;
      blocking_txns = [];
    } in
    let r = request_locks txn txn.keys start in
    let arrived = modify txn_id (arrive r.num_relevant_locks) (emplace txn lm.txn_info) in
    let infos = wait_for_all txn_id (sort_unique r.blocking_txns) arrived in
    (record { txn_info = infos; lock_table = r.lock_table }, txn_is_ready txn_id infos)

-- One entry of the `waited_by` list in `ReleaseLocks`. A missing transaction is only logged.
unfoldable pub unblock : ℕ → Map ℕ TxnInfo × List ℕ → Map ℕ TxnInfo × List ℕ
unblock blocked_txn_id (infos, result) = elim (lookup blocked_txn_id infos) [
  | none ↦ (infos, result)
  | some info ↦
      (let blocked_txn = record info { waiting_for_cnt = info.waiting_for_cnt -ℤ pos 1 } in
        (
          insert blocked_txn_id blocked_txn infos,
          if is_ready blocked_txn then result ++ blocked_txn_id ∷ [] else result,
        ))
]

unfoldable pub unblock_all : List ℕ → Map ℕ TxnInfo × List ℕ → Map ℕ TxnInfo × List ℕ
unfolding unblock
unblock_all [] s = s
unblock_all (b ∷ bs) s = unblock_all bs (unblock b s)

-- `ReleaseLocks`
unfoldable pub release_locks : ℕ → DdrLockManager → Option (DdrLockManager × List ℕ)
unfolding unblock_all
release_locks txn_id lm = elim (lookup txn_id lm.txn_info) [
  | none ↦ some (lm, [])
  | some info ↦
      if is_ready info
      then (let (infos, result) = unblock_all info.waited_by (lm.txn_info, []) in
          some (record lm { txn_info = erase_key txn_id infos }, result))
      else none
]
