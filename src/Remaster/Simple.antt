-- ===== src/Remaster/Simple.antt =====
-- module/scheduler_components/simple_remaster_manager.cpp: one queue for the log of each region,
-- where a transaction that waits for a remaster holds up those behind it.
use slog.Base.{
  ℕ, Bool, true, false, not, ◌&&◌, Option, none, some, List, [], ◌∷◌, ◌++◌, Map, get_or, lookup,
  insert, nat_Eq, list_eq, nat_eq, is_empty, if◌then◌else◌, ◌>>=◌,
}
use slog.Txn.{Transaction, KeyValueEntry, is_at_home, to_uint32}
use slog.Remaster.{
  VerifyMasterResult, valid, waiting, abort, RemasterOccurredResult, no_result, Storage,
  check_counters,
}

pub record SimpleRemasterManager : Type 0 where
  pub blocked_queue : Map ℕ (List Transaction)

-- The queue of a region; none is as good as an empty one.
abbrev pub queue : ℕ → SimpleRemasterManager → List Transaction
queue replica m = get_or replica [] m.blocked_queue

abbrev pub set_queue : ℕ → List Transaction → SimpleRemasterManager → SimpleRemasterManager
set_queue replica q m = record { blocked_queue = insert replica q m.blocked_queue }

abbrev push : Transaction → SimpleRemasterManager → SimpleRemasterManager
push txn m = let home = to_uint32 txn.internal.home in set_queue home (queue home m ++ txn ∷ []) m

-- `VerifyMaster`
unfoldable pub verify_master :
    Storage
    → Transaction
    → SimpleRemasterManager
    → Option (SimpleRemasterManager × VerifyMasterResult)
verify_master storage txn m =
    if is_empty txn.keys
    then some (m, valid)
    else if not (is_empty (queue (to_uint32 txn.internal.home) m))
    then some (push txn m, waiting)
    else (check_counters storage true txn >>= λ result. elim result [
      | waiting ↦ some (push txn m, waiting)
      | valid ↦ some (m, valid)
      | abort ↦ some (m, abort)
    ])

-- The recursion of `TryToUnblock`, which is on one queue.
unfoldable pub unblock :
    Storage
    → List Transaction
    → RemasterOccurredResult
    → Option (List Transaction × RemasterOccurredResult)
unblock storage [] result = some ([], result)
unblock storage (lo_txn ∷ q) result =
    let released =
      unblock storage q (record result { unblocked = result.unblocked ++ lo_txn ∷ [] }) in
    let aborted =
      unblock storage q (record result { should_abort = result.should_abort ++ lo_txn ∷ [] }) in
    check_counters storage true lo_txn >>= λ counter_result. elim counter_result [
      | waiting ↦ some (lo_txn ∷ q, result)
      | valid ↦ released
      | abort ↦ aborted
    ]

-- `TryToUnblock`
unfoldable pub try_to_unblock :
    Storage
    → ℕ
    → SimpleRemasterManager × RemasterOccurredResult
    → Option (SimpleRemasterManager × RemasterOccurredResult)
unfolding unblock
try_to_unblock storage replica (m, result) = elim (lookup replica m.blocked_queue) [
  | none ↦ some (m, result)
  | some q ↦ (do
    (rest, result') ← unblock storage q result
    some (set_queue replica rest m, result'))
]

abbrev pub try_all :
    Storage
    → List ℕ
    → SimpleRemasterManager × RemasterOccurredResult
    → Option (SimpleRemasterManager × RemasterOccurredResult)
try_all storage [] s = some s
try_all storage (replica ∷ replicas) s =
    try_to_unblock storage replica s >>= try_all storage replicas

-- The head of a queue has the remastered key among those of its home.
abbrev pub has_key : List ℕ → Transaction → List KeyValueEntry → Bool
has_key key txn [] = false
has_key key txn (kv ∷ kvs) =
    if is_at_home txn kv && list_eq kv.key key then true else has_key key txn kvs

abbrev pub heads_with : List ℕ → Map ℕ (List Transaction) → List ℕ
heads_with key [] = []
heads_with key ((replica, []) ∷ m) = heads_with key m
heads_with key ((replica, txn ∷ q) ∷ m) =
    if has_key key txn txn.keys then replica ∷ heads_with key m else heads_with key m

-- `RemasterOccured`. A queue changes only in its own round of the loop, so the queues to try can be
-- found first; they come in the order of the map.
unfoldable pub remaster_occured :
    Storage
    → List ℕ
    → SimpleRemasterManager
    → Option (SimpleRemasterManager × RemasterOccurredResult)
remaster_occured storage key m = try_all storage (heads_with key m.blocked_queue) (m, no_result)

-- The first entry of the transaction leaves the queue.
abbrev pub erase_txn : ℕ → List Transaction → List Transaction
erase_txn id [] = []
erase_txn id (t ∷ q) = if nat_eq t.internal.id id then q else t ∷ erase_txn id q

abbrev pub erase_from : ℕ → List ℕ → SimpleRemasterManager → SimpleRemasterManager
erase_from id [] m = m
erase_from id (replica ∷ replicas) m =
    erase_from id replicas (
      if is_empty (queue replica m)
      then m
      else set_queue replica (erase_txn id (queue replica m)) m)

-- `ReleaseTransaction`
unfoldable pub release_transaction :
    Storage
    → Transaction
    → SimpleRemasterManager
    → Option (SimpleRemasterManager × RemasterOccurredResult)
release_transaction storage txn m =
    let replicas = txn.internal.involved_replicas in
    try_all storage replicas (erase_from txn.internal.id replicas m, no_result)
