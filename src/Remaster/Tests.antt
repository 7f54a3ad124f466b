-- ===== src/Remaster/Tests.antt =====
-- Transactions that wait for a remaster.
use slog.Base.{
  ℕ, ◌≡◌, ◌≢◌, refl, some, List, [], ◌∷◌, ◌++◌, Map, lookup, insert, get_or, nat_Eq, bytes_Eq,
  nat_eq, true, false, pos, arith, if◌then◌else◌,
}
use slog.Txn.{Transaction, KeyValueEntry, to_uint32}
use slog.Locks.Request.{write}
use slog.Locks.Fixtures.{single_home_txn}
use slog.Remaster.{
  valid, waiting, abort, Storage, check_counters, check_keys, RemasterOccurredResult, no_result,
}
use slog.Remaster.Simple.{
  SimpleRemasterManager, queue, set_queue, verify_master, unblock, try_to_unblock,
}
use slog.Remaster.Fifo.{Left, try_to_unblock-Left, verify_master_lem, is_waiting}
use slog.Remaster.PerKey.{
  Queue, Sorted, with_counter, insert_into_blocked_queue, insert_into_blocked_queue-Sorted,
}
use slog.Remaster.Counters.{Means, check_counters-Means}

-- The storage has the key A, remastered once.
abbrev storage : Storage
storage key = some (record { master = 0; counter = 1 })

abbrev entry : ℕ → KeyValueEntry
entry counter = record {
  key = b'A' ∷ [];
  value_entry = record {
    value = [];
    new_value = [];
    type = write;
    optional_metadata = some (record { master = 0; counter = counter });
  };
}

abbrev txn : ℕ → ℕ → Transaction
txn id counter = single_home_txn id (entry counter ∷ [])

check_counters-Means_example :
    Means storage true (txn 1 2) false (entry 2 ∷ []) (check_counters storage true (txn 1 2))
check_counters-Means_example = check_counters-Means storage true (txn 1 2)

-- The first can go on, the second comes too late, the third waits.
abbrev blocked : SimpleRemasterManager
blocked = record { blocked_queue = (0, txn 1 1 ∷ txn 2 0 ∷ txn 3 2 ∷ txn 4 1 ∷ []) ∷ [] }

abbrev held : SimpleRemasterManager
held = record { blocked_queue = (0, txn 3 2 ∷ txn 4 1 ∷ []) ∷ [] }

abbrev told : RemasterOccurredResult
told = record { unblocked = txn 1 1 ∷ []; should_abort = txn 2 0 ∷ [] }

unblocks : try_to_unblock storage 0 (blocked, no_result) ≡ some (held, told)
unfolding try_to_unblock unblock check_counters check_keys lookup insert
unblocks = refl

try_to_unblock-Left_example : Left storage (queue 0 blocked) (queue 0 held) no_result told
try_to_unblock-Left_example = try_to_unblock-Left storage 0 blocked held told unblocks

abbrev longer : SimpleRemasterManager
longer = record { blocked_queue = (0, txn 3 2 ∷ txn 4 1 ∷ txn 5 1 ∷ []) ∷ [] }

queues : verify_master storage (txn 5 1) held ≡ some (longer, waiting)
unfolding verify_master lookup insert
queues = refl

verify_master_lem_example :
    let home = to_uint32 (pos 0) in
    (waiting ≡ valid
      → (queue home held ≡ []) × (check_counters storage true (txn 5 1) ≡ some valid))
    × (waiting ≡ waiting → queue home longer ≡ queue home held ++ txn 5 1 ∷ [])
    × (waiting ≡ abort → check_counters storage true (txn 5 1) ≡ some abort)
    × (longer ≡ (
        if is_waiting waiting then set_queue home (queue home held ++ txn 5 1 ∷ []) held else held))
verify_master_lem_example = verify_master_lem storage (txn 5 1) held longer waiting refl queues

abbrev by_counter : Map (List ℕ) Queue
by_counter = (b'A' ∷ [], (txn 1 2, 2) ∷ (txn 2 4, 4) ∷ []) ∷ []

by_counter-Sorted : Sorted (get_or (b'A' ∷ []) [] by_counter)
unfolding lookup
by_counter-Sorted = ((omega arith, tt), (tt, tt))

insert_into_blocked_queue-Sorted_example :
    let after = insert_into_blocked_queue (b'A' ∷ []) 2 (txn 3 2) by_counter in
    Sorted (get_or (b'A' ∷ []) [] after)
    × ((d : ℕ)
        → with_counter d (get_or (b'A' ∷ []) [] after)
          ≡ with_counter d (get_or (b'A' ∷ []) [] by_counter)
            ++ (if nat_eq 2 d then txn 3 2 ∷ [] else []))
    × ((j : List ℕ) → j ≢ b'A' ∷ [] → lookup j after ≡ lookup j by_counter)
insert_into_blocked_queue-Sorted_example =
    insert_into_blocked_queue-Sorted (b'A' ∷ []) 2 (txn 3 2) by_counter by_counter-Sorted
