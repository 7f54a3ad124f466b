-- ===== src/TxnHolder/Tests.antt =====
-- A transaction of two regions.
use slog.Base.{ℕ, ◌+◌, ◌≤◌, ◌≡◌, refl, true, false, ◌&&◌, none, some, List, [], ◌∷◌, nat_eq, pos}
use slog.Txn.{Transaction}
use slog.Locks.Fixtures.{writer}
use slog.TxnHolder.{TxnHolder, new_holder, add_lock_only_txn, is_ready_for_gc}
use slog.TxnHolder.Finalize.{Event, cutoff_in, cutoff_of, moved, finalize_and_release}
use slog.TxnHolder.Events.{Kept, finalize_and_release-Kept}
use slog.TxnHolder.Counts.{Call, adds, sets_done, run, filled, run-filled}

abbrev main_txn : Transaction
main_txn = record writer { internal = record writer.internal { involved_replicas = 0 ∷ 2 ∷ [] } }

abbrev lock_only : Transaction
lock_only = record main_txn { internal = record main_txn.internal { home = pos 2 } }

abbrev start : TxnHolder
start = record {
  txn_id = 100;
  main_txn_idx = 0;
  lo_txns = some main_txn ∷ none ∷ none ∷ [];
  remaster_result = none;
  aborting = false;
  done = false;
  num_lo_txns = 1;
  expected_num_lo_txns = 2;
  num_dispatches = 0;
}

abbrev end : TxnHolder
end = record start {
  lo_txns = some main_txn ∷ none ∷ some lock_only ∷ [];
  done = true;
  num_lo_txns = 2;
}

starts : new_holder 3 main_txn ≡ some start
unfolding new_holder
starts = refl

abbrev calls : List Call
calls = adds lock_only ∷ adds lock_only ∷ sets_done ∷ []

ends : run calls start ≡ some (end, 1)
unfolding run add_lock_only_txn
ends = refl

run-filled_example :
    (end.num_lo_txns ≡ 1 + 1)
    × (end.num_lo_txns ≡ filled end.lo_txns)
    × (end.num_lo_txns ≤ 3)
    × (is_ready_for_gc end ≡ (end.done && nat_eq (filled end.lo_txns) 2))
run-filled_example = run-filled 3 main_txn start end calls 1 starts ends

abbrev happened : ℕ → Event
happened n = record { event = n; time = pos (n + 1); machine = pos 0; home = pos 0 }

-- Both have the first event in common.
abbrev with_events : List Event → Transaction → Transaction
with_events events txn = record txn { internal = record txn.internal { events = events } }

abbrev both : TxnHolder
both = record end {
  lo_txns =
      some (with_events (happened 1 ∷ happened 2 ∷ []) main_txn)
      ∷ none
      ∷ some (with_events (happened 1 ∷ happened 3 ∷ []) lock_only)
      ∷ [];
}

abbrev merged : Transaction
merged = with_events (happened 1 ∷ happened 2 ∷ record (happened 3) { home = pos 2 } ∷ []) main_txn

finalizes :
    finalize_and_release both ≡ some (merged, record both { lo_txns = none ∷ none ∷ none ∷ [] })
unfolding finalize_and_release cutoff_of cutoff_in moved
finalizes = refl

finalize_and_release-Kept_example : Kept (happened 3) merged.internal.events
finalize_and_release-Kept_example =
    finalize_and_release-Kept both (record both { lo_txns = none ∷ none ∷ none ∷ [] }) merged
      finalizes 2 (with_events (happened 1 ∷ happened 3 ∷ []) lock_only) refl 1 (happened 3) refl
