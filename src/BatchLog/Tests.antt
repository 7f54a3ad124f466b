-- ===== src/BatchLog/Tests.antt =====
-- Concrete runs of a batch log.
use slog.Base.{
  ℕ, ◌+◌, ◌≡◌, refl, some, List, [], ◌∷◌, arith, nat_Eq, nat_eq, if◌then◌else◌, lookup, erase_key,
  true, false, insert as put, pos, All, ◌+ℤ◌, ◌-ℤ◌, has,
}
use slog.AsyncLog
use slog.Txn.{TransactionType}
use slog.BatchLog.{
  Batch, BatchLog, empty, update_round, update_rounds, update_ready_batches, add_batch, add_slot,
  ack_replication, next_batch, is_replicated,
}
use slog.BatchLog.Slots.{
  Use, adds_batch, adds_slot, acks, takes, take_batch, use_log, run, InOrder, Follows,
  handed_out-InOrder, next_batch_total, update_ready_batches_complete,
}

-- Slot 0 is for batch 100, slot 1 for batch 101.
abbrev order : ℕ → ℕ
order slot = slot + 100

order-inj : (a b : ℕ) → order a ≡ order b → a ≡ b
order-inj a b h = omega arith

abbrev first : Batch ℕ
first = record {
  id = 100;
  transactions = 7 ∷ [];
  transaction_type = TransactionType.single_home;
  events = [];
}

abbrev second : Batch ℕ
second = record {
  id = 101;
  transactions = 8 ∷ 9 ∷ [];
  transaction_type = TransactionType.single_home;
  events = [];
}

-- The batches by their ids.
abbrev content : ℕ → Batch ℕ
content b = if nat_eq b 100 then first else second

-- The slots come in the wrong order, and batch 100 waits for an acknowledgement.
abbrev early : List (Use ℕ)
early =
    adds_slot 1 101 (pos 0)
    ∷ adds_batch second
    ∷ adds_batch first
    ∷ adds_slot 0 100 (pos 1)
    ∷ takes
    ∷ acks 100
    ∷ takes
    ∷ []

abbrev after_early : BatchLog ℕ
after_early = record {
  slots = record { log = []; next_position = 2 };
  batches = (101, second) ∷ [];
  replication = [];
  ready_batches = (1, 101) ∷ [];
}

early-run : run early empty ≡ some (after_early, (0, first) ∷ [])
unfolding run use_log take_batch next_batch add_batch add_slot ack_replication update_ready_batches
    update_rounds update_round AsyncLog.insert AsyncLog.next lookup put erase_key ◌+ℤ◌ ◌-ℤ◌
early-run = refl

early_follow : All (Follows order content) early
early_follow = ((refl, omega arith), (refl, (refl, ((refl, omega arith), (tt, (tt, (tt, tt)))))))

handed_out-InOrder_example : InOrder order content 0 ((0, first) ∷ [])
handed_out-InOrder_example =
    handed_out-InOrder order content order-inj early after_early ((0, first) ∷ []) early_follow
      early-run

next_batch_total_example :
    (batch : Batch ℕ) × (l' : BatchLog ℕ) × (next_batch after_early ≡ some ((1, batch), l'))
    × (batch.id ≡ order 1)
    × (batch ≡ content (order 1))
next_batch_total_example =
    next_batch_total order content order-inj early after_early ((0, first) ∷ []) early_follow
      early-run refl

-- The data of batch 100 is there, its acknowledgement is not.
abbrev waiting : BatchLog ℕ
waiting = record {
  slots = record { log = (0, 100) ∷ []; next_position = 0 };
  batches = (100, first) ∷ [];
  replication = (100, pos 1) ∷ [];
  ready_batches = [];
}

waiting_waits : update_ready_batches waiting ≡ waiting
unfolding update_ready_batches update_rounds update_round AsyncLog.next lookup erase_key
waiting_waits = refl

waiting_peek : AsyncLog.peek (update_ready_batches waiting).slots ≡ some 100
unfolding lookup update_ready_batches update_rounds update_round AsyncLog.next erase_key
waiting_peek = refl

waiting_has : has 100 (update_ready_batches waiting).batches ≡ true
unfolding lookup update_ready_batches update_rounds update_round AsyncLog.next erase_key
waiting_has = refl

update_ready_batches_complete_example :
    is_replicated 100 (update_ready_batches waiting).replication ≡ false
update_ready_batches_complete_example =
    update_ready_batches_complete waiting 100 waiting_peek waiting_has
