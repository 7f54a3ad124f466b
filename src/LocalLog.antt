-- ===== src/LocalLog.antt =====
-- module/interleaver.h and .cpp, the class LocalLog: the order of the batches of one region. The
-- local Paxos process says from which partition's queue the next batch comes. A `throw` is `none`.
pub mod Ready
pub mod Runs
mod Tests
use slog.Base.{
  ℕ, zero, suc, Bool, false, not, Option, none, some, List, [], ◌∷◌, ◌++◌, Map, get_or, lookup,
  insert, nat_Eq, is_empty, ◌>>=◌, length,
}
use slog.AsyncLog
use slog.AsyncLog.{AsyncLog}

pub record LocalLog : Type 0 where
  pub slots : AsyncLog (ℕ × ℕ)
  pub batch_queues : Map ℕ (AsyncLog ℕ)
  pub ready_batches : List (ℕ × (ℕ × ℕ))

abbrev pub empty : LocalLog
empty = record { slots = AsyncLog.empty 0; batch_queues = []; ready_batches = [] }

-- One round of the loop in `UpdateReadyBatches`; `none` where the loop ends.
unfoldable pub update_round : LocalLog → Option LocalLog
update_round l = do
  (next_queue_id, leader) ← AsyncLog.peek l.slots
  next_queue ← lookup next_queue_id l.batch_queues
  ((position, batch_id), next_queue') ← AsyncLog.next next_queue
  ((slot_id, slot), slots) ← AsyncLog.next l.slots
  some (record {
    slots = slots;
    batch_queues = insert next_queue_id next_queue' l.batch_queues;
    ready_batches = l.ready_batches ++ (slot_id, (batch_id, leader)) ∷ [];
  })

-- Each round reads one slot, so the slots that are held bound the rounds.
unfoldable pub update_rounds : ℕ → LocalLog → LocalLog
update_rounds zero l = l
update_rounds (suc fuel) l = elim (update_round l) [ none ↦ l | some l' ↦ update_rounds fuel l' ]

-- `UpdateReadyBatches`
unfoldable pub update_ready_batches : LocalLog → LocalLog
unfolding update_rounds
update_ready_batches l = update_rounds (suc (length l.slots.log)) l

-- `AddBatchId`; `operator[]` makes a queue that is not there.
unfoldable pub add_batch_id : ℕ → ℕ → ℕ → LocalLog → Option LocalLog
add_batch_id queue_id position batch_id l = do
  queue ← AsyncLog.insert position batch_id (get_or queue_id (AsyncLog.empty 0) l.batch_queues)
  some (update_ready_batches (record l { batch_queues = insert queue_id queue l.batch_queues }))

-- `AddSlot`
unfoldable pub add_slot : ℕ → ℕ → ℕ → LocalLog → Option LocalLog
add_slot slot_id queue_id leader l = do
  slots ← AsyncLog.insert slot_id (queue_id, leader) l.slots
  some (update_ready_batches (record l { slots = slots }))

-- `HasNextBatch`
abbrev pub has_next_batch : LocalLog → Bool
has_next_batch l = not (is_empty l.ready_batches)

-- `NextBatch`
unfoldable pub next_batch : LocalLog → Option ((ℕ × (ℕ × ℕ)) × LocalLog)
next_batch l = elim l.ready_batches [
  | [] ↦ none
  | next ∷ rest ↦ some (next, record l { ready_batches = rest })
]
