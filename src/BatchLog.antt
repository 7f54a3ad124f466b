-- ===== src/BatchLog.antt =====
-- data_structure/batch_log.h and .cpp: batches of transactions, put in the order of their slots
-- once their data and their replication acknowledgements are there. A `throw`, and a read through
-- a missing `find`, is `none`.
pub mod Ready
pub mod Slots
mod Tests
use slog.Base.{
  ℕ, zero, suc, ◌≡◌, Bool, false, ◌&&◌, Option, none, some, List, [], ◌∷◌, ◌++◌, Map, has, get_or,
  lookup, insert, erase_key, nat_Eq, not, is_empty, ◌>>=◌, ◌>>◌, guard, length, if◌then◌else◌, ℤ,
  pos, is_zero, ◌+ℤ◌, ◌-ℤ◌,
}
use slog.AsyncLog
use slog.Txn.{TransactionType, TransactionEventInfo}
use slog.AsyncLog.{AsyncLog}

-- internal::Batch
pub record Batch (T : Type 0) : Type 0 where
  pub id : ℕ
  pub transactions : List T
  pub transaction_type : TransactionType
  pub events : List TransactionEventInfo

pub record BatchLog (T : Type 0) : Type 0 where
  pub slots : AsyncLog ℕ
  pub batches : Map ℕ (Batch T)
  pub replication : Map ℕ ℤ
  pub ready_batches : List (ℕ × ℕ)

-- `rep_it != replication_.end() && rep_it->second == 0`
abbrev pub is_replicated : ℕ → Map ℕ ℤ → Bool
is_replicated batch_id replication = elim (lookup batch_id replication) [
  | none ↦ false
  | some missing ↦ is_zero missing
]

module _ {T : Type 0} where
  abbrev pub empty : BatchLog T
  empty = record { slots = AsyncLog.empty 0; batches = []; replication = []; ready_batches = [] }

  -- One round of the loop in `UpdateReadyBatches`; `none` where the loop ends.
  unfoldable pub update_round : BatchLog T → Option (BatchLog T)
  update_round l = do
    next_batch_id ← AsyncLog.peek l.slots
    (slot, slots) ← AsyncLog.next l.slots
    guard (has next_batch_id l.batches && is_replicated next_batch_id l.replication)
    some (record l {
      slots = slots;
      replication = erase_key next_batch_id l.replication;
      ready_batches = l.ready_batches ++ slot ∷ [];
    })

  -- Each round reads one slot, so the slots that are held bound the rounds.
  unfoldable pub update_rounds : ℕ → BatchLog T → BatchLog T
  update_rounds zero l = l
  update_rounds (suc fuel) l = elim (update_round l) [ none ↦ l | some l' ↦ update_rounds fuel l' ]

  -- `UpdateReadyBatches`
  unfoldable pub update_ready_batches : BatchLog T → BatchLog T
  unfolding update_rounds
  update_ready_batches l = update_rounds (suc (length l.slots.log)) l

  -- `AddBatch`
  unfoldable pub add_batch : Batch T → BatchLog T → BatchLog T
  add_batch batch l = update_ready_batches (record l { batches = insert batch.id batch l.batches })

  -- `AddSlot`
  unfoldable pub add_slot : ℕ → ℕ → ℤ → BatchLog T → Option (BatchLog T)
  add_slot slot_id batch_id replication_factor l = do
    slots ← AsyncLog.insert slot_id batch_id l.slots
    let count = get_or batch_id (pos 0) l.replication +ℤ replication_factor
    some (
        update_ready_batches
          (record l { slots = slots; replication = insert batch_id count l.replication }))

  -- `AckReplication`
  unfoldable pub ack_replication : ℕ → BatchLog T → BatchLog T
  ack_replication batch_id l =
      let count = get_or batch_id (pos 0) l.replication -ℤ pos 1 in
      update_ready_batches (record l { replication = insert batch_id count l.replication })

  -- `HasNextBatch`
  abbrev pub has_next_batch : BatchLog T → Bool
  has_next_batch l = not (is_empty l.ready_batches)

  -- `NextBatch`
  unfoldable pub next_batch : BatchLog T → Option ((ℕ × Batch T) × BatchLog T)
  next_batch l = elim l.ready_batches [
    | [] ↦ none
    | (next_slot, next_batch_id) ∷ rest ↦ (do
      batch ← lookup next_batch_id l.batches
      some (
        (next_slot, batch),
        record l { ready_batches = rest; batches = erase_key next_batch_id l.batches },
      ))
  ]
