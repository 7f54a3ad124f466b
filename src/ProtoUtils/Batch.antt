-- ===== src/ProtoUtils/Batch.antt =====
-- common/proto_utils.cpp, Unbatch: the transactions of a batch, with the events of the batch.
use mathlib.Core.List.{append-nil}
use slog.Base.{◌≡◌, refl, ◌∙◌, List, [], ◌∷◌, ◌++◌}
use slog.Txn.{Transaction, TransactionEventInfo}
use slog.BatchLog.{Batch}

abbrev pub add_events : List TransactionEventInfo → Transaction → Transaction
add_events events txn = record txn {
  internal = record txn.internal { events = txn.internal.events ++ events };
}

-- The loop takes the last transaction and fills the buffer from its end; the transactions left stand
-- in the reverse of their order.
unfoldable pub unbatch_loop :
    List TransactionEventInfo → List Transaction → List Transaction → List Transaction
unbatch_loop events [] buffer = buffer
unbatch_loop events (txn ∷ txns) buffer = unbatch_loop events txns (add_events events txn ∷ buffer)

abbrev pub last_first : List Transaction → List Transaction → List Transaction
last_first [] done = done
last_first (t ∷ ts) done = last_first ts (t ∷ done)

-- `Unbatch`
unfoldable pub unbatch : Batch Transaction → List Transaction
unfolding unbatch_loop
unbatch batch = unbatch_loop batch.events (last_first batch.transactions []) []

abbrev pub with_events : List TransactionEventInfo → List Transaction → List Transaction
with_events events [] = []
with_events events (t ∷ ts) = add_events events t ∷ with_events events ts

unbatch_loop-last_first :
    (events : List TransactionEventInfo) (ts done buffer : List Transaction)
    → unbatch_loop events (last_first ts done) buffer
      ≡ unbatch_loop events done (with_events events ts ++ buffer)
unfolding unbatch_loop
unbatch_loop-last_first events [] done buffer = refl
unbatch_loop-last_first events (t ∷ ts) done buffer =
    unbatch_loop-last_first events ts (t ∷ done) buffer

-- The transactions of a batch come out in their order, each with the events of the batch after its
-- own.
pub unbatch_lem :
    (batch : Batch Transaction) → unbatch batch ≡ with_events batch.events batch.transactions
unfolding unbatch unbatch_loop
unbatch_lem batch = unbatch_loop-last_first batch.events batch.transactions [] [] ∙ append-nil _
