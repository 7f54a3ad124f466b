-- ===== src/MultiHomeOrderer/Tests.antt =====
-- A transaction of regions 0 and 1 is in the batches of both.
use slog.Base.{ℕ, ◌≡◌, refl, none, some, List, [], ◌∷◌, Option}
use slog.Txn.{Transaction}
use slog.Locks.Fixtures.{writer}
use slog.MultiHomeOrderer.{Settings, init, new_batch, add_to_batch, add_to_regions}
use slog.MultiHomeOrderer.Regions.{held}

abbrev settings : Settings
settings = record { local_machine_id = 0; num_replicas = 3; num_partitions = 1 }

abbrev txn : Transaction
txn = record writer { internal = record writer.internal { involved_replicas = 0 ∷ 1 ∷ [] } }

abbrev held_after : ℕ → Option (List Transaction)
held_after r = elim (add_to_batch txn (init settings)) [
  | none ↦ none
  | some (o, timer) ↦ some (held r o.batch_per_rep)
]

in_first : held_after 0 ≡ some (txn ∷ [])
unfolding add_to_batch add_to_regions new_batch
in_first = refl

not_in_last : held_after 2 ≡ some []
unfolding add_to_batch add_to_regions new_batch
not_in_last = refl
