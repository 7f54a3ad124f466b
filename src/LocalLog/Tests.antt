-- ===== src/LocalLog/Tests.antt =====
-- A concrete run of a local log.
use slog.Base.{
  ℕ, zero, suc, ◌+◌, ◌*◌, ◌≡◌, refl, some, List, [], ◌∷◌, arith, nat_Eq, lookup, erase_key,
  insert as put, All,
}
use slog.AsyncLog
use slog.LocalLog.{
  LocalLog, empty, update_round, update_rounds, update_ready_batches, add_batch_id, add_slot,
  next_batch,
}
use slog.LocalLog.Ready.{Entries}
use slog.LocalLog.Runs.{
  Use, adds_batch_id, adds_slot, takes, take_next, use_log, run, InOrder, Follows,
  handed_out_by_rank,
}

-- Slots 0 and 2 are filled by queue 5, the others by queue 6; machine 3 leads.
abbrev order : ℕ → ℕ × ℕ
order zero = (5, 3)
order (suc (suc zero)) = (5, 3)
order _ = (6, 3)

abbrev batch : ℕ → ℕ → ℕ
batch queue_id position = queue_id * 100 + position

abbrev uses : List Use
uses =
    adds_batch_id 5 1 501
    ∷ adds_slot 1 6 3
    ∷ adds_slot 2 5 3
    ∷ adds_batch_id 5 0 500
    ∷ adds_slot 0 5 3
    ∷ takes
    ∷ adds_batch_id 6 0 600
    ∷ takes
    ∷ takes
    ∷ []

abbrev handed_out : Entries
handed_out = (0, (500, 3)) ∷ (1, (600, 3)) ∷ (2, (501, 3)) ∷ []

abbrev drained : LocalLog
drained = record {
  slots = record { log = []; next_position = 3 };
  batch_queues =
      (5, record { log = []; next_position = 2 })
      ∷ (6, record { log = []; next_position = 1 })
      ∷ [];
  ready_batches = [];
}

uses-run : run uses empty ≡ some (drained, handed_out)
unfolding run use_log take_next next_batch add_batch_id add_slot update_ready_batches update_rounds
    update_round AsyncLog.insert AsyncLog.next lookup put erase_key
uses-run = refl

uses_follow : All (Follows order batch) uses
uses_follow = (
  (refl, omega arith),
  (
    (refl, omega arith),
    (
      (refl, omega arith),
      ((refl, omega arith), ((refl, omega arith), (tt, ((refl, omega arith), (tt, (tt, tt)))))),
    ),
  ),
)

handed_out_by_rank_example : InOrder order batch 0 handed_out
handed_out_by_rank_example =
    handed_out_by_rank order batch uses drained handed_out uses_follow uses-run
