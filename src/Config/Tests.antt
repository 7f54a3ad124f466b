-- ===== src/Config/Tests.antt =====
-- Three replicas of four partitions.
use slog.Base.{◌≡◌, arith}
use slog.Config.{
  make_machine_id, unpack_machine_id, all_machine_ids, consecutive,
  unpack_machine_id-make_machine_id, all_machine_ids-consecutive,
}

unpack_machine_id-make_machine_id_example : unpack_machine_id 4 (make_machine_id 4 2 3) ≡ (2, 3)
unpack_machine_id-make_machine_id_example =
    unpack_machine_id-make_machine_id 4 2 3 (omega arith) (omega arith)

all_machine_ids-consecutive_example : all_machine_ids 3 4 ≡ consecutive 0 12
all_machine_ids-consecutive_example = all_machine_ids-consecutive 3 4 (omega arith)
