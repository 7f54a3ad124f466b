-- ===== src/Locks/Rma/Tests.antt =====
-- Two transactions that write one key, on the lock manager with the queues.
use slog.Base.{
  ◌%◌, ◌^◌, ◌≡◌, refl, some, List, [], ◌∷◌, lookup, insert, erase_key, nat_Eq, bytes_Eq, pos, ◌+ℤ◌,
  ◌-ℤ◌, sort_unique,
}
use slog.Locks.KeyReplica.{make_key_replica}
use slog.Locks.Fixtures.{writer, second_writer}
use slog.Locks.LockState.{LockMode, LockState, acquire_read_lock, acquire_write_lock, release}
use slog.Locks.LockState.Safety.{IsExclusive}
use slog.Locks.Rma.{
  RmaLockManager, init, acquire_key, acquire_keys, acquire_locks, grant_all, release_key,
  release_keys, release_locks,
}
use slog.Locks.Rma.Table.{locked}
use slog.Locks.Rma.Runs.{Call, acquires, releases, run, locks-IsExclusive, num_locked_keys_exact}

abbrev calls : List Call
calls = acquires writer ∷ acquires second_writer ∷ releases 100 ∷ []

abbrev held_by_second : LockMode → LockState
held_by_second mode = record { mode = mode; holders = 200 ∷ []; waiter_queue = [] }

abbrev end : RmaLockManager
end = record {
  txn_info =
      (
        200,
        record {
          num_waiting_for = pos 0;
          keys = (b'A' ∷ b':' ∷ b'0' ∷ []) ∷ (b'B' ∷ b':' ∷ b'0' ∷ []) ∷ [];
        },
      )
      ∷ [];
  lock_table =
      (b'A' ∷ b':' ∷ b'0' ∷ [], held_by_second LockMode.write)
      ∷ (b'B' ∷ b':' ∷ b'0' ∷ [], held_by_second LockMode.read)
      ∷ [];
  num_locked_keys = 2;
}

calls-run : run calls init ≡ some end
unfolding run acquire_locks acquire_keys acquire_key release_locks release_keys release_key
    grant_all acquire_read_lock acquire_write_lock release lookup insert erase_key ◌+ℤ◌ ◌-ℤ◌
    sort_unique make_key_replica
calls-run = refl

found_a : lookup (b'A' ∷ b':' ∷ b'0' ∷ []) end.lock_table ≡ some (held_by_second LockMode.write)
unfolding lookup
found_a = refl

locks-IsExclusive_example : IsExclusive (held_by_second LockMode.write)
locks-IsExclusive_example =
    locks-IsExclusive calls end (b'A' ∷ b':' ∷ b'0' ∷ []) (held_by_second LockMode.write) calls-run
      found_a

num_locked_keys_exact_example : 2 ≡ locked end.lock_table % 2 ^ 32
num_locked_keys_exact_example = num_locked_keys_exact calls end calls-run
