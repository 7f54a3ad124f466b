-- ===== src/Locks/Ddr/Tests.antt =====
-- Two transactions that write one key, on the lock manager with the graph.
use slog.Base.{
  ℕ, ◌≡◌, ◌↔◌, refl, true, false, some, List, [], ◌∷◌, lookup, insert, erase_key, nat_Eq, bytes_Eq,
  elem, pos, ◌+ℤ◌, ◌-ℤ◌, sort_unique,
}
use slog.Locks.KeyReplica.{make_key_replica}
use slog.Locks.Fixtures.{writer, second_writer}
use slog.Locks.Ddr.{
  DdrLockManager, init, acquire_read_lock, acquire_write_lock, wait_for, wait_for_all, emplace,
  request_lock, request_locks, acquire_locks, unblock, unblock_all, release_locks, txn_is_ready,
}
use slog.Locks.Ddr.Counts.{Inv, init-Inv, acquire_locks-Inv}
use slog.Locks.Ddr.Release.{release_locks-Inv}
use slog.Locks.Ddr.Wakes.{release_locks_wakes}

-- The first has its lock, the second waits for it.
abbrev both : DdrLockManager
both = (acquire_locks second_writer (acquire_locks writer init).0).0

both-Inv : Inv both.txn_info
both-Inv =
    acquire_locks-Inv second_writer (acquire_locks writer init).0
      (acquire_locks-Inv writer init init-Inv)

acquire_locks-Inv_example : Inv (acquire_locks writer init).0.txn_info
acquire_locks-Inv_example = acquire_locks-Inv writer init init-Inv

abbrev woken : List ℕ
woken = 200 ∷ []

abbrev released : DdrLockManager
released = record {
  txn_info =
      (200, record { waited_by = []; unarrived_lock_requests = pos 0; waiting_for_cnt = pos 0 })
      ∷ [];
  lock_table = both.lock_table;
}

second_wakes : release_locks 100 both ≡ some (released, 200 ∷ [])
unfolding release_locks unblock_all unblock acquire_locks wait_for_all wait_for emplace
    request_locks request_lock acquire_read_lock acquire_write_lock lookup insert erase_key ◌+ℤ◌
    ◌-ℤ◌ sort_unique make_key_replica
second_wakes = refl

release_locks-Inv_example : Inv released.txn_info
release_locks-Inv_example = release_locks-Inv 100 both released woken both-Inv second_wakes

release_locks_wakes_example :
    (elem 200 woken ≡ true)
    ↔ ((txn_is_ready 200 both.txn_info ≡ false) × (txn_is_ready 200 released.txn_info ≡ true))
release_locks_wakes_example = release_locks_wakes 100 both released woken both-Inv second_wakes 200
