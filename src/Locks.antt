-- ===== src/Locks.antt =====
-- module/scheduler_components: the lock managers.
pub mod Request
pub mod LockState
pub mod KeyReplica
pub mod Ddr
pub mod Rma
pub mod OldLockState
pub mod Fixtures
