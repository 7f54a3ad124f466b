-- ===== src/Lib.antt =====
-- SLOG: a geo-replicated, deterministic database. This library models the parts of it that put
-- transactions into one order and run them in that order.
--
-- A region's partitions batch transactions (module/sequencer.cpp) and agree by a simulated Paxos
-- (paxos/) on the order of the batches. Data, order and replication acknowledgements of the batches
-- arrive in any order; data_structure/async_log.h, data_structure/batch_log.cpp and the class
-- LocalLog of module/interleaver.cpp put them together again into one log. A scheduler asks a lock
-- manager for the locks of each transaction in the order of that log, and runs a transaction when
-- all its locks are granted (module/scheduler_components/).
--
-- The files, and the code that each models:
--
--   Base        shared names, lists, maps as association lists, the integers of the model.
--   AsyncLog    data_structure/async_log.h: the record AsyncLog has the fields log_ and next_;
--               insert, has_next, peek and next are the operations. AsyncLog/Holds and
--               AsyncLog/Order are about what a reader gets.
--   BatchLog    data_structure/batch_log.h and .cpp: add_batch, add_slot, ack_replication,
--               next_batch and the loop update_ready_batches. BatchLog/Ready, BatchLog/Slots.
--   LocalLog    module/interleaver.h and .cpp, the class LocalLog. LocalLog/Ready, LocalLog/Runs.
--   Txn         proto/transaction.proto and common/types.h: transactions, as records.
--   Locks       the lock managers. Locks/Request is the specification of one lock, with no code
--               behind it: first come, first served, readers share. Locks/LockState is the class
--               LockState of rma_lock_manager.cpp, and Locks/LockState/Refines compares it with
--               the specification; Locks/Rma is RMALockManager, Locks/Ddr is DDRLockManager with
--               its graph of waiting transactions; Locks/OldLockState is the class OldLockState of
--               old_lock_manager.cpp; Locks/KeyReplica is MakeKeyReplica.
--   Remaster    module/scheduler_components/remaster_manager.h, CheckCounters; Remaster/Simple is
--               simple_remaster_manager.cpp, and Remaster/PerKey the sorted queues of
--               per_key_remaster_manager.cpp.
--   TxnHolder   module/scheduler_components/txn_holder.h and .cpp; TxnHolder/Finalize is the member
--               FinalizeAndRelease.
--   ProtoUtils  common/proto_utils.h and .cpp: MakeTransaction, the type and the regions of a
--               transaction, lock-only parts; ProtoUtils/Partition is the part of a transaction for
--               a partition, ProtoUtils/Merge is MergeTransaction, ProtoUtils/Batch is Unbatch and
--               ProtoUtils/Equality the comparison of transactions.
--   Storage     storage/mem_only_storage.h and the class Record of common/types.h.
--   Execution   execution/execution.cpp, ApplyWrites (Execution/Writes), and execution/key_value.cpp:
--               one function for each kind of procedure.
--   Worker      module/scheduler_components/worker.h and .cpp: Worker/Reading is ReadLocalStorage and
--               NotifyOtherPartitions, Worker/Steps the later phases and the two handlers. The
--               holders are a store that a worker shares with the scheduler.
--   Scheduler   module/scheduler.h and .cpp, compiled without a remaster protocol: the record
--               LockManager is what it uses of a lock manager; Scheduler/Managers fills it with
--               RMALockManager, Scheduler/DdrManager with DDRLockManager. One function for each
--               member; a message of OnCustomSocket is on_done.
--   Sequencer   module/sequencer.h and .cpp: the batches of a round (batch_txn, new_batch) and what
--               is sent at its end (send_batches). Timers and random draws are inputs. Sequencer/Sends
--               sorts the messages, Sequencer/Whole is about the parts of a batch, Sequencer/Rounds
--               about one round and Sequencer/Positions about all of them.
--   Interleaver module/interleaver.h and .cpp, the class Interleaver: one function for each handler,
--               and AdvanceLogs with its loops, which run on fuel, as many rounds as batches are ready.
--   MultiHomeOrderer
--               module/multi_home_orderer.h and .cpp: the batches of the regions and the global log.
--   Messages    proto/internal.proto: the messages about batches.
--   Config      common/configuration.cpp: machine ids.
--   Paxos       paxos/leader.cpp (Paxos/Leader), paxos/acceptor.cpp (Paxos/Acceptor). A handler
--               returns the new state and what it sends. Paxos/Agreement is about whole runs of a
--               leader, Paxos/Promises about those of an acceptor, Paxos/Leaks about the instances
--               that a leader keeps and how a group is set up.
--
-- State is passed explicitly. An exception, a failed CHECK, a LOG(FATAL) and a read through an
-- iterator that is not there are `none`; the scheduler tells the last of these apart. uint32_t
-- positions and slots wrap at 2 ^ 32. The C++ `int` counters are unbounded integers, and so are
-- the uint64 counters; only the position of a batch that a sequencer sends is narrowed the way the
-- code does it, from uint64 to int to uint32. In GeneratePartitionedTxn an involved region of 2 ^
-- 32 - 1 wraps the uint32 size of the flags to 0 and is then written out of range, which the code
-- leaves undefined and the model leaves out; the theorem excludes it. The `while` loops of
-- UpdateReadyBatches run on fuel, one more than the number of slots that the log holds, since each
-- round reads one slot. Maps are association lists; where the code walks over a hash table
-- (RemasterOccured), the model takes the order of the list.
--
-- Not modelled: threads, sockets and timers (connection/, module/base), the
-- forwarder and the server, the scheduler's branches for the remaster protocols, TPC-C execution, the
-- workload generators, the statistics (GetStats, NumBuffered…), the events that RECORD adds to
-- transactions and batches if it is compiled in, and the debug checks that a release build leaves out.
pub mod Base
pub mod AsyncLog
pub mod BatchLog
pub mod LocalLog
pub mod Txn
pub mod Locks
pub mod Paxos
pub mod Remaster
pub mod Config
pub mod TxnHolder
pub mod ProtoUtils
pub mod Storage
pub mod Execution
pub mod Worker
pub mod Messages
pub mod Sequencer
pub mod Scheduler
pub mod Interleaver
pub mod MultiHomeOrderer
