-- ===== src/Paxos.antt =====
-- paxos/leader.h and .cpp, paxos/acceptor.h and .cpp, paxos/simulated_multi_paxos.cpp: the protocol
-- that puts batches in order. A handler returns the new state and what it sends.
pub mod Leader
pub mod Acceptor
pub mod Agreement
pub mod Promises
pub mod Leaks
mod Tests
use slog.Base.{ℕ, List}

-- proto/internal.proto: the requests and responses of the protocol.
pub data Message : Type 0 where
  propose : (value : ℕ) → Message
  accept : (ballot slot value : ℕ) → Message
  commit : (slot value leader : ℕ) → Message
  accepted : (ballot slot : ℕ) → Message
  committed : (slot : ℕ) → Message

-- What a machine does: it sends a message to machines of the group, or reports a commit to the user
-- of Paxos, whose parameters are 32-bit numbers.
pub data Effect : Type 0 where
  sends : Message → List ℕ → Effect
  reports : (slot value leader : ℕ) → Effect
