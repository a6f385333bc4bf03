-- ===== src/Raft.antt =====
-- The consensus layer: raft/RaftTypes.h, raft/RaftNode.h and raft/RaftNode.cpp.
pub mod Types
pub mod Env
pub mod Node
pub mod Election
pub mod Heartbeat
pub mod Log
pub mod Merging
pub mod Applying
pub mod Invariant
pub mod Following
pub mod Voting
pub mod Submitting
pub mod Progress
pub mod Campaign
pub mod Sorting
pub mod Leading
pub mod Replicating
pub mod Steps
pub mod Accepting
pub mod Elected
pub mod Quorum
pub mod History
pub mod Winning
pub mod Leaders
pub mod Safety
pub mod Keeping
pub mod Stalling
pub mod Tests
mod Examples
mod Trio
