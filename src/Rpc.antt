-- ===== src/Rpc.antt =====
-- The exchanges between RaftNodes: the messages of raft/RaftNode.cpp and server/Connection.cpp, and
-- sendRequestVote and sendAppendEntries.
pub mod Messages
pub mod Arguments
pub mod Exchange
pub mod Wire
pub mod Pooled
mod Examples
