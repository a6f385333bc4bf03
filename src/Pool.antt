-- ===== src/Pool.antt =====
-- The pooled connections to the peers: raft/RaftConnectionPool.cpp.
pub mod Net
pub mod Connections
pub mod Invariant
pub mod Getting
pub mod Releasing
pub mod Closing
pub mod Cleanup
pub mod Queues
pub mod Cleaning
pub mod Tests
mod Examples
