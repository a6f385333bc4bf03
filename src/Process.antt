-- ===== src/Process.antt =====
-- The process of a server: server/Server.cpp from start on, start and stop of raft/RaftNode.cpp, and
-- main.cpp.
pub mod Listener
pub mod RaftLife
pub mod Lifecycle
pub mod Accepting
pub mod Main
pub mod Peers
pub mod Electing
pub mod Queue
pub mod Stopping
pub mod Failing
pub mod Tests
mod Duo
mod Doors
