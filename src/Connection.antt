-- ===== src/Connection.antt =====
-- One client's connection: server/Connection.cpp.
pub mod State
pub mod Tokens
pub mod Forward
pub mod Handlers
pub mod Raft
pub mod Loop
pub mod Machine
pub mod Serving
pub mod Requests
pub mod Handling
pub mod Refining
pub mod Asking
pub mod Closing
pub mod Forwarding
pub mod Relaying
pub mod Remote
pub mod Exchanging
pub mod Calling
pub mod Lasting
pub mod Payload
pub mod Lifetime
pub mod Ending
pub mod Tests
mod Examples
pub mod Calls
mod Wirings
mod EntryWiring
pub mod TwoWires
mod TwoServers
