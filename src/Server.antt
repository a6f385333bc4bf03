-- ===== src/Server.antt =====
-- The network side of a server: server/Protocol.cpp, server/Command.cpp and server/Server.cpp.
pub mod Socket
pub mod Protocol
pub mod Command
pub mod Parsing
pub mod Headers
pub mod Framing
pub mod Sending
pub mod Keeping
pub mod Dispatcher
pub mod Startup
pub mod Alone
pub mod Tests
mod Examples
