-- ===== src/Thread.antt =====
-- The pool of worker threads: common/thread/ThreadPool.cpp.
pub mod Workers
pub mod Places
pub mod Order
pub mod Draining
pub mod Stuck
mod Examples
