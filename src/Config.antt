-- ===== src/Config.antt =====
-- The configuration file: common/config/Config.cpp.
pub mod Trim
pub mod Store
pub mod Trimming
pub mod Reading
pub mod Numbers
mod Tests
mod Examples
