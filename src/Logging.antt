-- ===== src/Logging.antt =====
-- The log of the server: common/logger.
pub mod Spdlog
pub mod Logger
pub mod Filtering
mod Examples
