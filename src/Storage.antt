-- ===== src/Storage.antt =====
-- The database of a server: storage/RocksDBStorage.cpp.
pub mod Database
pub mod RocksDbStorage
pub mod Keeping
pub mod StorageEngine
pub mod Running
pub mod Memory
mod Examples
