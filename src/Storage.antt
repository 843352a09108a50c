-- ===== src/Storage.antt =====
-- internal/storage.
pub mod Header
pub mod ShardStore
pub mod Mem
pub mod File
pub mod Object
pub mod Recovery
pub mod Concurrent
