-- ===== src/Storage/Concurrent.antt =====
-- `PutObject` of internal/storage/object.go as a sequence of calls of the store, and sequences that interleave.
pub mod Plan
pub mod Planned
pub mod Separate
pub mod Interleaving
pub mod Uploads
pub mod TwoUploads
