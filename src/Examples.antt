-- ===== src/Examples.antt =====
-- Concrete inputs: a small erasure code, stores and runs.
pub mod Parity
pub mod Objects
pub mod Formats
pub mod Requests
pub mod Buckets
pub mod Uploads
pub mod Files
pub mod Caches
pub mod Nodes
pub mod Listings
pub mod Deletions
pub mod Stores
pub mod Sessions
