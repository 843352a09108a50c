-- ===== src/Storage/Recovery.antt =====
-- What an object survives: the proofs about `PutObject`, the reader and `GetObject`.
pub mod Shards
pub mod Load
pub mod Storing
pub mod Stripes
pub mod Writing
pub mod Putting
pub mod Opening
pub mod Damage
pub mod Getting
pub mod RoundTrip
pub mod Objects
pub mod Unrecoverable
pub mod Reading
pub mod Listed
pub mod Overwrite
pub mod Deleting
pub mod Cleanup
pub mod Termination
pub mod Body
pub mod SameObject
pub mod Kept
pub mod Ending
