-- ===== src/Storage/Object.antt =====
-- `ObjectStore` of internal/storage/object.go: objects as stripes of erasure-coded shards.
mod Types
mod Write
mod Read
unfoldable pub use Types.*
unfoldable pub use Write.*
unfoldable pub use Read.*
