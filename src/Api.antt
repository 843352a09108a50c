-- ===== src/Api.antt =====
-- internal/api/api.go: the HTTP handlers.
pub mod Types
pub mod Listing
pub mod NewObject
pub mod Server
pub mod Paths
pub mod Http
pub mod Buckets
pub mod Objects
pub mod Names
pub mod Responses
pub mod Lifecycle
pub mod Deleted
pub mod Multipart
pub mod Completed
