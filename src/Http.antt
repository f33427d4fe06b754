-- ===== src/Http.antt =====
-- backend/internal/httpapi: the requests, and what they ask of the orchestrator and of the services.
pub mod Reply
pub mod Guard
pub mod Problems
pub mod Handlers
pub mod Server
pub mod Asked
pub mod Refines
pub mod Query
pub mod Ingests
pub mod Clients
pub mod Platforms
pub mod LiveIds
pub mod Catalog
pub mod Unchanged
pub mod CatalogAsked
pub mod Performed
pub mod Answered
pub mod Refused
pub mod Broadcast
pub mod Broadcasting
mod Tests
mod CatalogTests
mod BroadcastTests
