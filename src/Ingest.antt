-- ===== src/Ingest.antt =====
-- backend/internal/ingest: the sources of media of a client, each with a URL and its protocol.
pub mod Model
pub mod Service
pub mod Rules
mod Tests
