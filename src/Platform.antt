-- ===== src/Platform.antt =====
-- backend/internal/streamplatform: the catalog of streaming platforms.
pub mod Model
pub mod Service
pub mod Rules
mod Tests
