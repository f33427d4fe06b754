-- ===== src/LiveId.antt =====
-- backend/internal/liveid: the identifiers of a client's streams on the platforms.
pub mod Model
pub mod Service
pub mod Unique
mod Tests
