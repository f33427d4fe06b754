-- ===== src/Pagination.antt =====
-- backend/internal/pagination/pagination.go: the parameters of a listing, and its page.
pub mod Decimal
pub mod Request
pub mod Page
mod Tests
