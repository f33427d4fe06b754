-- ===== src/Catalog.antt =====
-- The four services over the one database, as backend/cmd/server/main.go wires them.
pub mod State
pub mod References
pub mod Rows
pub mod Sound
pub mod Destinations
mod Tests
