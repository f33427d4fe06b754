-- ===== src/Client.antt =====
-- backend/internal/client: the clients, and the rules of their names and addresses.
pub mod Email
pub mod Model
pub mod Service
pub mod Valid
pub mod Changed
pub mod Rules
pub mod Reads
mod Tests
