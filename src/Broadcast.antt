-- ===== src/Broadcast.antt =====
-- backend/internal/broadcast: the manager that relays the program to the destinations.
pub mod State
pub mod Destinations
pub mod Methods
pub mod Commands
pub mod Managed
pub mod Started
mod Tests
