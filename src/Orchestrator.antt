-- ===== src/Orchestrator.antt =====
-- backend/internal/orchestrator: cameras, positions, scenes and what is on air.
pub mod Models
pub mod Ids
pub mod State
pub mod Queries
pub mod Names
pub mod Positions
pub mod Assignment
pub mod Visibility
pub mod Scenes
pub mod Live
pub mod Sync
pub mod Start
pub mod Commands
pub mod Step
pub mod Quiet
pub mod Refines
pub mod Occupancy
pub mod Sound
pub mod OnAir
pub mod Naming
pub mod Fresh
pub mod Shown
pub mod OnMock
pub mod OnObs
pub mod Enabled
pub mod Online
pub mod Removed
mod Tests
mod ScreenTests
mod MockTests
