-- ===== src/Orchestrator/Refines.antt =====
-- The methods of backend/internal/orchestrator/orchestrator.go against the writes of `Step`.
mod Positions
mod Assignment
mod Scenes
pub mod Live
mod Sync
pub mod Methods
