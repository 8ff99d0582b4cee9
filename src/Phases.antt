-- ===== src/Phases.antt =====
-- The phases and delivery cycles of scripts/harness_db.py: `transition_phase`,
-- `enter_delivery_readiness`, `phase_prerequisite_issues`, `cycle_start` and `cycle_close`.
pub mod Defs
pub mod Rows
pub mod Commands
pub mod Performed
pub mod Orderly
pub mod Keeps
pub mod Steps
pub mod Moves
mod Samples
