-- ===== src/Plan.antt =====
-- core/delivery_plan.py: the strict reading of a delivery plan, and the ids derived from it.
pub mod Defs
pub mod Parse
pub mod Reads
pub mod Accepts
pub mod Contract
mod Samples
