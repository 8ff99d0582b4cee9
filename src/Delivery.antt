-- ===== src/Delivery.antt =====
-- The delivery evaluation of core/delivery.py: `_evaluate_local_delivery_policy`, whether anything
-- stands against a delivery, and `_ordered_blockers`, how blockers are reported.
pub mod Findings
pub mod Facts
pub mod Coverage
pub mod Risks
pub mod Checks
pub mod Policy
pub mod Blockers
pub mod Report
pub mod Clean
pub mod Clear
pub mod Allows
pub mod Levels
pub mod Approved
pub mod Raises
pub mod Example
mod Samples
mod PolicySamples
