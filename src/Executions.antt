-- ===== src/Executions.antt =====
-- The checks of recorded executions in core/delivery.py: of one execution, of a validation by its
-- executions, and of a validation under a qualification.
pub mod Defs
pub mod Checks
pub mod InOrder
pub mod Validated
pub mod Delivered
mod Samples
