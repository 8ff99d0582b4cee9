-- ===== src/Ledger.antt =====
-- The rows of the tables that the task and cycle operations read and write, the errors that they
-- raise, the lookups of core/cycle_ledger.py and the audit events of core/event_bus.py.
mod Tables
mod Errors
pub use Tables.*
pub use Errors.*
