-- ===== src/Tasks.antt =====
-- The task operations of scripts/harness_db.py: `Tasks.Defs` has the steps that they share,
-- `Tasks.Create` the creation of a task and `Tasks.Commands` the public operations, with the
-- transaction around them.
pub mod Defs
pub mod Create
pub mod Commands
pub mod Moves
pub mod Consistent
pub mod Rows
pub mod ChangeKeeps
pub mod CreateKeeps
pub mod Lookup
pub mod LinkKeeps
pub mod InsertKeeps
pub mod Runs
mod Samples
