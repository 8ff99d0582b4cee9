-- ===== src/Lib.antt =====
-- kafa keeps the facts of a local software delivery in one SQLite database per project: tasks with
-- their dependencies, delivery cycles and phases, risk acceptances, findings, and an audit event for
-- each change. This library models the core of its runtime, plugins/codex-project-harness, and proves
-- what makes it correct. The paths core/ and scripts/, here and in the files, are in that directory.
--
-- The tables are one record, `Ledger.Db`, with a list of rows for each table. An operation takes the
-- tables and returns a `Result`: new tables, or the error that the source raises, by the values that
-- its message names. That is what a transaction of core/store.py does: it commits, or it rolls back
-- and nothing has changed. `now_iso` and `uuid4` are arguments (`Stamps`).
--
-- - Base: lists, texts and column values. Texts are the native strings; `strip` takes off all
--   that Python counts as white space, `lower` maps ASCII letters. Numbers are the native ℕ.
-- - Ledger: the tables of core/schema_lifecycle.py and the errors.
-- - Cycle: core/cycle_ledger.py, the project and its current cycle, and the guard of
--   `_project_mutation` in scripts/harness_db.py, which each operation passes first.
-- - Events: core/event_bus.py, the audit event that each operation appends, and in Events/Audit the
--   checks of the event table. The reader and the writer of JSON are parameters.
-- - Scheduler: core/scheduler.py. `assert_no_dependency_cycle` runs on fuel, one more than the number of
--   dependencies; the loop visits a task once and pushes each dependency once, so it is enough.
-- - Tasks: the task operations of scripts/harness_db.py, with the checks before a commit of
--   core/invariant_checker.py. They use Scheduler, Cycle and Events.
-- - Phases: `transition_phase`, `enter_delivery_readiness`, `cycle_start`, `cycle_close` and
--   `phase_prerequisite_issues` of scripts/harness_db.py. The baseline digest, the delivery
--   prerequisites and the candidate of the working tree are parameters.
-- - Trust: `evaluate_local_trust` of core/delivery.py and all that it calls, the policy that decides
--   whether a delivery is allowed and under which label. `datetime.fromisoformat` is a parameter.
-- - Delivery: `_evaluate_local_delivery_policy` of core/delivery.py, which joins Trust with the facts of a
--   delivery: Facts has the rows, Coverage, Risks and Checks the blocks of its body, Policy the
--   whole. `traceability_issues`, the clock and git are parameters (`Inspectors`), where git and the
--   source tree may raise, and so are the checks of executions, which Executions fills in. Also `_finding_blocks` and
--   `_ordered_blockers`.
-- - Executions: `execution_issues`, `validation_execution_issues` and
--   `qualified_validation_execution_issues` of core/delivery.py, and the policy with them. The matching of
--   command templates, the digest of a target, the provenance of an execution and the reading of an
--   artifact are parameters (`Checker`).
-- - Metrics: core/outcome_metrics.py. Times are seconds in UTC; `datetime` is a parameter (`Clock`), as
--   is the digest of a test target. A rounded ratio is kept as its two numbers.
-- - Guards: core/schema_guard.py, the checks of the values that are written for an entity.
-- - Plan: core/delivery_plan.py, the strict reading of a delivery plan and the ids derived from it.
--
-- A query that the source orders by a column returns its rows in the order of the table here, except
-- where the order of the result matters to what is modelled and is written out.
--
-- Not modelled: the execution of commands (core/execution.py), files, locks and migrations
-- (core/project_fs.py, core/lock_manager.py, core/local_core_migration.py), the rendering of Markdown
-- and of operator texts, the command line and the kafa package around the runtime, since they are
-- input and output; and, of the runtime, the operations that record validations, gates and
-- deliveries, and the JSON schema contract. Of what is modelled these are left out: the current cycle
-- that core/scheduler.py takes for an empty cycle id, a plan that is passed in read already, a project
-- revision that is no natural number, the unique constraint on event ids, which `uuid4` gives, and
-- failures of the database itself.
pub mod Base
pub mod Ledger
pub mod Cycle
pub mod Events
pub mod Scheduler
pub mod Tasks
pub mod Phases
pub mod Trust
pub mod Delivery
pub mod Executions
pub mod Metrics
pub mod Plan
pub mod Guards
