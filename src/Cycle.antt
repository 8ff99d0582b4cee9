-- ===== src/Cycle.antt =====
-- core/cycle_ledger.py: the rows that every operation begins with, and the guard of
-- `_project_mutation` in scripts/harness_db.py.
use kafa.Base.{
  String, true, false, Option, none, some, List, [], ◌∷◌, ◌==◌, if◌then◌else◌, find, any,
}
use kafa.Ledger.{
  Db, ProjectRow, CycleRow, is_active, Error, Result, ok, err, guard, ◌>>=◌, ◌>>◌, project_missing,
  cycle_not_configured, cycle_missing, cycle_closed,
}

abbrev pub or_raise {ℓ} : {A : Type ℓ} → Option A → Error → Result A
or_raise none e = err e
or_raise (some a) e = ok a

unfoldable pub project_row : Db → Result ProjectRow
project_row db = or_raise db.project project_missing

unfoldable pub current_cycle_row : Db → Result CycleRow
unfolding project_row
current_cycle_row db = do
  project ← project_row db
  guard (if project.current_cycle_id == "" then false else true) cycle_not_configured
  or_raise (find (λ c. c.id == project.current_cycle_id) db.cycles)
      (cycle_missing project.current_cycle_id)

unfoldable pub current_cycle_id : Db → Result String
unfolding current_cycle_row
current_cycle_id db = do cycle ← current_cycle_row db; ok cycle.id

-- the operations that may run in a closed cycle
abbrev closed_cycle_allowlist : List String
closed_cycle_allowlist =
    "init_runtime" ∷ "cycle_start" ∷ "record_outcome_observation" ∷ "record_decision" ∷ "render_all"
    ∷ "render_affected" ∷ "_apply_delivery_plan_locked" ∷ []

unfoldable pub require_active_cycle_for_mutation : String → Db → Result (Unit {0})
unfolding current_cycle_row
require_active_cycle_for_mutation operation db =
    if any (λ name. name == operation) closed_cycle_allowlist then ok tt else (do
      cycle ← current_cycle_row db
      guard (is_active cycle.status) (cycle_closed cycle.id cycle.status operation))
