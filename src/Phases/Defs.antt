-- ===== src/Phases/Defs.antt =====
-- The table of phases of scripts/harness_db.py, `baseline_issues` of core/cycle_ledger.py and
-- `phase_prerequisite_issues`.
use kafa.Base.{
  String, Bool, true, false, not, ◌&&◌, Option, none, some, List, [], ◌∷◌, ◌++◌, map, ◌==◌,
  if◌then◌else◌, find, select, any, when,
}
use kafa.Base.Sets.{contains}
use kafa.Ledger.{
  Db, ProjectRow, TaskStatus, planned, active, blocked, BaselineRow, PhaseIssue, requirement_needed,
  acceptance_needed, task_needed, scope_unconfirmed, baseline_missing, baseline_stale, task_open,
  Result, ok, err, guard, ◌>>=◌, key_error, illegal_transition,
}
use kafa.Cycle.{project_row, current_cycle_id}

-- What the operations on phases ask of code outside the model: `baseline_digest` (a hash of a
-- snapshot of all columns), `evaluate_delivery_prerequisites` in the mode `enter-readiness`, by its
-- rendered blockers, and `current_candidate_sha`.
pub record Evaluators : Type 0 where
  pub baseline_digest : Db → String → String
  pub readiness_blockers : Db → List String
  pub candidate_sha : String

-- `PHASE_TRANSITIONS`
abbrev pub phase_transitions : List (String × List String)
phase_transitions =
    ("intake", "project_bootstrap" ∷ [])
    ∷ ("project_bootstrap", "requirement_baseline" ∷ [])
    ∷ ("requirement_baseline", "confirmation" ∷ [])
    ∷ ("confirmation", "team_architecture" ∷ "planning" ∷ [])
    ∷ ("team_architecture", "planning" ∷ [])
    ∷ ("planning", "implementation" ∷ [])
    ∷ ("implementation", "qa" ∷ [])
    ∷ ("qa", "delivery_readiness" ∷ "implementation" ∷ [])
    ∷ ("delivery_readiness", "retrospective" ∷ [])
    ∷ ("retrospective", "archived" ∷ [])
    ∷ ("archived", [])
    ∷ []

-- `PHASES`
abbrev pub phases : List String
phases =
    "intake" ∷ "project_bootstrap" ∷ "requirement_baseline" ∷ "confirmation" ∷ "team_architecture"
    ∷ "planning" ∷ "implementation" ∷ "qa" ∷ "delivery_readiness" ∷ "retrospective" ∷ "archived"
    ∷ []

-- `PHASE_TRANSITIONS[current]`
unfoldable pub next_phases : String → List (String × List String) → Option (List String)
next_phases current [] = none
next_phases current ((from, targets) ∷ rest) =
    let later = next_phases current rest in if from == current then some targets else later

unfoldable pub require_next : (current phase : String) → Result (Unit {0})
unfolding next_phases contains
require_next current phase =
    if phase == current then ok tt else elim (next_phases current phase_transitions) [
      | none ↦ err (key_error current)
      | some targets ↦ guard (contains targets phase) (illegal_transition current phase)
    ]

abbrev pub latest_baseline : Db → String → Option BaselineRow
latest_baseline db cycle_id = find (λ b. b.cycle_id == cycle_id) db.baselines

abbrev pub stale_baseline : Option BaselineRow → String → List PhaseIssue
stale_baseline none digest = baseline_missing ∷ []
stale_baseline (some row) digest = when (not (row.digest == digest)) (baseline_stale row.id ∷ [])

unfoldable pub baseline_issues : Evaluators → Db → Result (List PhaseIssue)
unfolding current_cycle_id
baseline_issues ev db = do
  cycle_id ← current_cycle_id db
  ok (stale_baseline (latest_baseline db cycle_id) (ev.baseline_digest db cycle_id))

-- `status in ('planned', 'active', 'blocked')`
abbrev pub is_open : TaskStatus → Bool
is_open planned = true
is_open active = true
is_open blocked = true
is_open _ = false

abbrev pub one_of : List String → String → Bool
one_of names phase = any (λ name. name == phase) names

abbrev pub count_issues : Db → String → String → List PhaseIssue
count_issues db cycle_id phase =
    when
      (one_of ("confirmation" ∷ "team_architecture" ∷ "planning" ∷ []) phase
        && not (any (λ r. r.cycle_id == cycle_id && not r.cancelled) db.requirements))
      (requirement_needed ∷ [])
    ++ (when
          (one_of ("confirmation" ∷ "team_architecture" ∷ "planning" ∷ []) phase
            && not (any (λ a. a.cycle_id == cycle_id) db.acceptance))
          (acceptance_needed ∷ [])
        ++ when
            (one_of ("implementation" ∷ "qa" ∷ []) phase
              && not (any (λ t. t.cycle_id == cycle_id) db.tasks))
            (task_needed ∷ []))

-- The query has no condition on the cycle.
abbrev pub open_issues : Db → String → List PhaseIssue
open_issues db phase =
    when (phase == "qa")
      (map (λ t. task_open t.id t.status) (select (λ t. is_open t.status) db.tasks))

abbrev pub scope_issues : Evaluators → Db → ProjectRow → String → Result (List PhaseIssue)
scope_issues ev db project phase =
    if one_of ("planning" ∷ "implementation" ∷ "qa" ∷ "delivery_readiness" ∷ []) phase
    then (do
      stale ← baseline_issues ev db
      ok (when (not (project.scope_status == "confirmed")) (scope_unconfirmed ∷ []) ++ stale))
    else ok []

-- The tasks of `qa` stand in the order of the table.
unfoldable pub phase_prerequisite_issues : Evaluators → Db → String → Result (List PhaseIssue)
unfolding project_row baseline_issues
phase_prerequisite_issues ev db phase = do
  project ← project_row db
  scope ← scope_issues ev db project phase
  ok (count_issues db project.current_cycle_id phase ++ (scope ++ open_issues db phase))
