-- ===== src/Phases/Commands.antt =====
-- `transition_phase`, `enter_delivery_readiness`, `cycle_start` and `cycle_close` of
-- scripts/harness_db.py, with the guard of `_project_mutation` and the transaction.
use kafa.Base.{
  ◌+◌, String, not, ◌||◌, none, some, [], ◌∷◌, ◌==◌, if◌then◌else◌, find, is_empty, any,
}
use kafa.Base.Sets.{contains}
use kafa.Base.Values.{str}
use kafa.Ledger.{
  Db, ProjectRow, CycleRow, CycleStatus, is_active, Stamps, Result, ok, guard, ◌>>=◌, ◌>>◌,
  invariant_failed, unknown_phase, duplicate_cycle, cycle_not_active, cycle_not_closed,
  phase_blocked, readiness_blocked, cycle_start_incomplete, close_by_delivery, close_status_unknown,
}
use kafa.Cycle.{project_row, current_cycle_row, require_active_cycle_for_mutation}
use kafa.Events.{emit_audit_event}
use kafa.Tasks.Defs.{event_waterline_issues}
use kafa.Phases.Defs.{Evaluators, phases, require_next, phase_prerequisite_issues}
use kafa.Phases.Rows.{project_snapshot, cycle_snapshot, cycle_snapshot?, update_cycle, event_of}

-- `with transaction(root, touched=[("project", "1"), …])`: of the checks on what is touched only the
-- one of the event numbers asks for a project or a cycle.
unfoldable pub transaction : (Db → Result Db) → Db → Result Db
transaction body db = do
  db' ← body db
  let issues = event_waterline_issues db'
  guard (is_empty issues) (invariant_failed issues)
  ok db'

abbrev pub or_kept : String → String → String
or_kept given kept = if given == "" then kept else given

abbrev pub project_in_phase : Stamps → (phase status owner : String) → ProjectRow → ProjectRow
project_in_phase stamps phase status owner project = record project {
  phase = phase;
  status = or_kept status project.status;
  current_owner = or_kept owner project.current_owner;
  updated_at = stamps.updated_at;
}

-- The project and its cycle in their new phase.
abbrev pub in_phase : Stamps → (phase status owner : String) → ProjectRow → CycleRow → Db → Db
in_phase stamps phase status owner project cycle db = record db {
  project = some (project_in_phase stamps phase status owner project);
  cycles =
      update_cycle cycle.id (λ c. record c { phase = phase; updated_at = stamps.updated_at })
        db.cycles;
}

-- The project is read again, and the event records both rows.
unfoldable pub log_phase :
    Stamps → (event_type actor command phase : String) → ProjectRow → Db → Result Db
unfolding project_row
log_phase stamps event_type actor command phase project db = do
  after ← project_row db
  emit_audit_event stamps
      (event_of event_type "project" project.project_id (some (project_snapshot project))
        (some (project_snapshot after)) actor command
        (("from", str project.phase) ∷ ("to", str phase) ∷ []))
      db

-- An empty `status` or `owner` stands for the one that is not given.
unfoldable pub transition_body :
    Evaluators → Stamps → (phase status owner : String) → Db → Result Db
unfolding project_row current_cycle_row phase_prerequisite_issues update_cycle require_next contains
    log_phase
transition_body ev stamps phase status owner db = do
  project ← project_row db
  cycle ← current_cycle_row db
  guard (is_active cycle.status || phase == project.phase) (cycle_not_active cycle.id cycle.status)
  guard (contains phases phase) (unknown_phase phase)
  require_next project.phase phase
  issues ← phase_prerequisite_issues ev db phase
  guard (is_empty issues) (phase_blocked issues)
  log_phase stamps "phase_updated" owner "phase" phase project
      (in_phase stamps phase status owner project cycle db)

unfoldable pub readiness_body : Evaluators → Stamps → Db → Result Db
unfolding project_row current_cycle_row update_cycle log_phase
readiness_body ev stamps db = do
  project ← project_row db
  cycle ← current_cycle_row db
  guard (is_empty (ev.readiness_blockers db)) (readiness_blocked (ev.readiness_blockers db))
  guard (is_active cycle.status) (cycle_not_active cycle.id cycle.status)
  log_phase stamps "delivery_readiness_entered" "root-controller" "delivery ready"
      "delivery_readiness" project
      (in_phase stamps "delivery_readiness" "ready-for-delivery" "" project cycle db)

-- `bump_project`, with the values that are updated
abbrev pub bump_project : Stamps → (ProjectRow → ProjectRow) → ProjectRow → ProjectRow
bump_project stamps f project =
    f (record project { revision = project.revision + 1; updated_at = stamps.updated_at })

abbrev pub new_cycle : Stamps → (id name goal base_ref : String) → CycleRow
new_cycle stamps id name goal base_ref = record {
  id = id;
  name = name;
  goal = goal;
  status = CycleStatus.active;
  phase = "intake";
  base_ref = base_ref;
  candidate_sha = "";
  started_at = stamps.updated_at;
  closed_at = "";
  created_at = stamps.updated_at;
  updated_at = stamps.updated_at;
}

-- The new row, and `bump_project` to it.
abbrev pub with_new_cycle : Stamps → (id name goal base_ref : String) → ProjectRow → Db → Db
with_new_cycle stamps id name goal base_ref project db = record db {
  project = some (
      bump_project stamps
        (λ p. record p {
          current_cycle_id = id;
          phase = "intake";
          status = "draft";
          scope_status = "unconfirmed";
          current_owner = "project-manager";
        })
        project);
  cycles = new_cycle stamps id name goal base_ref ∷ db.cycles;
}

unfoldable pub start_cycle_body : Stamps → (id name goal base_ref : String) → Db → Result Db
unfolding project_row current_cycle_row
start_cycle_body stamps id name goal base_ref db = do
  current ← current_cycle_row db
  guard (not (is_active current.status)) (cycle_not_closed current.id current.status)
  guard (not (any (λ c. c.id == id) db.cycles)) (duplicate_cycle id)
  project ← project_row db
  emit_audit_event stamps
      (event_of "delivery_cycle_started" "delivery_cycle" id none
        (some (cycle_snapshot (new_cycle stamps id name goal base_ref))) "" "cycle start" [])
      (with_new_cycle stamps id name goal base_ref project db)

abbrev pub with_cycle_closed : Evaluators → Stamps → ProjectRow → CycleRow → Db → Db
with_cycle_closed ev stamps project cycle db = record db {
  project =
      some
        (bump_project stamps (λ p. record p { phase = "archived"; status = "archived" }) project);
  cycles =
      update_cycle cycle.id
        (λ c. record c {
          status = CycleStatus.archived;
          phase = "archived";
          candidate_sha = or_kept cycle.candidate_sha ev.candidate_sha;
          closed_at = stamps.updated_at;
          updated_at = stamps.updated_at;
        })
        db.cycles;
}

unfoldable pub close_body : Evaluators → Stamps → Db → Result Db
unfolding project_row current_cycle_row update_cycle
close_body ev stamps db = do
  cycle ← current_cycle_row db
  guard (is_active cycle.status) (cycle_not_active cycle.id cycle.status)
  project ← project_row db
  let db' = with_cycle_closed ev stamps project cycle db
  emit_audit_event stamps
      (event_of "delivery_cycle_closed" "delivery_cycle" cycle.id (some (cycle_snapshot cycle))
        (cycle_snapshot? (find (λ c. c.id == cycle.id) db'.cycles)) "" "cycle close" [])
      db'

pub data PhaseCommand : Type 0 where
  transition_phase : (phase status owner : String) → PhaseCommand
  cycle_start : (id name goal base_ref : String) → PhaseCommand
  cycle_close : (status : String) → PhaseCommand

abbrev pub operation : PhaseCommand → String
operation (transition_phase _ _ _) = "transition_phase"
operation (cycle_start _ _ _ _) = "cycle_start"
operation (cycle_close _) = "cycle_close"

abbrev pub argument_check : PhaseCommand → Result (Unit {0})
argument_check (cycle_start id name goal _) =
    guard (not (id == "" || name == "" || goal == "")) cycle_start_incomplete
argument_check (cycle_close status) =
    guard (not (status == "delivered")) close_by_delivery
    >> guard (status == "archived") close_status_unknown
argument_check _ = ok tt

abbrev pub body : Evaluators → Stamps → PhaseCommand → Db → Result Db
body ev stamps (transition_phase phase status owner) db =
    if phase == "delivery_readiness"
    then readiness_body ev stamps db
    else transition_body ev stamps phase status owner db
body ev stamps (cycle_start id name goal base_ref) db =
    start_cycle_body stamps id name goal base_ref db
body ev stamps (cycle_close status) db = close_body ev stamps db

unfoldable pub perform : Evaluators → Stamps → PhaseCommand → Db → Result Db
unfolding transaction
perform ev stamps command db = do
  require_active_cycle_for_mutation (operation command) db
  argument_check command
  transaction (body ev stamps command) db
