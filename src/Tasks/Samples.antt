-- ===== src/Tasks/Samples.antt =====
-- Small task tables, what the operations do on them, and the theorems on them.
use kafa.Base.{◌≢◌}
use kafa.Tasks.Create.{new_row}
use kafa.Tasks.Lookup.{create_task-require_task}
use kafa.Ledger.{Result}
use kafa.Base.{String, ◌≡◌, refl, true, some, List, [], ◌∷◌, ◌↔◌, map, ◌⊎◌}
use kafa.Base.Text.{strip}
use kafa.Base.Sets.{contains, sorted}
use kafa.Base.Members.{In, first, later}
use kafa.Ledger.{
  Db, ProjectRow, CycleRow, CycleStatus, TaskRow, TaskStatus, DependencyRow, planned, active,
  accepted, Stamps, ok, err, dependencies_not_accepted, dependency_cycle, text_required,
}
use kafa.Cycle.{require_active_cycle_for_mutation, current_cycle_id}
use kafa.Events.{max_sequence, emit_audit_event}
use kafa.Scheduler.{
  depends_on, assert_no_dependency_cycle, require_task_runnable, dependency_blockers,
}
use kafa.Scheduler.Reach.{Reach}
use kafa.Scheduler.Decides.{assert_no_dependency_cycle_decides}
use kafa.Scheduler.Blockers.{AllAccepted, require_task_runnable_iff}
use kafa.Tasks.Defs.{transaction, require_task, require_text, require_task_transition, change_task}
use kafa.Tasks.Create.{NewTask, create_task}
use kafa.Tasks.Commands.{
  Command, add_task, start_task, submit_task, accept_task, block_task, cancel_task, execute, run,
  body, start_body, submit_body, accept_body, block_body, cancel_body,
}
use kafa.Tasks.Consistent.{IsConsistent}
use kafa.Tasks.Moves.{Performed}
use kafa.Tasks.Runs.{run-IsConsistent, run-final, execute-Performed, transaction-eq-body}

-- Names what an evaluation of the operations computes with.
program : Unit {0}
unfolding execute require_active_cycle_for_mutation require_text transaction start_body submit_body
    accept_body block_body cancel_body create_task require_task require_task_transition
    require_task_runnable change_task emit_audit_event strip current_cycle_id
    assert_no_dependency_cycle contains depends_on dependency_blockers sorted
program = tt

abbrev stamp : String → Stamps
stamp id = record {
  updated_at = "2026-01-01T00:00:00Z";
  created_at = "2026-01-01T00:00:01Z";
  event_id = id;
  correlation_id = id;
}

abbrev cycle : CycleRow
cycle = record {
  id = "CYCLE-1";
  name = "one";
  goal = "deliver";
  status = CycleStatus.active;
  phase = "implementation";
  base_ref = "";
  candidate_sha = "";
  started_at = "";
  closed_at = "";
  created_at = "";
  updated_at = "";
}

abbrev project : ProjectRow
project = record {
  project_id = "P";
  schema_version = 31;
  runtime_version = "1";
  current_cycle_id = "CYCLE-1";
  phase = "implementation";
  status = "draft";
  scope_status = "confirmed";
  current_owner = "project-manager";
  revision = 1;
  updated_at = "";
}

abbrev fresh : Db
fresh = record {
  project = some project;
  cycles = cycle ∷ [];
  tasks = [];
  task_dependencies = [];
  task_acceptance = [];
  task_failure_modes = [];
  acceptance = record { cycle_id = "CYCLE-1"; id = "AC1" } ∷ [];
  failure_modes = [];
  requirements = [];
  baselines = [];
  events = [];
}

abbrev new_task : String → String → String → NewTask
new_task uid id depends_on = record {
  uid = uid;
  id = id;
  task = "work";
  owner = "root";
  acceptance = "AC1";
  failure_modes = "";
  depends_on = depends_on;
}

abbrev history : List (Stamps × Command)
history =
    (stamp "e1", add_task (new_task "u1" "T1" ""))
    ∷ (stamp "e2", add_task (new_task "u2" "T2" "T1"))
    ∷ (stamp "e3", start_task "T2")
    ∷ (stamp "e4", start_task "T1")
    ∷ (stamp "e5", submit_task "T1" "done" "ctx")
    ∷ (stamp "e6", accept_task "T1" " ok ")
    ∷ (stamp "e7", start_task "T2")
    ∷ []

statuses : List TaskRow → List (String × TaskStatus)
statuses tasks = map (λ t. (t.id, t.status)) tasks

-- The start of T2 is refused until T1 is accepted.
history-statuses : statuses (run history fresh).tasks ≡ ("T2", active) ∷ ("T1", accepted) ∷ []
unfolding run program statuses
history-statuses = refl

too_early :
    execute (stamp "e8") (start_task "T2") (
      run
        ((stamp "e1", add_task (new_task "u1" "T1" ""))
          ∷ (stamp "e2", add_task (new_task "u2" "T2" "T1"))
          ∷ [])
        fresh)
    ≡ err (dependencies_not_accepted "T2" (("T1", planned) ∷ []))
unfolding run program
too_early = refl

self_dependency :
    execute (stamp "e1") (add_task (new_task "u1" "T1" "T1")) fresh ≡ err (dependency_cycle "T1")
unfolding program
self_dependency = refl

blank_evidence :
    execute (stamp "e8") (accept_task "T1" "  ") (run history fresh)
    ≡ err (text_required "task accept evidence")
unfolding run program
blank_evidence = refl

fresh-IsConsistent : IsConsistent fresh
unfolding depends_on contains max_sequence
fresh-IsConsistent = record {
  unique_uid = λ t u m n e. elim m [ ];
  unique_key = λ t u m n e. elim m [ ];
  awaited = λ d m. elim m [ ];
  acyclic = λ k a b e r. cc;
  ready = λ d t u m n o w a h. elim m [ ];
  signed = λ t m h. elim m [ ];
  waterline = refl;
}

run-IsConsistent_example : IsConsistent (run history fresh)
run-IsConsistent_example = run-IsConsistent history fresh fresh-IsConsistent

abbrev accepted_row : TaskRow
accepted_row = record {
  uid = "u1";
  id = "T1";
  cycle_id = "CYCLE-1";
  task = "work";
  owner = "root";
  status = accepted;
  evidence = "ok";
  submitted_context_id = "ctx";
  accepted_by = "root-controller";
  revision = 4;
  updated_at = "2026-01-01T00:00:00Z";
}

accepted_row-In : In accepted_row (run history fresh).tasks
unfolding run program
accepted_row-In = later first

abbrev attempts : List (Stamps × Command)
attempts = (stamp "e8", cancel_task "T1" "no") ∷ (stamp "e9", block_task "T2" "stuck") ∷ []

run-final_example : In accepted_row (run attempts (run history fresh)).tasks
run-final_example =
    run-final attempts (run history fresh) accepted_row
      (run-IsConsistent history fresh fresh-IsConsistent) accepted_row-In refl

abbrev made : Db
made = run ((stamp "e1", add_task (new_task "u1" "T1" "")) ∷ []) fresh

abbrev started : Db
started =
    run ((stamp "e1", add_task (new_task "u1" "T1" "")) ∷ (stamp "e2", start_task "T1") ∷ []) fresh

start_ok : execute (stamp "e2") (start_task "T1") made ≡ ok started
unfolding run program
start_ok = refl

execute-Performed_example :
    (require_active_cycle_for_mutation "start_task" made ≡ ok tt)
    × Performed (stamp "e2") (start_task "T1") made started
execute-Performed_example = execute-Performed (stamp "e2") (start_task "T1") made (λ e. e) start_ok

transaction-eq-body_example :
    transaction "T1" (body (stamp "e2") (start_task "T1")) made
    ≡ body (stamp "e2") (start_task "T1") made
transaction-eq-body_example =
    transaction-eq-body (stamp "e2") (start_task "T1") made
      (run-IsConsistent ((stamp "e1", add_task (new_task "u1" "T1" "")) ∷ []) fresh
        fresh-IsConsistent)
      refl

abbrev chain : List DependencyRow
chain =
    record { cycle_id = "C"; task_id = "A"; depends_on = "B" }
    ∷ record { cycle_id = "C"; task_id = "B"; depends_on = "D" }
    ∷ []

assert_no_dependency_cycle_decides_example :
    (assert_no_dependency_cycle chain "C" "D" "A" ≡ ok tt) × (¬ Reach chain "C" "A" "D")
    ⊎ (assert_no_dependency_cycle chain "C" "D" "A" ≡ err (dependency_cycle "D"))
      × Reach chain "C" "A" "D"
assert_no_dependency_cycle_decides_example = assert_no_dependency_cycle_decides chain "C" "D" "A"

chain_refused : assert_no_dependency_cycle chain "C" "D" "A" ≡ err (dependency_cycle "D")
unfolding assert_no_dependency_cycle contains depends_on
chain_refused = refl

require_task_runnable_iff_example :
    (require_task_runnable (accepted_row ∷ []) [] (record accepted_row { status = planned })
      ≡ ok tt)
    ↔ ((true ≡ true)
        × AllAccepted (accepted_row ∷ []) [] (record accepted_row { status = planned }))
require_task_runnable_iff_example =
    require_task_runnable_iff (accepted_row ∷ []) [] (record accepted_row { status = planned })

abbrev first_task : NewTask
first_task = new_task "u1" "T1" ""

abbrev or_fresh : Result Db → Db
or_fresh (err raised) = fresh
or_fresh (ok db) = db

created_ok :
    create_task (stamp "e1") first_task fresh
    ≡ ok (or_fresh (create_task (stamp "e1") first_task fresh))
unfolding program
created_ok = refl

create_task-require_task_example :
    ((cycle_id : String) × (current_cycle_id fresh ≡ ok cycle_id)
      × (require_task (or_fresh (create_task (stamp "e1") first_task fresh)) "T1"
          ≡ ok (new_row (stamp "e1") cycle_id first_task)))
    × ((id : String)
        → id ≢ "T1"
        → require_task (or_fresh (create_task (stamp "e1") first_task fresh)) id
          ≡ require_task fresh id)
create_task-require_task_example =
    create_task-require_task (stamp "e1") first_task fresh
      (or_fresh (create_task (stamp "e1") first_task fresh)) created_ok
