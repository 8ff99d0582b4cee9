-- ===== src/Phases/Samples.antt =====
-- A small project through its phases, and the theorems on it.
use kafa.Base.{
  String, ◌≡◌, ◌≢◌, refl, true, false, Option, none, some, List, [], ◌∷◌, sym, ap, ◌∙◌, inl, inr,
}
use kafa.Base.Sets.{contains}
use kafa.Base.Members.{In, first, In-cons}
use kafa.Ledger.{
  Db, ProjectRow, CycleRow, CycleStatus, TaskRow, TaskStatus, planned, blocked, accepted,
  is_accepted, Stamps, Result, ok, err, phase_blocked, task_open, illegal_transition,
}
use kafa.Cycle.{project_row, current_cycle_row, current_cycle_id, require_active_cycle_for_mutation}
use kafa.Events.{emit_audit_event, max_sequence}
use kafa.Scheduler.{depends_on}
use kafa.Tasks.Consistent.{IsConsistent}
use kafa.Tasks.Commands.{Command, start_task, cancel_task, run}
use kafa.Phases.Defs.{Evaluators, phase_prerequisite_issues, baseline_issues, require_next, is_open}
use kafa.Phases.Rows.{update_cycle}
use kafa.Phases.Commands.{
  PhaseCommand, transition_phase, cycle_start, cycle_close, perform, transition_body,
  readiness_body, start_cycle_body, close_body, log_phase,
}
use kafa.Phases.Orderly.{IsOrderly}
use kafa.Phases.Keeps.{perform_all, perform_all-IsOrderly}
use kafa.Phases.Moves.{Move, transition_phase-Move, qa-no_open_task, blocked-no_qa}

-- Names what an evaluation of the operations computes with.
program : Unit {0}
unfolding perform transition_body readiness_body start_cycle_body close_body project_row
    current_cycle_row require_active_cycle_for_mutation phase_prerequisite_issues baseline_issues
    require_next contains update_cycle log_phase emit_audit_event current_cycle_id
program = tt

abbrev evaluators : Evaluators
evaluators = record {
  baseline_digest = λ _ _. "d";
  readiness_blockers = λ _. [];
  candidate_sha = "abc";
}

abbrev stamp : Stamps
stamp = record {
  updated_at = "2026-02-01T00:00:00Z";
  created_at = "2026-02-01T00:00:01Z";
  event_id = "e";
  correlation_id = "e";
}

abbrev cycle : CycleRow
cycle = record {
  id = "C1";
  name = "one";
  goal = "deliver";
  status = CycleStatus.active;
  phase = "implementation";
  base_ref = "";
  candidate_sha = "";
  started_at = "";
  closed_at = "";
  created_at = "";
  updated_at = "";
}

abbrev project : ProjectRow
project = record {
  project_id = "P";
  schema_version = 31;
  runtime_version = "1";
  current_cycle_id = "C1";
  phase = "implementation";
  status = "draft";
  scope_status = "confirmed";
  current_owner = "project-manager";
  revision = 1;
  updated_at = "";
}

abbrev task : String → TaskStatus → TaskRow
task cycle_id status = record {
  uid = "u1";
  id = "T1";
  cycle_id = cycle_id;
  task = "work";
  owner = "root";
  status = status;
  evidence = "done";
  submitted_context_id = "ctx";
  accepted_by = "root-controller";
  revision = 3;
  updated_at = "";
}

abbrev with_task : TaskRow → Db
with_task t = record {
  project = some project;
  cycles = cycle ∷ [];
  tasks = t ∷ [];
  task_dependencies = [];
  task_acceptance = [];
  task_failure_modes = [];
  acceptance = [];
  failure_modes = [];
  requirements = [];
  baselines = record { cycle_id = "C1"; id = "B1"; digest = "d" } ∷ [];
  events = [];
}

abbrev done : Db
done = with_task (task "C1" accepted)

abbrev or_done : Result Db → Db
or_done (ok db) = db
or_done (err _) = done

abbrev in_qa : Db
in_qa = or_done (perform evaluators stamp (transition_phase "qa" "" "") done)

enter_qa : perform evaluators stamp (transition_phase "qa" "" "") done ≡ ok in_qa
unfolding program
enter_qa = refl

phase_of : Db → Option String
phase_of db = elim db.project [ none ↦ none | some p ↦ some p.phase ]

qa_phase : phase_of in_qa ≡ some "qa"
unfolding program phase_of
qa_phase = refl

skipping :
    perform evaluators stamp (transition_phase "retrospective" "" "") done
    ≡ err (illegal_transition "implementation" "retrospective")
unfolding program
skipping = refl

abbrev stuck : Db
stuck = with_task (task "C0" blocked)

-- The blocked task of an older cycle counts too; it is not found as a task of the current one.
other_cycle :
    perform evaluators stamp
      (transition_phase "qa" "" "")
      (record stuck { tasks = task "C1" accepted ∷ task "C0" planned ∷ [] })
    ≡ err (phase_blocked (task_open "T1" planned ∷ []))
unfolding program
other_cycle = refl

abbrev closing : List (Stamps × PhaseCommand)
closing =
    (stamp, cycle_start "C2" "two" "more" "")
    ∷ (stamp, cycle_close "archived")
    ∷ (stamp, transition_phase "qa" "" "")
    ∷ (stamp, cycle_start "C2" "two" "more" "")
    ∷ []

phase_after_closing : phase_of (perform_all evaluators closing done) ≡ some "intake"
unfolding program phase_of perform_all
phase_after_closing = refl

only_element {ℓ} : {A : Type ℓ} {x y : A} → In x (y ∷ []) → x ≡ y
only_element m = elim (In-cons m) [ inl e ↦ e | inr n ↦ elim n [ ] ]

done-IsOrderly : IsOrderly done
done-IsOrderly = (
  project,
  refl,
  record {
    unique = λ c d m n e. only_element m ∙ sym (only_element n);
    current = cycle;
    current_in = first;
    current_id = refl;
    same_phase = refl;
    others_closed = λ c m ne. absurd (ne (ap (λ (x : CycleRow). x.id) (only_element m)));
  },
)

perform_all-IsOrderly_example : IsOrderly (perform_all evaluators closing done)
perform_all-IsOrderly_example = perform_all-IsOrderly evaluators closing done done-IsOrderly

transition_phase-Move_example : Move evaluators "qa" done in_qa
transition_phase-Move_example = transition_phase-Move evaluators stamp "qa" "" "" done enter_qa

qa-no_open_task_example : is_open accepted ≡ false
qa-no_open_task_example =
    qa-no_open_task evaluators stamp "" "" done (task "C1" accepted) enter_qa first

stuck-IsConsistent : IsConsistent stuck
unfolding depends_on contains max_sequence
stuck-IsConsistent = record {
  unique_uid = λ t u m n e. only_element m ∙ sym (only_element n);
  unique_key = λ t u m n e. only_element m ∙ sym (only_element n);
  awaited = λ d m. elim m [ ];
  acyclic = λ k a b e r. cc;
  ready = λ d t u m n o w a h. elim m [ ];
  signed = λ t m h. not_accepted t (only_element m) h;
  waterline = refl;
}
  where
    not_accepted :
        (t : TaskRow)
        → t ≡ task "C0" blocked
        → is_accepted t.status ≡ true
        → (t.evidence ≢ "") × (t.accepted_by ≡ "root-controller")
    not_accepted t e h = cc (rw e at h)

abbrev attempts : List (Stamps × Command)
attempts = (stamp, cancel_task "T1" "no") ∷ (stamp, start_task "T1") ∷ []

blocked-no_qa_example :
    perform evaluators stamp (transition_phase "qa" "" "") (run attempts stuck) ≢ ok in_qa
blocked-no_qa_example =
    blocked-no_qa evaluators stamp "" "" attempts stuck (task "C0" blocked) stuck-IsConsistent first
      refl
