-- ===== src/Phases/Performed.antt =====
-- What an operation on phases or cycles that succeeds has done, read off its body.
use kafa.Base.{
  ◌+◌, String, ◌≡◌, ap, ◌∙◌, true, false, ◌||◌, Option, none, some, [], ◌∷◌, ◌==◌, is_empty-eq_true,
  any, find, eq_iff, not-eq-true,
}
use kafa.Base.Values.{str}
use kafa.Base.Sets.{contains}
use kafa.Base.Members.{In, find-In}
use kafa.Ledger.{
  Db, ProjectRow, CycleRow, is_active, Stamps, EventRow, ok, >>=-eq-ok, guard-eq-ok, Error,
}
use kafa.Cycle.{project_row, current_cycle_row, or_raise}
use kafa.Events.{EventFields, emit_audit_event, new_event, max_sequence}
use kafa.Tasks.Moves.{emit-eq-ok, sequence-new_event}
use kafa.Phases.Defs.{Evaluators, phases, require_next, phase_prerequisite_issues}
use kafa.Phases.Rows.{event_of, project_snapshot, cycle_snapshot, cycle_snapshot?}
use kafa.Phases.Commands.{
  in_phase, transition_body, readiness_body, start_cycle_body, close_body, new_cycle,
  with_new_cycle, with_cycle_closed, log_phase,
}

-- `db'` is `db` with one event more.
pub record Logged (db db' : Db) : Type 0 where
  pub event : EventRow
  pub sequence : event.sequence ≡ max_sequence db.events + 1
  pub result : db' ≡ record db { events = event ∷ db.events }

emit-Logged :
    (stamps : Stamps) (fields : EventFields) (db : Db) {db' : Db}
    → emit_audit_event stamps fields db ≡ ok db'
    → Logged db db'
emit-Logged stamps fields db h = record {
  event = new_event stamps fields db;
  sequence = sequence-new_event stamps fields db;
  result = emit-eq-ok stamps fields db h;
}

pub or_raise-eq-ok {ℓ} :
    {A : Type ℓ} (o : Option A) (e : Error) {a : A} → or_raise o e ≡ ok a → o ≡ some a
or_raise-eq-ok none e h = cc
or_raise-eq-ok (some a) e h = cc

pub project_row-eq-ok : (db : Db) {p : ProjectRow} → project_row db ≡ ok p → db.project ≡ some p
unfolding project_row
project_row-eq-ok db h = or_raise-eq-ok db.project _ h

-- The current cycle is a row that the project names.
pub current-In :
    (db : Db) {p : ProjectRow} {c : CycleRow}
    → db.project ≡ some p
    → current_cycle_row db ≡ ok c
    → In c db.cycles × (c.id ≡ p.current_cycle_id)
unfolding current_cycle_row
current-In db {p} {c} e h =
    let (q, hq, h₁) = >>=-eq-ok (project_row db) _ h in
    let (_, h₂) = guard-eq-ok _ _ _ h₁ in
    let (m, t) =
      find-In (λ (x : CycleRow). x.id == q.current_cycle_id) db.cycles
        (or_raise-eq-ok (find (λ (x : CycleRow). x.id == q.current_cycle_id) db.cycles) _ h₂) in
    (m, cc ((eq_iff c.id q.current_cycle_id).0 t, project_row-eq-ok db hq, e))

log_phase-Logged :
    (stamps : Stamps) (event_type actor command phase : String) (project : ProjectRow) (db : Db)
    {db' : Db}
    → log_phase stamps event_type actor command phase project db ≡ ok db'
    → Logged db db'
unfolding log_phase
log_phase-Logged stamps event_type actor command phase project db h =
    let (after, _, h₁) = >>=-eq-ok (project_row db) _ h in
    emit-Logged stamps
      (event_of event_type "project" project.project_id (some (project_snapshot project))
        (some (project_snapshot after)) actor command
        (("from", str project.phase) ∷ ("to", str phase) ∷ []))
      db h₁

pub record Transitioned (ev : Evaluators) (phase : String) (db db' : Db) : Type 0 where
  pub project : ProjectRow
  pub found : db.project ≡ some project
  pub cycle : CycleRow
  pub current : current_cycle_row db ≡ ok cycle
  pub running : (is_active cycle.status || phase == project.phase) ≡ true
  pub known : contains phases phase ≡ true
  pub next : require_next project.phase phase ≡ ok tt
  pub ready : phase_prerequisite_issues ev db phase ≡ ok []
  pub stamps : Stamps
  pub status : String
  pub owner : String
  pub logged : Logged (in_phase stamps phase status owner project cycle db) db'

pub transition-Transitioned :
    (ev : Evaluators) (stamps : Stamps) (phase status owner : String) (db : Db) {db' : Db}
    → transition_body ev stamps phase status owner db ≡ ok db'
    → Transitioned ev phase db db'
unfolding transition_body
transition-Transitioned ev stamps phase status owner db h =
    let (project, found, h₁) = >>=-eq-ok (project_row db) _ h in
    let (cycle, current, h₂) = >>=-eq-ok (current_cycle_row db) _ h₁ in
    let (running, h₃) = guard-eq-ok _ _ _ h₂ in
    let (known, h₄) = guard-eq-ok _ _ _ h₃ in
    let (_, next, h₅) = >>=-eq-ok (require_next project.phase phase) _ h₄ in
    let (issues, ready, h₆) = >>=-eq-ok (phase_prerequisite_issues ev db phase) _ h₅ in
    let (empty, h₇) = guard-eq-ok _ _ _ h₆ in
    record {
      project = project;
      found = project_row-eq-ok db found;
      cycle = cycle;
      current = current;
      running = running;
      known = known;
      next = next;
      ready = ready ∙ ap ok (is_empty-eq_true issues empty);
      stamps = stamps;
      status = status;
      owner = owner;
      logged = log_phase-Logged stamps "phase_updated" owner "phase" phase project _ h₇;
    }

pub record Readied (ev : Evaluators) (db db' : Db) : Type 0 where
  pub project : ProjectRow
  pub found : db.project ≡ some project
  pub cycle : CycleRow
  pub current : current_cycle_row db ≡ ok cycle
  pub unblocked : ev.readiness_blockers db ≡ []
  pub running : is_active cycle.status ≡ true
  pub stamps : Stamps
  pub logged :
      Logged (in_phase stamps "delivery_readiness" "ready-for-delivery" "" project cycle db) db'

pub readiness-Readied :
    (ev : Evaluators) (stamps : Stamps) (db : Db) {db' : Db}
    → readiness_body ev stamps db ≡ ok db'
    → Readied ev db db'
unfolding readiness_body
readiness-Readied ev stamps db h =
    let (project, found, h₁) = >>=-eq-ok (project_row db) _ h in
    let (cycle, current, h₂) = >>=-eq-ok (current_cycle_row db) _ h₁ in
    let (empty, h₃) = guard-eq-ok _ _ _ h₂ in
    let (running, h₄) = guard-eq-ok _ _ _ h₃ in
    record {
      project = project;
      found = project_row-eq-ok db found;
      cycle = cycle;
      current = current;
      unblocked = is_empty-eq_true _ empty;
      running = running;
      stamps = stamps;
      logged =
          log_phase-Logged stamps "delivery_readiness_entered" "root-controller" "delivery ready"
            "delivery_readiness" project _ h₄;
    }

pub record Started (id : String) (db db' : Db) : Type 0 where
  pub project : ProjectRow
  pub found : db.project ≡ some project
  pub cycle : CycleRow
  pub current : current_cycle_row db ≡ ok cycle
  pub closed : is_active cycle.status ≡ false
  pub fresh : any (λ c. c.id == id) db.cycles ≡ false
  pub stamps : Stamps
  pub name : String
  pub goal : String
  pub base_ref : String
  pub logged : Logged (with_new_cycle stamps id name goal base_ref project db) db'

pub start_cycle-Started :
    (stamps : Stamps) (id name goal base_ref : String) (db : Db) {db' : Db}
    → start_cycle_body stamps id name goal base_ref db ≡ ok db'
    → Started id db db'
unfolding start_cycle_body
start_cycle-Started stamps id name goal base_ref db h =
    let (cycle, current, h₁) = >>=-eq-ok (current_cycle_row db) _ h in
    let (closed, h₂) = guard-eq-ok _ _ _ h₁ in
    let (fresh, h₃) = guard-eq-ok _ _ _ h₂ in
    let (project, found, h₄) = >>=-eq-ok (project_row db) _ h₃ in
    record {
      project = project;
      found = project_row-eq-ok db found;
      cycle = cycle;
      current = current;
      closed = not-eq-true _ closed;
      fresh = not-eq-true _ fresh;
      stamps = stamps;
      name = name;
      goal = goal;
      base_ref = base_ref;
      logged =
          emit-Logged stamps
            (event_of "delivery_cycle_started" "delivery_cycle" id none
              (some (cycle_snapshot (new_cycle stamps id name goal base_ref))) "" "cycle start" [])
            _ h₄;
    }

pub record Closed (ev : Evaluators) (db db' : Db) : Type 0 where
  pub project : ProjectRow
  pub found : db.project ≡ some project
  pub cycle : CycleRow
  pub current : current_cycle_row db ≡ ok cycle
  pub running : is_active cycle.status ≡ true
  pub stamps : Stamps
  pub logged : Logged (with_cycle_closed ev stamps project cycle db) db'

pub close-Closed :
    (ev : Evaluators) (stamps : Stamps) (db : Db) {db' : Db}
    → close_body ev stamps db ≡ ok db'
    → Closed ev db db'
unfolding close_body
close-Closed ev stamps db h =
    let (cycle, current, h₁) = >>=-eq-ok (current_cycle_row db) _ h in
    let (running, h₂) = guard-eq-ok _ _ _ h₁ in
    let (project, found, h₃) = >>=-eq-ok (project_row db) _ h₂ in
    record {
      project = project;
      found = project_row-eq-ok db found;
      cycle = cycle;
      current = current;
      running = running;
      stamps = stamps;
      logged =
          emit-Logged stamps
            (event_of "delivery_cycle_closed" "delivery_cycle" cycle.id
              (some (cycle_snapshot cycle))
              (cycle_snapshot? (
                find (λ c. c.id == cycle.id) (with_cycle_closed ev stamps project cycle db).cycles))
              "" "cycle close" [])
            _ h₃;
    }
