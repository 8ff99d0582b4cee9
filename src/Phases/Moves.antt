-- ===== src/Phases/Moves.antt =====
-- Which phases a project moves between, and what it takes to enter `qa`.
use kafa.Base.{
  String, ◌≡◌, ◌≢◌, refl, sym, ap, false, some, List, [], ◌==◌, ◌⊎◌, inl, inr, eq_iff, Bool-cases,
  select,
}
use kafa.Base.Members.{In, In-select, not-In-nil, append-eq-nil, map-eq-nil}
use kafa.Ledger.{Db, ProjectRow, TaskRow, blocked, Stamps, ok, >>=-eq-ok, ok-injective}
use kafa.Cycle.{project_row}
use kafa.Phases.Defs.{
  Evaluators, phase_prerequisite_issues, is_open, count_issues, open_issues, scope_issues,
}
use kafa.Phases.Commands.{transition_phase, project_in_phase, perform}
use kafa.Phases.Performed.{transition-Transitioned, readiness-Readied}
use kafa.Phases.Keeps.{perform-eq-ok}
use kafa.Tasks.Consistent.{IsConsistent}
use kafa.Tasks.Commands.{Command, run}
use kafa.Tasks.Runs.{run-final}
use kafa.Phases.Steps.{PhaseStep, require_next-PhaseStep}

-- What the phase of the project was and is, when its phase was changed.
pub record Move (ev : Evaluators) (phase : String) (db db' : Db) : Type 0 where
  pub before : ProjectRow
  pub before_at : db.project ≡ some before
  pub after : ProjectRow
  pub after_at : db'.project ≡ some after
  pub phase_at : after.phase ≡ phase
  pub step :
      ((phase ≡ before.phase) ⊎ PhaseStep before.phase phase)
        × (phase ≢ "delivery_readiness")
        × (phase_prerequisite_issues ev db phase ≡ ok [])
      ⊎ (phase ≡ "delivery_readiness")
        × (ev.readiness_blockers db ≡ [])
        × (after.status ≡ "ready-for-delivery")

-- A change of phase that succeeds leaves the project in the phase that was asked for. If that is not
-- delivery_readiness, it is the phase that the project had or one that follows it, and no
-- prerequisite of it was missing; if it is, there was no blocker and the project is now
-- ready-for-delivery.
pub transition_phase-Move :
    (ev : Evaluators) (stamps : Stamps) (phase status owner : String) (db : Db) {db' : Db}
    → perform ev stamps (transition_phase phase status owner) db ≡ ok db'
    → Move ev phase db db'
transition_phase-Move ev stamps phase status owner db {db'} h =
    let (_, _, done) = perform-eq-ok ev stamps (transition_phase phase status owner) db h in
    elim (Bool-cases (phase == "delivery_readiness")) [
      | inl e ↦
          let r = readiness-Readied ev stamps db (rw e at done) in
          let at = (eq_iff phase "delivery_readiness").0 e in
          record {
            before = r.project;
            before_at = r.found;
            after =
                project_in_phase r.stamps "delivery_readiness" "ready-for-delivery" "" r.project;
            after_at = ap (λ (d : Db). d.project) r.logged.result;
            phase_at = sym at;
            step = inr (at, r.unblocked, refl);
          }
      | inr e ↦
          let t = transition-Transitioned ev stamps phase status owner db (rw e at done) in
          let ne : phase ≢ "delivery_readiness" =
            λ q. cc (e, (eq_iff phase "delivery_readiness").1 q) in
          record {
            before = t.project;
            before_at = t.found;
            after = project_in_phase t.stamps phase t.status t.owner t.project;
            after_at = ap (λ (d : Db). d.project) t.logged.result;
            phase_at = refl;
            step = inl (require_next-PhaseStep t.project.phase phase ne t.next, ne, t.ready);
          }
    ]

open_issues-nil :
    (ev : Evaluators) (db : Db)
    → phase_prerequisite_issues ev db "qa" ≡ ok []
    → open_issues db "qa" ≡ []
unfolding phase_prerequisite_issues
open_issues-nil ev db h =
    let (project, _, h₁) = >>=-eq-ok (project_row db) _ h in
    let (scope, _, h₂) = >>=-eq-ok (scope_issues ev db project "qa") _ h₁ in
    let (_, rest) =
      append-eq-nil (count_issues db project.current_cycle_id "qa") _ (ok-injective h₂) in
    let (_, e) = append-eq-nil scope _ rest in e

no_open_task :
    (db : Db) (t : TaskRow) → open_issues db "qa" ≡ [] → In t db.tasks → is_open t.status ≡ false
no_open_task db t h m = elim (Bool-cases (is_open t.status)) [
  | inl e ↦ absurd (
      not-In-nil _ (map-eq-nil _ (select (λ t. is_open t.status) db.tasks) h)
        (In-select (λ t. is_open t.status) db.tasks m e))
  | inr e ↦ e
]

-- A project enters qa, or stays in it by a change of phase, only while no task of any cycle is
-- planned, active or blocked.
pub qa-no_open_task :
    (ev : Evaluators) (stamps : Stamps) (status owner : String) (db : Db) {db' : Db} (t : TaskRow)
    → perform ev stamps (transition_phase "qa" status owner) db ≡ ok db'
    → In t db.tasks
    → is_open t.status ≡ false
qa-no_open_task ev stamps status owner db t h m =
    let (_, _, done) = perform-eq-ok ev stamps (transition_phase "qa" status owner) db h in
    let r = transition-Transitioned ev stamps "qa" status owner db done in
    no_open_task db t (open_issues-nil ev db r.ready) m

-- In consistent tables with a blocked task, of whichever cycle, no task operations lead to tables in
-- which the project can enter qa.
pub blocked-no_qa :
    (ev : Evaluators) (stamps : Stamps) (status owner : String) (history : List (Stamps × Command))
    (db : Db) {db' : Db} (t : TaskRow)
    → IsConsistent db
    → In t db.tasks
    → t.status ≡ blocked
    → perform ev stamps (transition_phase "qa" status owner) (run history db) ≢ ok db'
blocked-no_qa ev stamps status owner history db t c m e h = cc (
  e,
  qa-no_open_task ev stamps status owner (run history db) t h
      (run-final history db t c m (rw e refl)),
)
