-- ===== src/Tasks/CreateKeeps.antt =====
-- The creation of a task, with its links and dependencies, keeps the tables consistent.
use kafa.Base.{String, ◌≡◌, refl, false, not, List, is_some, not-eq-true}
use kafa.Base.Members.{In, later}
use kafa.Ledger.{Db, TaskRow, LinkRow, Stamps, ok, >>=-eq-ok, guard-eq-ok}
use kafa.Cycle.{current_cycle_id}
use kafa.Events.{EventFields, emit_audit_event}
use kafa.Tasks.Defs.{find_task, require_text}
use kafa.Tasks.Create.{
  NewTask, new_row, insert_task, for_each, add_acceptance_link, add_failure_mode_link,
  add_dependency, create_task, parse_ids,
}
use kafa.Tasks.Consistent.{IsConsistent}
use kafa.Tasks.Moves.{emit-eq-ok}
use kafa.Tasks.InsertKeeps.{Inserted, insert_keeps, insert-eq-ok}
use kafa.Tasks.LinkKeeps.{
  for_each-keeps, relinked, acceptance_link, failure_mode_link, Dependency, Dependency-eq-ok,
  dependency_keeps, finished,
}

-- The stages of a creation that succeeded.
pub record Created (stamps : Stamps) (new : NewTask) (db db' : Db) : Type 0 where
  pub cycle_id : String
  pub current : current_cycle_id db ≡ ok cycle_id
  pub new_key : is_some (find_task cycle_id new.id db.tasks) ≡ false
  pub inserted : Db
  pub insert_ok : insert_task (new_row stamps cycle_id new) db ≡ ok inserted
  pub linked : Db
  pub links_ok :
      for_each (add_acceptance_link cycle_id new.id) (parse_ids new.acceptance) inserted ≡ ok linked
  pub moded : Db
  pub modes_ok :
      for_each (add_failure_mode_link cycle_id new.id) (parse_ids new.failure_modes) linked
      ≡ ok moded
  pub ordered : Db
  pub rows_ok :
      for_each (add_dependency cycle_id new.id) (parse_ids new.depends_on) moded ≡ ok ordered
  pub fields : EventFields
  pub event_ok : emit_audit_event stamps fields ordered ≡ ok db'

pub create-eq-ok :
    (stamps : Stamps) (new : NewTask) (db : Db) {db' : Db}
    → create_task stamps new db ≡ ok db'
    → Created stamps new db db'
unfolding create_task
create-eq-ok stamps new db h =
    let (_, _, h₁) = >>=-eq-ok (require_text "task id" new.id) _ h in
    let (_, _, h₂) = >>=-eq-ok (require_text "task" new.task) _ h₁ in
    let (cycle_id, k, h₃) = >>=-eq-ok (current_cycle_id db) _ h₂ in
    let (f, h₄) = guard-eq-ok (not (is_some (find_task cycle_id new.id db.tasks))) _ _ h₃ in
    let (db₁, i, h₅) = >>=-eq-ok (insert_task (new_row stamps cycle_id new) db) _ h₄ in
    let (db₂, a, h₆) =
      >>=-eq-ok (for_each (add_acceptance_link cycle_id new.id) (parse_ids new.acceptance) db₁) _
        h₅ in
    let (db₃, m, h₇) =
      >>=-eq-ok (for_each (add_failure_mode_link cycle_id new.id) (parse_ids new.failure_modes) db₂)
        _ h₆ in
    let (db₄, d, h₈) =
      >>=-eq-ok (for_each (add_dependency cycle_id new.id) (parse_ids new.depends_on) db₃) _ h₇ in
    record {
      cycle_id = cycle_id;
      current = k;
      new_key = not-eq-true _ f;
      inserted = db₁;
      insert_ok = i;
      linked = db₂;
      links_ok = a;
      moded = db₃;
      modes_ok = m;
      ordered = db₄;
      rows_ok = d;
      fields = _;
      event_ok = h₈;
    }

-- A property that each stage keeps is one of the tables before the event.
pub stages :
    (P : Db → Type 0) (stamps : Stamps) (new : NewTask) (db : Db) {db' : Db}
    (c : Created stamps new db db')
    → ((x : Db) (links modes : List LinkRow)
        → P x
        → P (record x { task_acceptance = links; task_failure_modes = modes }))
    → ((id : String) (x y : Db) → Dependency c.cycle_id new.id id x y → P x → P y)
    → P c.inserted
    → P c.ordered
stages P stamps new db c link depend p =
    let with_links =
      for_each-keeps P (add_acceptance_link c.cycle_id new.id)
        (λ id x y e q.
          let (links, r) = acceptance_link c.cycle_id new.id id x e in
          rw r (link x links x.task_failure_modes q))
        (parse_ids new.acceptance) c.inserted c.links_ok p in
    let with_modes =
      for_each-keeps P (add_failure_mode_link c.cycle_id new.id)
        (λ id x y e q.
          let (modes, r) = failure_mode_link c.cycle_id new.id id x e in
          rw r (link x x.task_acceptance modes q))
        (parse_ids new.failure_modes) c.linked c.modes_ok with_links in
    for_each-keeps P (add_dependency c.cycle_id new.id)
      (λ id x y e q. depend id x y (Dependency-eq-ok c.cycle_id new.id id x e) q)
      (parse_ids new.depends_on) c.moded c.rows_ok with_modes

pub create_task-IsConsistent :
    (stamps : Stamps) (new : NewTask) (db : Db) {db' : Db}
    → create_task stamps new db ≡ ok db'
    → IsConsistent db
    → IsConsistent db'
create_task-IsConsistent stamps new db h c =
    let s = create-eq-ok stamps new db h in
    let n : TaskRow = new_row stamps s.cycle_id new in
    let last =
      stages (Inserted n) stamps new db s (λ x links modes p. relinked n x links modes p)
        (λ id x y d p. dependency_keeps n id x y d p)
        (insert_keeps n db s.insert_ok c refl s.current s.new_key) in
    finished stamps s.fields s.ordered s.event_ok last.consistent

-- A creation takes no row away.
pub create_task-In :
    (stamps : Stamps) (new : NewTask) (db : Db) {db' : Db} (t : TaskRow)
    → create_task stamps new db ≡ ok db'
    → In t db.tasks
    → In t db'.tasks
create_task-In stamps new db t h m =
    let s = create-eq-ok stamps new db h in
    let (_, q) = insert-eq-ok (new_row stamps s.cycle_id new) db s.insert_ok in
    rw (emit-eq-ok stamps s.fields s.ordered s.event_ok) (
      stages (λ x. In t x.tasks) stamps new db s (λ x links modes p. p)
        (λ id x y d p. rw d.result p) (rw q (later m)))
