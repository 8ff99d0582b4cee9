-- ===== src/Tasks/LinkKeeps.antt =====
-- The links and dependencies of a new task, and its event, keep the tables consistent.
use kafa.Base.{String, ◌≡◌, sym, ap, subst, ◌∙◌, true, List, [], ◌∷◌, inl, inr, arith}
use kafa.Base.Members.{In, In-cons}
use kafa.Ledger.{
  Db, TaskRow, DependencyRow, LinkRow, is_accepted, Stamps, Result, ok, >>=-eq-ok, guard-eq-ok,
  ok-injective,
}
use kafa.Cycle.{current_cycle_id, current_cycle_row, project_row}
use kafa.Events.{EventFields, emit_audit_event, new_event}
use kafa.Scheduler.{assert_no_dependency_cycle}
use kafa.Scheduler.Reach.{Reach, IsAcyclic}
use kafa.Scheduler.Decides.{clear_sound}
use kafa.Scheduler.Acyclic.{IsAcyclic-cons}
use kafa.Tasks.Defs.{require_task}
use kafa.Tasks.Create.{for_each, add_acceptance_link, add_failure_mode_link, add_dependency}
use kafa.Tasks.Consistent.{IsConsistent, has_begun, Awaited, Waits}
use kafa.Tasks.Moves.{emit-eq-ok, sequence-new_event}
use kafa.Tasks.ChangeKeeps.{waterline-cons}
use kafa.Tasks.Rows.{require_task-In}
use kafa.Tasks.InsertKeeps.{Inserted}

pub for_each-keeps {ℓ} :
    (P : Db → Type ℓ) (step : String → Db → Result Db)
    → ((id : String) (db db' : Db) → step id db ≡ ok db' → P db → P db')
    → (ids : List String) (db : Db) {db' : Db} → for_each step ids db ≡ ok db'
    → P db
    → P db'
unfolding for_each
for_each-keeps P step keep [] db h p = subst P (ok-injective h) p
for_each-keeps P step keep (id ∷ ids) db h p =
    let (db₁, h₁, h₂) = >>=-eq-ok (step id db) _ h in
    for_each-keeps P step keep ids db₁ h₂ (keep id db db₁ h₁ p)

-- The links of a task enter into none of it.
pub relinked :
    (n : TaskRow) (db : Db) (links modes : List LinkRow)
    → Inserted n db
    → Inserted n (record db { task_acceptance = links; task_failure_modes = modes })
unfolding current_cycle_id current_cycle_row project_row
relinked n db links modes p =
    let c = p.consistent in
    record {
      consistent = record {
        unique_uid = c.unique_uid;
        unique_key = c.unique_key;
        awaited = c.awaited;
        acyclic = c.acyclic;
        ready = c.ready;
        signed = c.signed;
        waterline = c.waterline;
      };
      member = p.member;
      is_planned = p.is_planned;
      current = p.current;
    }

pub acceptance_link :
    (cycle_id task_id id : String) (db : Db) {db' : Db}
    → add_acceptance_link cycle_id task_id id db ≡ ok db'
    → (links : List LinkRow) × (db' ≡ record db { task_acceptance = links })
unfolding add_acceptance_link
acceptance_link cycle_id task_id id db h = (
  record { cycle_id = cycle_id; task_id = task_id; linked_id = id } ∷ db.task_acceptance,
  ground arith,
)

pub failure_mode_link :
    (cycle_id task_id id : String) (db : Db) {db' : Db}
    → add_failure_mode_link cycle_id task_id id db ≡ ok db'
    → (modes : List LinkRow) × (db' ≡ record db { task_failure_modes = modes })
unfolding add_failure_mode_link
failure_mode_link cycle_id task_id id db h = (
  record { cycle_id = cycle_id; task_id = task_id; linked_id = id } ∷ db.task_failure_modes,
  ground arith,
)

-- What a dependency that was added has passed.
pub record Dependency (cycle_id task_id id : String) (db db' : Db) : Type 0 where
  pub found : TaskRow
  pub found_at : require_task db id ≡ ok found
  pub current : String
  pub current_at : current_cycle_id db ≡ ok current
  pub clear : assert_no_dependency_cycle db.task_dependencies current task_id id ≡ ok tt
  pub result : db' ≡ record db {
    task_dependencies =
        record { cycle_id = cycle_id; task_id = task_id; depends_on = id } ∷ db.task_dependencies;
  }

pub Dependency-eq-ok :
    (cycle_id task_id id : String) (db : Db) {db' : Db}
    → add_dependency cycle_id task_id id db ≡ ok db'
    → Dependency cycle_id task_id id db db'
unfolding add_dependency
Dependency-eq-ok cycle_id task_id id db h =
    let (found, q, h₁) = >>=-eq-ok (require_task db id) _ h in
    let (current, r, h₂) = >>=-eq-ok (current_cycle_id db) _ h₁ in
    let (_, clear, h₃) =
      >>=-eq-ok (assert_no_dependency_cycle db.task_dependencies current task_id id) _ h₂ in
    let (_, h₄) = guard-eq-ok _ _ _ h₃ in
    record {
      found = found;
      found_at = q;
      current = current;
      current_at = r;
      clear = clear;
      result = sym (ok-injective h₄);
    }

module _ (n : TaskRow) (id : String) (db db' : Db) (d : Dependency n.cycle_id n.id id db db')
    (p : Inserted n db) where
  abbrev row : DependencyRow
  row = record { cycle_id = n.cycle_id; task_id = n.id; depends_on = id }

  abbrev rows : List DependencyRow
  rows = row ∷ db.task_dependencies

  found-Awaited : In d.found db.tasks × Awaited row d.found
  found-Awaited =
      let (m, i, k) = require_task-In db id d.found_at in (m, (ok-injective (sym k ∙ p.current), i))

  Awaited-rows : (e : DependencyRow) → In e rows → (u : TaskRow) × In u db.tasks × Awaited e u
  Awaited-rows e m = elim (In-cons m) [
    | inl q ↦ let (f, a) = found-Awaited in (d.found, f, subst (λ x. Awaited x d.found) (sym q) a)
    | inr o ↦ p.consistent.awaited e o
  ]

  IsAcyclic-rows : (k : String) → IsAcyclic rows k
  IsAcyclic-rows k = IsAcyclic-cons row db.task_dependencies k (p.consistent.acyclic k) (λ own.
      subst (λ x. ¬ Reach db.task_dependencies x id n.id)
        (ok-injective (sym d.current_at ∙ p.current) ∙ own)
        (clear_sound db.task_dependencies d.current n.id id d.clear))

  -- The task that is being made has not begun, so that its rows ask for nothing yet.
  ready_rows :
      (e : DependencyRow) (t u : TaskRow)
      → In e rows
      → In t db.tasks
      → In u db.tasks
      → Waits e t
      → Awaited e u
      → has_begun t.status ≡ true
      → is_accepted u.status ≡ true
  ready_rows e t u m mt mu w a h = elim (In-cons m) [
    | inl q ↦
        let own : Waits row t = subst (λ x. Waits x t) q w in
        let t≡n = p.consistent.unique_key t n mt p.member own in
        absurd (cc (h, ap (λ (x : TaskRow). has_begun x.status) t≡n, ap has_begun p.is_planned))
    | inr o ↦ p.consistent.ready e t u o mt mu w a h
  ]

  pub dependency_keeps : Inserted n db'
  unfolding current_cycle_id current_cycle_row project_row
  dependency_keeps =
      let c = p.consistent in
      rw d.result (record {
        consistent = record {
          unique_uid = c.unique_uid;
          unique_key = c.unique_key;
          awaited = Awaited-rows;
          acyclic = IsAcyclic-rows;
          ready = ready_rows;
          signed = c.signed;
          waterline = c.waterline;
        };
        member = p.member;
        is_planned = p.is_planned;
        current = p.current;
      })

pub finished :
    (stamps : Stamps) (fields : EventFields) (db : Db) {db' : Db}
    → emit_audit_event stamps fields db ≡ ok db'
    → IsConsistent db
    → IsConsistent db'
finished stamps fields db h c = rw (emit-eq-ok stamps fields db h) (record {
  unique_uid = c.unique_uid;
  unique_key = c.unique_key;
  awaited = c.awaited;
  acyclic = c.acyclic;
  ready = c.ready;
  signed = c.signed;
  waterline =
      waterline-cons (new_event stamps fields db) db.events (sequence-new_event stamps fields db)
        c.waterline;
})
