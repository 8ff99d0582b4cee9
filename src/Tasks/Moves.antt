-- ===== src/Tasks/Moves.antt =====
-- What a task operation that succeeds has done, read off its body.
use kafa.Base.{◌+◌, String, ◌≡◌, refl, Bool, true, [], ◌∷◌, is_empty-eq_true, ◌∙◌, sym}
use kafa.Base.Text.{strip}
use kafa.Ledger.{
  Db, TaskRow, TaskStatus, planned, active, submitted, accepted, blocked, cancelled, Stamps,
  Summary, EventRow, Result, ok, ◌>>=◌, ◌>>◌, >>=-eq-ok, guard-eq-ok, ok-injective,
}
use kafa.Cycle.{require_active_cycle_for_mutation}
use kafa.Events.{EventFields, emit_audit_event, new_event, max_sequence}
use kafa.Scheduler.{require_task_runnable}
use kafa.Tasks.Defs.{
  require_task, require_task_transition, change_task, update_row, transaction, task_scope_issues,
}
use kafa.Tasks.Commands.{
  Command, add_task, start_task, submit_task, accept_task, block_task, cancel_task, from_planned,
  from_active, from_submitted, from_running, from_open, started, submitted_with, accepted_with,
  blocked_with, cancelled_with, body, execute, operation, target_id, argument_check, start_body,
  submit_body, accept_body, block_body, cancel_body,
}

-- The transitions of a task.
pub data TaskStep : TaskStatus → TaskStatus → Type 0 where
  start : TaskStep planned active
  submit : TaskStep active submitted
  accept : TaskStep submitted accepted
  block_active : TaskStep active blocked
  block_submitted : TaskStep submitted blocked
  cancel_planned : TaskStep planned cancelled
  cancel_active : TaskStep active cancelled
  cancel_submitted : TaskStep submitted cancelled

pub emit-eq-ok :
    (stamps : Stamps) (fields : EventFields) (db : Db) {db' : Db}
    → emit_audit_event stamps fields db ≡ ok db'
    → db' ≡ record db { events = new_event stamps fields db ∷ db.events }
unfolding emit_audit_event
emit-eq-ok stamps fields db h = let (_, e) = guard-eq-ok _ _ _ h in sym (ok-injective e)

pub sequence-new_event :
    (stamps : Stamps) (fields : EventFields) (db : Db)
    → (new_event stamps fields db).sequence ≡ max_sequence db.events + 1
unfolding new_event
sequence-new_event stamps fields db = refl

-- The tables after a change of one task: its row, and an event more.
pub record Changed (db db' : Db) (uid : String) (f : TaskRow → TaskRow) : Type 0 where
  pub event : EventRow
  pub sequence : event.sequence ≡ max_sequence db.events + 1
  pub result : db' ≡ record db { tasks = update_row uid f db.tasks; events = event ∷ db.events }

pub change_task-Changed :
    (stamps : Stamps) (event_type command : String) (extra : Summary) (row : TaskRow)
    (f : TaskRow → TaskRow) (db : Db) {db' : Db}
    → change_task stamps event_type command extra row f db ≡ ok db'
    → Changed db db' row.uid f
unfolding change_task
change_task-Changed stamps event_type command extra row f db h =
    let db₁ : Db = record db { tasks = update_row row.uid f db.tasks } in
    record {
      event = new_event stamps _ db₁;
      sequence = sequence-new_event stamps _ db₁;
      result = emit-eq-ok stamps _ db₁ h;
    }

pub transaction-eq-ok :
    (id : String) (b : Db → Result Db) (db : Db) {db' : Db}
    → transaction id b db ≡ ok db'
    → (b db ≡ ok db') × (task_scope_issues db' id ≡ [])
unfolding transaction
transaction-eq-ok id b db h =
    let (a, p, q) = >>=-eq-ok (b db) _ h in
    let (c, r) = guard-eq-ok _ _ _ q in
    (p ∙ r, rw (ok-injective r) at (is_empty-eq_true (task_scope_issues a id) c))

-- A body that looks a task up, tests its status and changes it.
module _ (stamps : Stamps) (event_type command : String) (extra : Summary) (f : TaskRow → TaskRow)
    (allowed : TaskStatus → Bool) (target : TaskStatus) (id : String) (db : Db) where
  pub guarded : (check : TaskRow → Result (Unit {0})) → Result Db
  guarded check = do
    row ← require_task db id
    require_task_transition row allowed target
    check row
    change_task stamps event_type command extra row f db

  pub record Guarded (check : TaskRow → Result (Unit {0})) (db' : Db) : Type 0 where
    pub row : TaskRow
    pub found : require_task db id ≡ ok row
    pub allowed_from : allowed row.status ≡ true
    pub checked : check row ≡ ok tt
    pub changed : Changed db db' row.uid f

  pub guarded-eq-ok :
      (check : TaskRow → Result (Unit {0})) {db' : Db} → guarded check ≡ ok db' → Guarded check db'
  unfolding guarded require_task_transition
  guarded-eq-ok check h =
      let (row, found, h₁) = >>=-eq-ok (require_task db id) _ h in
      let (from, h₂) = guard-eq-ok _ _ _ h₁ in
      let (_, checked, h₃) = >>=-eq-ok (check row) _ h₂ in
      record {
        row = row;
        found = found;
        allowed_from = from;
        checked = checked;
        changed = change_task-Changed stamps event_type command extra row f db h₃;
      }

-- The `set` clause of each operation.
abbrev pub assignments : Stamps → Command → TaskRow → TaskRow
assignments stamps (add_task new) = λ t. t
assignments stamps (start_task id) = started stamps
assignments stamps (submit_task id evidence context_id) =
    submitted_with stamps (strip evidence) (strip context_id)
assignments stamps (accept_task id evidence) = accepted_with stamps (strip evidence)
assignments stamps (block_task id reason) = blocked_with stamps (strip reason)
assignments stamps (cancel_task id reason) = cancelled_with stamps (strip reason)

-- What is known of the row of a task that is started.
abbrev pub StartCheck : Command → Db → TaskRow → Type 0
StartCheck (start_task id) db row = require_task_runnable db.tasks db.task_dependencies row ≡ ok tt
StartCheck _ db row = Unit

-- An operation on an existing task that succeeded.
pub record Performed (stamps : Stamps) (command : Command) (db db' : Db) : Type 0 where
  pub row : TaskRow
  pub found : require_task db (target_id command) ≡ ok row
  pub step : TaskStep row.status (assignments stamps command row).status
  pub runnable : StartCheck command db row
  pub changed : Changed db db' row.uid (assignments stamps command)

step_from_planned : (s : TaskStatus) → from_planned s ≡ true → TaskStep s active
step_from_planned planned h = start
step_from_planned _ h = cc

step_from_active : (s : TaskStatus) → from_active s ≡ true → TaskStep s submitted
step_from_active active h = submit
step_from_active _ h = cc

step_from_submitted : (s : TaskStatus) → from_submitted s ≡ true → TaskStep s accepted
step_from_submitted submitted h = accept
step_from_submitted _ h = cc

step_from_running : (s : TaskStatus) → from_running s ≡ true → TaskStep s blocked
step_from_running active h = block_active
step_from_running submitted h = block_submitted
step_from_running _ h = cc

step_from_open : (s : TaskStatus) → from_open s ≡ true → TaskStep s cancelled
step_from_open planned h = cancel_planned
step_from_open active h = cancel_active
step_from_open submitted h = cancel_submitted
step_from_open _ h = cc

abbrev pub IsNew : Command → Type 0
IsNew (add_task new) = Unit
IsNew _ = ⊥

pub body-Performed :
    (stamps : Stamps) (command : Command) (db : Db) {db' : Db}
    → ¬ IsNew command
    → body stamps command db ≡ ok db'
    → Performed stamps command db db'
unfolding start_body submit_body accept_body block_body cancel_body guarded
body-Performed stamps (add_task new) db old h = absurd (old tt)
body-Performed stamps (start_task id) db old h =
    let g =
      guarded-eq-ok stamps "task_started" "task start" [] (started stamps) from_planned active id db
        (λ row. require_task_runnable db.tasks db.task_dependencies row) h in
    record {
      row = g.row;
      found = g.found;
      step = step_from_planned g.row.status g.allowed_from;
      runnable = g.checked;
      changed = g.changed;
    }
body-Performed stamps (submit_task id evidence context_id) db old h =
    let g =
      guarded-eq-ok stamps "task_submitted" "task submit" _
        (assignments stamps (submit_task id evidence context_id)) from_active submitted id db
        (λ row. ok tt) h in
    record {
      row = g.row;
      found = g.found;
      step = step_from_active g.row.status g.allowed_from;
      runnable = tt;
      changed = g.changed;
    }
body-Performed stamps (accept_task id evidence) db old h =
    let g =
      guarded-eq-ok stamps "task_accepted" "task accept" []
        (assignments stamps (accept_task id evidence)) from_submitted accepted id db (λ row. ok tt)
        h in
    record {
      row = g.row;
      found = g.found;
      step = step_from_submitted g.row.status g.allowed_from;
      runnable = tt;
      changed = g.changed;
    }
body-Performed stamps (block_task id reason) db old h =
    let g =
      guarded-eq-ok stamps "task_blocked" "task block" []
        (assignments stamps (block_task id reason)) from_running blocked id db (λ row. ok tt) h in
    record {
      row = g.row;
      found = g.found;
      step = step_from_running g.row.status g.allowed_from;
      runnable = tt;
      changed = g.changed;
    }
body-Performed stamps (cancel_task id reason) db old h =
    let g =
      guarded-eq-ok stamps "task_cancelled" "task cancel" _
        (assignments stamps (cancel_task id reason)) from_open cancelled id db (λ row. ok tt) h in
    record {
      row = g.row;
      found = g.found;
      step = step_from_open g.row.status g.allowed_from;
      runnable = tt;
      changed = g.changed;
    }

-- What every operation that succeeds has passed.
pub record Committed (stamps : Stamps) (command : Command) (db db' : Db) : Type 0 where
  pub allowed : require_active_cycle_for_mutation (operation command) db ≡ ok tt
  pub arguments : argument_check command ≡ ok tt
  pub done : body stamps command db ≡ ok db'
  pub issues : task_scope_issues db' (target_id command) ≡ []

pub execute-eq-ok :
    (stamps : Stamps) (command : Command) (db : Db) {db' : Db}
    → execute stamps command db ≡ ok db'
    → Committed stamps command db db'
unfolding execute
execute-eq-ok stamps command db h =
    let (_, allowed, h₁) =
      >>=-eq-ok (require_active_cycle_for_mutation (operation command) db) _ h in
    let (_, arguments, h₂) = >>=-eq-ok (argument_check command) _ h₁ in
    let (done, issues) = transaction-eq-ok (target_id command) (body stamps command) db h₂ in
    record { allowed = allowed; arguments = arguments; done = done; issues = issues }
