-- ===== src/Tasks/Commands.antt =====
-- The public task operations of scripts/harness_db.py, each behind the guard of
-- `_project_mutation` and in one transaction, and sequences of them.
use kafa.Base.{◌+◌, String, Bool, true, false, List, [], ◌∷◌, if◌then◌else◌}
use kafa.Base.Text.{strip}
use kafa.Base.Values.{str}
use kafa.Ledger.{
  Db, TaskRow, TaskStatus, planned, active, submitted, accepted, blocked, cancelled, Stamps, Result,
  ok, err, ◌>>=◌, ◌>>◌,
}
use kafa.Cycle.{require_active_cycle_for_mutation}
use kafa.Scheduler.{require_task_runnable}
use kafa.Tasks.Defs.{
  require_task, require_task_transition, change_task, require_text, transaction, non_empty,
}
use kafa.Tasks.Create.{NewTask, create_task}

-- `{"planned"}`, `{"active"}`, `{"submitted"}`, `{"active", "submitted"}` and the three states that
-- can be cancelled
abbrev pub from_planned : TaskStatus → Bool
from_planned planned = true
from_planned _ = false

abbrev pub from_active : TaskStatus → Bool
from_active active = true
from_active _ = false

abbrev pub from_submitted : TaskStatus → Bool
from_submitted submitted = true
from_submitted _ = false

abbrev pub from_running : TaskStatus → Bool
from_running active = true
from_running submitted = true
from_running _ = false

abbrev pub from_open : TaskStatus → Bool
from_open planned = true
from_open active = true
from_open submitted = true
from_open _ = false

-- The `set` clauses of the updates.
abbrev pub started : Stamps → TaskRow → TaskRow
started stamps t = record t {
  status = active;
  revision = t.revision + 1;
  updated_at = stamps.updated_at;
}

abbrev pub submitted_with : Stamps → (evidence context_id : String) → TaskRow → TaskRow
submitted_with stamps evidence context_id t = record t {
  status = submitted;
  evidence = evidence;
  submitted_context_id = context_id;
  revision = t.revision + 1;
  updated_at = stamps.updated_at;
}

abbrev pub accepted_with : Stamps → (evidence : String) → TaskRow → TaskRow
accepted_with stamps evidence t = record t {
  status = accepted;
  evidence = evidence;
  accepted_by = "root-controller";
  revision = t.revision + 1;
  updated_at = stamps.updated_at;
}

abbrev pub blocked_with : Stamps → (reason : String) → TaskRow → TaskRow
blocked_with stamps reason t = record t {
  status = blocked;
  evidence = reason;
  revision = t.revision + 1;
  updated_at = stamps.updated_at;
}

abbrev pub cancelled_with : Stamps → (reason : String) → TaskRow → TaskRow
cancelled_with stamps reason t = record t {
  status = cancelled;
  evidence = if non_empty reason then reason else t.evidence;
  revision = t.revision + 1;
  updated_at = stamps.updated_at;
}

-- The bodies of the transactions.
unfoldable pub start_body : Stamps → String → Db → Result Db
start_body stamps id db = do
  row ← require_task db id
  require_task_transition row from_planned active
  require_task_runnable db.tasks db.task_dependencies row
  change_task stamps "task_started" "task start" [] row (started stamps) db

unfoldable pub submit_body : Stamps → (id evidence context_id : String) → Db → Result Db
submit_body stamps id evidence context_id db = do
  row ← require_task db id
  require_task_transition row from_active submitted
  change_task stamps "task_submitted" "task submit"
      (("submitted_context_id", str (strip context_id)) ∷ []) row
      (submitted_with stamps (strip evidence) (strip context_id)) db

unfoldable pub accept_body : Stamps → (id evidence : String) → Db → Result Db
accept_body stamps id evidence db = do
  row ← require_task db id
  require_task_transition row from_submitted accepted
  change_task stamps "task_accepted" "task accept" [] row (accepted_with stamps (strip evidence)) db

unfoldable pub block_body : Stamps → (id reason : String) → Db → Result Db
block_body stamps id reason db = do
  row ← require_task db id
  require_task_transition row from_running blocked
  change_task stamps "task_blocked" "task block" [] row (blocked_with stamps (strip reason)) db

unfoldable pub cancel_body : Stamps → (id reason : String) → Db → Result Db
cancel_body stamps id reason db = do
  row ← require_task db id
  require_task_transition row from_open cancelled
  change_task stamps "task_cancelled" "task cancel" (("reason", str (strip reason)) ∷ []) row
      (cancelled_with stamps (strip reason)) db

pub data Command : Type 0 where
  add_task : NewTask → Command
  start_task : (id : String) → Command
  submit_task : (id evidence context_id : String) → Command
  accept_task : (id evidence : String) → Command
  block_task cancel_task : (id reason : String) → Command

-- The name by which `_project_mutation` knows the function, and the task that is touched.
abbrev pub operation : Command → String
operation (add_task _) = "add_task"
operation (start_task _) = "start_task"
operation (submit_task _ _ _) = "submit_task"
operation (accept_task _ _) = "accept_task"
operation (block_task _ _) = "block_task"
operation (cancel_task _ _) = "cancel_task"

abbrev pub target_id : Command → String
target_id (add_task new) = new.id
target_id (start_task id) = id
target_id (submit_task id _ _) = id
target_id (accept_task id _) = id
target_id (block_task id _) = id
target_id (cancel_task id _) = id

-- The tests that stand before the transaction.
abbrev pub argument_check : Command → Result (Unit {0})
argument_check (submit_task _ evidence _) = require_text "task submit evidence" evidence
argument_check (accept_task _ evidence) = require_text "task accept evidence" evidence
argument_check (block_task _ reason) = require_text "task block reason" reason
argument_check _ = ok tt

abbrev pub body : Stamps → Command → Db → Result Db
body stamps (add_task new) db = create_task stamps new db
body stamps (start_task id) db = start_body stamps id db
body stamps (submit_task id evidence context_id) db = submit_body stamps id evidence context_id db
body stamps (accept_task id evidence) db = accept_body stamps id evidence db
body stamps (block_task id reason) db = block_body stamps id reason db
body stamps (cancel_task id reason) db = cancel_body stamps id reason db

unfoldable pub execute : Stamps → Command → Db → Result Db
execute stamps command db = do
  require_active_cycle_for_mutation (operation command) db
  argument_check command
  transaction (target_id command) (body stamps command) db

abbrev pub or_same : Db → Result Db → Db
or_same db (ok db') = db'
or_same db (err _) = db

-- A failed operation leaves the tables as they were.
unfoldable pub run : List (Stamps × Command) → Db → Db
run [] db = db
run ((stamps, command) ∷ rest) db = run rest (or_same db (execute stamps command db))
