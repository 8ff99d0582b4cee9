-- ===== src/Tasks/Defs.antt =====
-- What the task operations share: lookups, the transition guard, the update with its audit event,
-- and the checks before a commit (`check_runtime_invariants` with the scope of one task).
use kafa.Base.{
  String, Bool, true, false, not, ◌&&◌, ◌||◌, Option, none, some, List, [], ◌∷◌, ◌++◌, ◌==◌,
  if◌then◌else◌, find, select, is_empty, length, nat_eq, when,
}
use kafa.Base.Text.{strip}
use kafa.Base.Values.{str, integer, pos}
use kafa.Ledger.{
  Db, TaskRow, TaskStatus, planned, active, submitted, accepted, blocked, cancelled, is_accepted,
  Stamps, Summary, Result, ok, guard, ◌>>=◌, ◌>>◌, missing_task, cannot_transition, text_required,
  invariant_failed,
}
use kafa.Cycle.{current_cycle_id, or_raise}
use kafa.Events.{emit_audit_event, has_task_accept_event, max_sequence}

abbrev pub status_text : TaskStatus → String
status_text planned = "planned"
status_text active = "active"
status_text submitted = "submitted"
status_text accepted = "accepted"
status_text blocked = "blocked"
status_text cancelled = "cancelled"

-- `row_snapshot` of a task
abbrev pub task_snapshot : TaskRow → Summary
task_snapshot row =
    ("uid", str row.uid)
    ∷ ("id", str row.id)
    ∷ ("cycle_id", str row.cycle_id)
    ∷ ("task", str row.task)
    ∷ ("owner", str row.owner)
    ∷ ("status", str (status_text row.status))
    ∷ ("evidence", str row.evidence)
    ∷ ("submitted_context_id", str row.submitted_context_id)
    ∷ ("accepted_by", str row.accepted_by)
    ∷ ("revision", integer (pos row.revision))
    ∷ ("updated_at", str row.updated_at)
    ∷ []

-- `select * from tasks where cycle_id = ? and id = ?`
unfoldable pub find_task : String → String → List TaskRow → Option TaskRow
find_task cycle_id id tasks = find (λ t. t.cycle_id == cycle_id && t.id == id) tasks

unfoldable pub require_task : Db → String → Result TaskRow
unfolding find_task
require_task db id = do
  cycle_id ← current_cycle_id db
  or_raise (find_task cycle_id id db.tasks) (missing_task id)

unfoldable pub require_task_transition :
    TaskRow → (TaskStatus → Bool) → TaskStatus → Result (Unit {0})
require_task_transition row allowed target =
    guard (allowed row.status) (cannot_transition row.id row.status target)

-- `update tasks set … where uid = ?`
unfoldable pub update_row : String → (TaskRow → TaskRow) → List TaskRow → List TaskRow
update_row uid f [] = []
update_row uid f (t ∷ ts) = (if t.uid == uid then f t else t) ∷ update_row uid f ts

abbrev pub snapshot? : Option TaskRow → Option Summary
snapshot? none = none
snapshot? (some row) = some (task_snapshot row)

-- The update, the row read again by its `uid`, and the event that records both.
unfoldable pub change_task :
    Stamps
    → (event_type command : String) → Summary
    → TaskRow
    → (TaskRow → TaskRow)
    → Db
    → Result Db
unfolding update_row
change_task stamps event_type command extra row f db =
    let tasks = update_row row.uid f db.tasks in
    emit_audit_event stamps
      (record {
        event_type = event_type;
        entity_type = "task";
        entity_id = row.id;
        before = some (task_snapshot row);
        after = snapshot? (find (λ t. t.uid == row.uid) tasks);
        actor = "root-controller";
        command = command;
        extra = extra;
      })
      (record db { tasks = tasks })

abbrev pub non_empty : String → Bool
non_empty s = if s == "" then false else true

-- `if not text.strip(): raise`
unfoldable pub require_text : String → String → Result (Unit {0})
require_text label s = guard (non_empty (strip s)) (text_required label)

-- The issues of one accepted row that a transaction touched.
unfoldable pub accepted_issues : Db → TaskRow → List String
accepted_issues db row =
    when (not (non_empty row.evidence)) ("accepted-task-missing-evidence" ∷ [])
    ++ when (not (non_empty row.accepted_by || has_task_accept_event row.id row.cycle_id db.events))
        ("accepted-task-missing-actor" ∷ [])

unfoldable pub issues_of : Db → List TaskRow → List String
unfolding accepted_issues
issues_of db [] = []
issues_of db (t ∷ ts) = accepted_issues db t ++ issues_of db ts

abbrev pub event_waterline_issues : Db → List String
event_waterline_issues db =
    when (not (nat_eq (length db.events) (max_sequence db.events))) ("event-waterline" ∷ [])

abbrev pub in_current_cycle : Db → String → Bool
in_current_cycle db cycle_id = elim db.project [
  | none ↦ false
  | some p ↦ cycle_id == p.current_cycle_id
]

-- `check_runtime_invariants(conn, root, scope=[("task", task_id)], full=False)`. The test of the
-- status values is left out, since no other value can be stored.
unfoldable pub task_scope_issues : Db → String → List String
unfolding issues_of
task_scope_issues db task_id =
    issues_of db (
      select (λ t. in_current_cycle db t.cycle_id && t.id == task_id && is_accepted t.status)
        db.tasks)
    ++ event_waterline_issues db

-- `with transaction(root, touched=[("task", task_id)])`: an error in the body or in the checks rolls
-- back, so there is no new state.
unfoldable pub transaction : String → (Db → Result Db) → Db → Result Db
unfolding task_scope_issues
transaction task_id body db = do
  db' ← body db
  let issues = task_scope_issues db' task_id
  guard (is_empty issues) (invariant_failed issues)
  ok db'
