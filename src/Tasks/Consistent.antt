-- ===== src/Tasks/Consistent.antt =====
-- The invariant of the task tables: what they hold after any sequence of task operations.
use kafa.Base.{String, ◌≡◌, ◌≢◌, Bool, true, false, length}
use kafa.Base.Members.{In}
use kafa.Ledger.{Db, TaskRow, TaskStatus, DependencyRow, active, submitted, accepted, is_accepted}
use kafa.Events.{max_sequence}
use kafa.Scheduler.Reach.{IsAcyclic}

-- The task was started, and was neither blocked nor cancelled.
abbrev pub has_begun : TaskStatus → Bool
has_begun active = true
has_begun submitted = true
has_begun accepted = true
has_begun _ = false

-- The row `u` is the one that the dependency `d` waits for; the row `t` is the one that waits.
abbrev pub Awaited : DependencyRow → TaskRow → Type 0
Awaited d u = (u.cycle_id ≡ d.cycle_id) × (u.id ≡ d.depends_on)

abbrev pub Waits : DependencyRow → TaskRow → Type 0
Waits d t = (t.cycle_id ≡ d.cycle_id) × (t.id ≡ d.task_id)

abbrev pub SameKey : TaskRow → TaskRow → Type 0
SameKey t u = (t.cycle_id ≡ u.cycle_id) × (t.id ≡ u.id)

pub record IsConsistent (db : Db) : Type 0 where
  -- one row for each `uid`, and for each id of a cycle
  pub unique_uid : (t u : TaskRow) → In t db.tasks → In u db.tasks → t.uid ≡ u.uid → t ≡ u
  pub unique_key : (t u : TaskRow) → In t db.tasks → In u db.tasks → SameKey t u → t ≡ u
  -- what a dependency waits for is there
  pub awaited :
      (d : DependencyRow) → In d db.task_dependencies → (u : TaskRow) × In u db.tasks × Awaited d u
  -- no task depends on itself, through any chain
  pub acyclic : (cycle_id : String) → IsAcyclic db.task_dependencies cycle_id
  -- a task that has begun waits for accepted tasks only
  pub ready :
      (d : DependencyRow) (t u : TaskRow)
      → In d db.task_dependencies
      → In t db.tasks
      → In u db.tasks
      → Waits d t
      → Awaited d u
      → has_begun t.status ≡ true
      → is_accepted u.status ≡ true
  -- an accepted task has its evidence and the actor that accepted it
  pub signed :
      (t : TaskRow)
      → In t db.tasks
      → is_accepted t.status ≡ true
      → (t.evidence ≢ "") × (t.accepted_by ≡ "root-controller")
  -- the events are numbered with no gap
  pub waterline : length db.events ≡ max_sequence db.events
