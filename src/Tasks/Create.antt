-- ===== src/Tasks/Create.antt =====
-- `parse_ids` and `_create_task_conn` of scripts/harness_db.py. A constraint of the tables
-- (core/schema_lifecycle.py) that an insert can break raises `constraint_failed`.
use Prim.Native.Char.{code}
use kafa.Base.{
  String, Bool, true, false, not, ◌&&◌, ◌||◌, none, List, [], ◌∷◌, ◌==◌, if◌then◌else◌, any, nat_eq,
  is_some,
}
use kafa.Base.Text.{strip}
use kafa.Ledger.{
  Db, TaskRow, LinkRow, KeyRow, DependencyRow, planned, Stamps, Result, ok, guard, ◌>>=◌, ◌>>◌,
  missing_acceptance, missing_failure_mode, duplicate_task, constraint_failed,
}
use kafa.Cycle.{current_cycle_id}
use kafa.Scheduler.{assert_no_dependency_cycle}
use kafa.Events.{emit_audit_event}
use kafa.Tasks.Defs.{require_text, require_task, find_task, non_empty, snapshot?}

abbrev push_char : Bool → (s : String) → List String → List String
push_char true s parts = "" ∷ parts
push_char false s [] = s ∷ []
push_char false s (part ∷ parts) = Prim.Native.String.◌++◌ s part ∷ parts

-- `value.replace(";", ",").split(",")`
split_ids : String → List String
split_ids String.[] = "" ∷ []
split_ids (String.◌∷◌ c s) =
    push_char (nat_eq (code c) b';' || nat_eq (code c) b',') (String.◌∷◌ c "") (split_ids s)

keep_parts : List String → List String
keep_parts [] = []
keep_parts (part ∷ parts) =
    let rest = keep_parts parts in let s = strip part in if non_empty s then s ∷ rest else rest

unfoldable pub parse_ids : String → List String
unfolding split_ids keep_parts
parse_ids value = keep_parts (split_ids value)

-- `for id in ids: step(id)`
unfoldable pub for_each : (String → Db → Result Db) → List String → Db → Result Db
for_each step [] db = ok db
for_each step (id ∷ ids) db = do db' ← step id db; for_each step ids db'

abbrev has_key : String → String → List KeyRow → Bool
has_key cycle_id id rows = any (λ r. r.cycle_id == cycle_id && r.id == id) rows

abbrev has_link : LinkRow → List LinkRow → Bool
has_link l rows =
    any (λ r. r.cycle_id == l.cycle_id && r.task_id == l.task_id && r.linked_id == l.linked_id) rows

abbrev has_dependency : DependencyRow → List DependencyRow → Bool
has_dependency d rows =
    any (λ r. r.cycle_id == d.cycle_id && r.task_id == d.task_id && r.depends_on == d.depends_on)
      rows

module _ (cycle_id task_id : String) where
  -- `require_acceptance` and the insert
  unfoldable pub add_acceptance_link : String → Db → Result Db
  add_acceptance_link id db = do
    current ← current_cycle_id db
    guard (has_key current id db.acceptance) (missing_acceptance id)
    let link : LinkRow = record { cycle_id = cycle_id; task_id = task_id; linked_id = id }
    guard (not (has_link link db.task_acceptance)) (constraint_failed "task_acceptance")
    ok (record db { task_acceptance = link ∷ db.task_acceptance })

  unfoldable pub add_failure_mode_link : String → Db → Result Db
  add_failure_mode_link id db = do
    guard (has_key cycle_id id db.failure_modes) (missing_failure_mode id)
    let link : LinkRow = record { cycle_id = cycle_id; task_id = task_id; linked_id = id }
    guard (not (has_link link db.task_failure_modes)) (constraint_failed "task_failure_modes")
    ok (record db { task_failure_modes = link ∷ db.task_failure_modes })

  unfoldable pub add_dependency : String → Db → Result Db
  add_dependency id db = do
    found ← require_task db id
    current ← current_cycle_id db
    assert_no_dependency_cycle db.task_dependencies current task_id id
    let row : DependencyRow = record { cycle_id = cycle_id; task_id = task_id; depends_on = id }
    guard (not (has_dependency row db.task_dependencies)) (constraint_failed "task_dependencies")
    ok (record db { task_dependencies = row ∷ db.task_dependencies })

-- What `task add` is given, and the `uid` that the table's default makes up.
pub record NewTask : Type 0 where
  pub uid : String
  pub id : String
  pub task : String
  pub owner : String
  pub acceptance : String
  pub failure_modes : String
  pub depends_on : String

abbrev pub new_row : Stamps → String → NewTask → TaskRow
new_row stamps cycle_id new = record {
  uid = new.uid;
  id = new.id;
  cycle_id = cycle_id;
  task = new.task;
  owner = new.owner;
  status = planned;
  evidence = "";
  submitted_context_id = "";
  accepted_by = "";
  revision = 1;
  updated_at = stamps.updated_at;
}

-- The insert into `tasks`: `uid` is its primary key.
unfoldable pub insert_task : TaskRow → Db → Result Db
insert_task row db = do
  guard (not (any (λ t. t.uid == row.uid) db.tasks)) (constraint_failed "tasks")
  ok (record db { tasks = row ∷ db.tasks })

unfoldable pub create_task : Stamps → NewTask → Db → Result Db
unfolding insert_task for_each add_acceptance_link add_failure_mode_link add_dependency parse_ids
    find_task
create_task stamps new db = do
  require_text "task id" new.id
  require_text "task" new.task
  cycle_id ← current_cycle_id db
  guard (not (is_some (find_task cycle_id new.id db.tasks))) (duplicate_task new.id)
  inserted ← insert_task (new_row stamps cycle_id new) db
  linked ← for_each (add_acceptance_link cycle_id new.id) (parse_ids new.acceptance) inserted
  moded ← for_each (add_failure_mode_link cycle_id new.id) (parse_ids new.failure_modes) linked
  ordered ← for_each (add_dependency cycle_id new.id) (parse_ids new.depends_on) moded
  emit_audit_event stamps
      (record {
        event_type = "task_created";
        entity_type = "task";
        entity_id = new.id;
        before = none;
        after = snapshot? (find_task cycle_id new.id ordered.tasks);
        actor = new.owner;
        command = "task add";
        extra = [];
      })
      ordered
