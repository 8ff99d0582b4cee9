-- ===== src/Ledger/Tables.antt =====
-- The tables of core/schema_lifecycle.py that are read or written here, a record for each row. A
-- column whose CHECK constraint lists its values is a data type. The JSON columns of an event hold
-- the mapping that their text encodes.
use kafa.Base.{ℕ, String, Bool, true, false, Option, List}
use kafa.Base.Values.{Value}

pub data TaskStatus : Type 0 where
  planned active submitted accepted blocked cancelled : TaskStatus

pub data CycleStatus : Type 0 where
  active delivered archived : CycleStatus

pub record TaskRow : Type 0 where
  pub uid : String
  pub id : String
  pub cycle_id : String
  pub task : String
  pub owner : String
  pub status : TaskStatus
  pub evidence : String
  pub submitted_context_id : String
  pub accepted_by : String
  pub revision : ℕ
  pub updated_at : String

pub record DependencyRow : Type 0 where
  pub cycle_id : String
  pub task_id : String
  pub depends_on : String

-- A row of `task_acceptance` or `task_failure_modes`: the task and what it is linked to.
pub record LinkRow : Type 0 where
  pub cycle_id : String
  pub task_id : String
  pub linked_id : String

-- A row of `acceptance` or `failure_modes`, by its key.
pub record KeyRow : Type 0 where
  pub cycle_id : String
  pub id : String

-- `cancelled` is whether the status is `cancelled`.
pub record RequirementRow : Type 0 where
  pub cycle_id : String
  pub id : String
  pub cancelled : Bool

pub record BaselineRow : Type 0 where
  pub cycle_id : String
  pub id : String
  pub digest : String

pub record CycleRow : Type 0 where
  pub id : String
  pub name : String
  pub goal : String
  pub status : CycleStatus
  pub phase : String
  pub base_ref : String
  pub candidate_sha : String
  pub started_at : String
  pub closed_at : String
  pub created_at : String
  pub updated_at : String

pub record ProjectRow : Type 0 where
  pub project_id : String
  pub schema_version : ℕ
  pub runtime_version : String
  pub current_cycle_id : String
  pub phase : String
  pub status : String
  pub scope_status : String
  pub current_owner : String
  pub revision : ℕ
  pub updated_at : String

abbrev pub Summary : Type 0
Summary = List (String × Value)

pub record EventRow : Type 0 where
  pub sequence : ℕ
  pub id : String
  pub schema_version : ℕ
  pub event_type : String
  pub entity_type : String
  pub entity_id : String
  pub actor : String
  pub command : String
  pub before : Summary
  pub after : Summary
  pub correlation_id : String
  pub created_at : String

pub record Db : Type 0 where
  pub project : Option ProjectRow
  pub cycles : List CycleRow
  pub tasks : List TaskRow
  pub task_dependencies : List DependencyRow
  pub task_acceptance : List LinkRow
  pub task_failure_modes : List LinkRow
  pub acceptance : List KeyRow
  pub failure_modes : List KeyRow
  pub requirements : List RequirementRow
  -- the newest first
  pub baselines : List BaselineRow
  pub events : List EventRow

-- What the operations take from `now_iso` (at the update and at the event) and from `uuid4`.
pub record Stamps : Type 0 where
  pub updated_at : String
  pub created_at : String
  pub event_id : String
  pub correlation_id : String

abbrev pub is_accepted : TaskStatus → Bool
is_accepted accepted = true
is_accepted _ = false

abbrev pub is_planned : TaskStatus → Bool
is_planned planned = true
is_planned _ = false

abbrev pub is_active : CycleStatus → Bool
is_active active = true
is_active _ = false
