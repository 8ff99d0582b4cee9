-- ===== src/Executions/Defs.antt =====
-- The rows that the checks of executions in core/delivery.py read, and what they ask of other
-- modules.
use kafa.Base.{ℕ, String, Bool, true, false, Option, none, some, List, if◌then◌else◌, nat_eq}
use kafa.Base.Values.{Value, integer, pos}
use kafa.Delivery.Facts.{AcceptanceRow, QualificationRow}

pub record ExecutionRow : Type 0 where
  pub id : String
  pub cycle_id : String
  pub candidate_sha : String
  -- `none` is a null
  pub target_id : Option String
  -- `none` where the table has no such column
  pub target_definition_sha256 : Option String
  pub command : String
  pub exit_code : Value
  pub stdout_sha256 : String
  pub artifact_path : String
  pub executed_count : Value
  pub result_format : String
  pub semantic_status : String
  pub sandbox_status : String
  pub no_network : Value
  pub policy_status : String

pub record TestTargetRow : Type 0 where
  pub id : String
  pub command_template : String
  pub gateable : Value
  pub gate_block_reason : String
  pub requires_sandbox : Value
  pub requires_no_network : Value
  pub result_format : String

-- A row of `validation_executions`.
pub record ValidationExecutionRow : Type 0 where
  pub validation_id : String
  pub execution_id : String

-- The database: the rows of `executions` are ordered by `created_at` and `id`, those of
-- `acceptance_target_qualifications` by `created_at` and `rowid`.
pub record ExecutionStore : Type 0 where
  -- `schema_version` of the project, where it has one
  pub schema_version : Option ℕ
  pub targets : List TestTargetRow
  pub executions : List ExecutionRow
  pub validation_executions : List ValidationExecutionRow
  pub acceptances : List AcceptanceRow
  pub qualifications : List QualificationRow

-- What reading the file of an artifact comes to.
pub data Artifact : Type 0 where
  unsafe : (reason : String) → Artifact
  unavailable : Artifact
  content : (is_empty : Bool) (sha256 : String) → Artifact

-- `command_matches_template`, `target_definition_digest` and
-- `recorded_execution_provenance_issues` of core/execution.py, and the file system.
pub record Checker : Type 0 where
  pub command_matches_template : (command template : String) → Bool
  pub target_definition_digest : TestTargetRow → String
  pub provenance_issues : ExecutionRow → List String
  pub read_artifact : (relative : String) → Artifact

-- `_sqlite_flag`
unfoldable pub sqlite_flag : Value → Option Bool
sqlite_flag (integer (pos n)) =
    if nat_eq n 0 then some false else if nat_eq n 1 then some true else none
sqlite_flag _ = none

-- `_sqlite_integer(value) == 0`
unfoldable pub is_zero : Value → Bool
is_zero (integer (pos n)) = nat_eq n 0
is_zero _ = false
