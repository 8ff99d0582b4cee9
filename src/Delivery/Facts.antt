-- ===== src/Delivery/Facts.antt =====
-- The rows that `_evaluate_local_delivery_policy` of core/delivery.py reads, the checks of other
-- modules that it calls, and its arguments.
use kafa.Base.{ℕ, String, Bool, Option, List, ◌||◌, ◌==◌}
use kafa.Base.Values.{Value}
use kafa.Ledger.{Db, CycleRow, Result}
use kafa.Phases.Defs.{Evaluators}
use kafa.Trust.Defs.{IsoParser}
use kafa.Delivery.Findings.{FindingRow}

pub record InvalidationRow : Type 0 where
  pub id : String
  pub cycle_id : String
  pub source_type : String
  pub source_id : String
  pub target_type : String
  pub target_id : String
  pub reason : String
  -- `none` is a null
  pub resolved_at : Option String

pub record ValidationRow : Type 0 where
  pub id : String
  pub cycle_id : String
  pub candidate_sha : String
  -- `none` is a null, here and below
  pub acceptance_id : Option String
  pub surface : String
  pub result : String
  pub validation_status : String
  pub qualification_id : Option String

-- A row of `acceptance_target_qualifications`.
pub record QualificationRow : Type 0 where
  pub id : String
  pub cycle_id : String
  pub acceptance_id : String
  pub acceptance_revision : ℕ
  pub target_id : String
  pub target_definition_sha256 : String

pub record AcceptanceRow : Type 0 where
  pub cycle_id : String
  pub id : String
  pub revision : ℕ
  pub status : String

pub record FailureModeRow : Type 0 where
  pub cycle_id : String
  pub id : String
  pub risk : String
  pub status : String
  pub accepted_by : Value
  pub acceptance_reason : Value
  pub acceptance_scope : Value
  pub accepted_revision : Value
  pub expires_at : Value

pub record ValidationModeRow : Type 0 where
  pub validation_id : String
  pub cycle_id : String
  pub failure_mode_id : String

-- A row of `failure_mode_acceptance`.
pub record ModeAcceptanceRow : Type 0 where
  pub cycle_id : String
  pub failure_mode_id : String
  pub acceptance_id : String

pub record GateRow : Type 0 where
  pub id : String
  pub sequence : ℕ
  pub cycle_id : String
  pub candidate_sha : String
  pub gate_status : String
  pub gate : String
  pub producer_context_id : Value
  pub reviewer_context_id : Value
  pub review_status : Value
  pub result : String
  pub blocking_findings : String
  pub residual_risk : Value
  pub reviewed_revision : Value

-- The database: the tables of `Db`, and those of a delivery. The rows of `validations` are ordered
-- by `created_at` and `id`.
pub record Facts : Type 0 where
  pub base : Db
  pub invalidations : List InvalidationRow
  pub validations : List ValidationRow
  -- `"qualification_id" in validation_columns`
  pub has_qualification_column : Bool
  pub qualifications : List QualificationRow
  pub acceptances : List AcceptanceRow
  pub failure_modes : List FailureModeRow
  pub validation_failure_modes : List ValidationModeRow
  pub failure_mode_acceptance : List ModeAcceptanceRow
  pub findings : List FindingRow
  pub quality_gates : List GateRow

-- What `validation_execution_issues`, `qualified_validation_execution_issues` and the policy itself
-- say against the executions of a validation, by the rows that the message names.
pub data ExecutionIssue : Type 0 where
  qualification_missing no_linked_execution : (id : String) → ExecutionIssue
  cycle_mismatch candidate_mismatch : (execution validation : String) → ExecutionIssue
  candidate_stale target_unregistered target_not_gateable sandbox_flag_invalid network_flag_invalid
        command_mismatch format_mismatch digest_missing digest_mismatch sandbox_required
        offline_sandbox_required no_network_invalid exit_code_not_zero count_not_positive
        semantic_not_pass policy_not_allowed not_structured :
      (execution : String) → ExecutionIssue
  provenance artifact : (execution issue : String) → ExecutionIssue
  qualification_superseded qualification_target_missing qualification_target_stale
        qualification_acceptance_inactive qualification_acceptance_stale :
      (qualification : String) → ExecutionIssue
  not_referenced acceptance_mismatch qualification_cycle_mismatch validation_not_current :
      (validation : String) → ExecutionIssue
  target_mismatch target_digest_mismatch : (execution qualification : String) → ExecutionIssue

-- What the policy asks of the other modules, of the clock and of git, for one database and root:
-- `traceability_issues`, `validation_execution_issues`, `qualified_validation_execution_issues`.
pub record Inspectors : Type 0 where
  pub parse : IsoParser
  pub is_expired : String → Bool
  pub now_iso : String
  pub current_candidate_sha : Result String
  -- `bool(git_head_sha(root))`
  pub has_head : Bool
  -- `bool(git_dirty(root))`
  pub git_dirty : Result Bool
  pub evaluators : Evaluators
  pub traceability_issues : Result (List String)
  pub validation_execution_issues :
      ValidationRow → (candidate : String) → (require_structured : Bool) → List ExecutionIssue
  pub qualified_validation_execution_issues :
      ValidationRow
      → QualificationRow
      → (candidate : String) → (require_structured : Bool) → List ExecutionIssue

-- The keyword arguments; a `revision_override` of `None` is `null`.
pub record Request : Type 0 where
  pub observed_at : Option String
  pub include_graph_issues : Bool
  pub cycle_override : Option CycleRow
  pub candidate_override : Option String
  pub revision_override : Value
  pub historical : Bool

-- What the body binds first.
pub record Scope : Type 0 where
  pub cycle : CycleRow
  pub candidate : String
  pub revision : Option ℕ

-- `in ('medium', 'high', 'critical')`
abbrev pub is_risky : String → Bool
is_risky s = s == "medium" || s == "high" || s == "critical"
