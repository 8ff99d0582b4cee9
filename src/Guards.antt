-- ===== src/Guards.antt =====
-- core/schema_guard.py: the checks of the values that are written for an entity, but for those of
-- outcome observations, which read time stamps by a regular expression.
pub mod Accepts
mod Samples
use kafa.Base.{String, Bool, true, false, List, [], ◌∷◌}
use kafa.Base.Sets.{contains}
use kafa.Ledger.{Result, ok, guard, ◌>>=◌, ◌>>◌, choice_invalid}
use kafa.Tasks.Defs.{require_text}

abbrev pub task_statuses : List String
task_statuses = "planned" ∷ "active" ∷ "submitted" ∷ "accepted" ∷ "blocked" ∷ "cancelled" ∷ []

-- `REQUIREMENT_STATUS_VALUES`, and `ACCEPTANCE_STATUS_VALUES`
abbrev pub record_statuses : List String
record_statuses = "active" ∷ "cancelled" ∷ []

abbrev pub failure_mode_statuses : List String
failure_mode_statuses = "identified" ∷ "accepted" ∷ "exempt" ∷ []

abbrev pub risks : List String
risks = "low" ∷ "medium" ∷ "high" ∷ "critical" ∷ []

abbrev pub validation_results : List String
validation_results = "pass" ∷ "fail" ∷ "blocked" ∷ "partial" ∷ []

abbrev pub gate_results : List String
gate_results = "pass" ∷ "fail" ∷ "conditional" ∷ "blocked" ∷ []

abbrev pub gate_contexts : List String
gate_contexts = "fresh" ∷ "same-context-degraded" ∷ []

abbrev pub requirement_kinds : List String
requirement_kinds =
    "goal" ∷ "functional" ∷ "non-functional" ∷ "non-goal" ∷ "assumption" ∷ "open-question"
    ∷ "architecture" ∷ []

abbrev pub test_target_kinds : List String
test_target_kinds = "unit" ∷ "integration" ∷ "lint" ∷ "build" ∷ []

abbrev pub stack_profiles : List String
stack_profiles =
    "python" ∷ "node" ∷ "go" ∷ "rust" ∷ "java" ∷ "browser-e2e" ∷ "data-integration" ∷ []

abbrev pub result_formats : List String
result_formats =
    "regex" ∷ "junit" ∷ "pytest-json" ∷ "jest-json" ∷ "go-json" ∷ "cargo-nextest-json"
    ∷ "playwright-json" ∷ []

unfoldable pub require_choice : (label value : String) → (allowed : List String) → Result (Unit {0})
require_choice label value allowed = guard (contains allowed value) (choice_invalid label value)

-- The arguments of the functions `validate_…`, one constructor for each.
pub data Entity : Type 0 where
  requirement : (id kind body status : String) → Entity
  acceptance : (id criterion status : String) → Entity
  failure_mode : (id risk status : String) → Entity
  task : (id task status : String) → Entity
  validation : (surface findings result : String) → Entity
  gate : (reviewer_context result gate : String) → Entity
  delivery : (scope : String) → Entity
  test_target : (id kind command_template stack_profile result_format : String) → Entity

unfoldable pub validate : Entity → Result (Unit {0})
validate (requirement id kind body status) = do
  require_text "requirement id" id
  require_choice "requirement kind" kind requirement_kinds
  require_text "requirement body" body
  require_choice "requirement status" status record_statuses
validate (acceptance id criterion status) = do
  require_text "acceptance id" id
  require_text "acceptance criterion" criterion
  require_choice "acceptance status" status record_statuses
validate (failure_mode id risk status) = do
  require_text "failure mode id" id
  require_choice "failure mode risk" risk risks
  require_choice "failure mode status" status failure_mode_statuses
validate (task id body status) = do
  require_text "task id" id
  require_text "task" body
  require_choice "task status" status task_statuses
validate (validation surface findings result) = do
  require_text "validation surface" surface
  require_text "validation findings" findings
  require_choice "validation result" result validation_results
validate (gate reviewer_context result name) = do
  require_text "quality gate" name
  require_choice "quality gate reviewer context" reviewer_context gate_contexts
  require_choice "quality gate result" result gate_results
validate (delivery scope) = require_text "delivery scope" scope
validate (test_target id kind command_template stack_profile result_format) = do
  require_text "test target id" id
  require_choice "test target kind" kind test_target_kinds
  require_text "test target command template" command_template
  require_choice "test target stack profile" stack_profile stack_profiles
  require_choice "test target result format" result_format result_formats
