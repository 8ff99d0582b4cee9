-- ===== src/Executions/Samples.antt =====
-- An execution behind a small delivery, and the theorems on it.
use kafa.Base.{◌≡◌, refl, true, false, some, [], ◌∷◌, ◌↔◌, ◌==◌, if◌then◌else◌}
use kafa.Base.Text.{strip, lower, replace_z, text_lt}
use kafa.Base.Sets.{contains, to_set, add}
use kafa.Base.Values.{integer, pos, negsuc, text_or_empty, is_absent}
use kafa.Base.Members.{first}
use kafa.Ledger.{ok}
use kafa.Cycle.{project_row, current_cycle_row, current_cycle_id}
use kafa.Phases.Defs.{baseline_issues}
use kafa.Trust.Defs.{timestamp, positive_integer, acceptance_issues, missing_fields}
use kafa.Trust.Policy.{
  evaluate_local_trust, levels, required, high_risk, medium_risk, distinct_contexts,
}
use kafa.Delivery.Findings.{finding_blocks, is_complete}
use kafa.Delivery.Facts.{Scope, QualificationRow, exit_code_not_zero, artifact}
use kafa.Delivery.Coverage.{
  delivery_validations, try_each, proofs_of, covers_of, qualification_of, qualified_issues,
  is_eligible, current_execution, unproven, uncovered,
}
use kafa.Delivery.Risks.{
  risky_modes, risky_findings, open_findings, risk_levels, mode_acceptance, finding_acceptance,
  risk_acceptances, required_risk_ids,
}
use kafa.Delivery.Checks.{
  graph_issues, invalidation_issues, validation_issues, proof_issues, mode_issues, finding_issues,
  newest, latest_gate, gate_issues, worktree,
}
use kafa.Delivery.Policy.{
  trust_input, trust_of, later_issues, cycle_for, scope_for, in_scope,
  evaluate_local_delivery_policy,
}
use kafa.Delivery.Example.{cycle, project, inspectors, validation, mode, facts, request, decision}
use kafa.Executions.Defs.{
  ExecutionRow, TestTargetRow, ExecutionStore, unavailable, content, Checker, sqlite_flag, is_zero,
}
use kafa.Executions.Checks.{
  artifact_issues, target_issues, target_of, execution_issues, executions_of,
  validation_execution_issues, latest_qualification, qualified_validation_execution_issues,
}
use kafa.Executions.InOrder.{InOrder, execution_issues-nil_iff}
use kafa.Executions.Validated.{Qualified, qualified_validation_execution_issues-nil_iff}
use kafa.Executions.Delivered.{Runs, store_of, with_checks, Executed, high_risk-Executed}

-- Names what an evaluation of the checks computes with.
checks : Unit {0}
unfolding qualified_validation_execution_issues validation_execution_issues latest_qualification
    execution_issues executions_of target_issues target_of artifact_issues sqlite_flag is_zero
    positive_integer strip lower
checks = tt

-- Names what an evaluation of the policy with its checks computes with.
program : Unit {0}
unfolding evaluate_local_delivery_policy in_scope cycle_for scope_for later_issues trust_of
    trust_input graph_issues invalidation_issues validation_issues proof_issues mode_issues
    finding_issues newest latest_gate gate_issues worktree risky_modes risky_findings open_findings
    risk_levels mode_acceptance finding_acceptance risk_acceptances required_risk_ids
    delivery_validations try_each proofs_of covers_of qualification_of qualified_issues is_eligible
    current_execution unproven uncovered finding_blocks is_complete evaluate_local_trust levels
    required high_risk medium_risk distinct_contexts acceptance_issues add missing_fields
    text_or_empty is_absent timestamp replace_z contains to_set baseline_issues current_cycle_row
    current_cycle_id project_row text_lt with_checks checks
program = tt

-- One file is stored, and a template matches itself alone.
abbrev checker : Checker
checker = record {
  command_matches_template = λ command template. command == template;
  target_definition_digest = λ t. "d";
  provenance_issues = λ _. [];
  read_artifact = λ path. if path == "out.json" then content false "ab" else unavailable;
}

abbrev execution : ExecutionRow
execution = record {
  id = "E1";
  cycle_id = "C1";
  candidate_sha = "abc";
  target_id = some "T1";
  target_definition_sha256 = some "d";
  command = "pytest";
  exit_code = integer (pos 0);
  stdout_sha256 = "AB";
  artifact_path = "out.json";
  executed_count = integer (pos 12);
  result_format = "pytest-json";
  semantic_status = "pass";
  sandbox_status = "";
  no_network = integer (pos 0);
  policy_status = "allowed";
}

abbrev target : TestTargetRow
target = record {
  id = "T1";
  command_template = "pytest";
  gateable = integer (pos 1);
  gate_block_reason = "";
  requires_sandbox = integer (pos 0);
  requires_no_network = integer (pos 0);
  result_format = "pytest-json";
}

abbrev runs : Runs
runs = record {
  targets = target ∷ [];
  executions = execution ∷ [];
  validation_executions = record { validation_id = "V1"; execution_id = "E1" } ∷ [];
}

abbrev store : ExecutionStore
store = store_of facts runs

failed :
    execution_issues checker store "abc" true
      (record execution { exit_code = integer (negsuc 0); artifact_path = "lost.json" })
    ≡ exit_code_not_zero "E1" ∷ artifact "E1" "is unavailable" ∷ []
unfolding checks
failed = refl

execution_issues-nil_iff_example :
    (execution_issues checker store "abc" true execution ≡ [])
    ↔ InOrder checker store "abc" true execution
execution_issues-nil_iff_example = execution_issues-nil_iff checker store "abc" true execution

abbrev qualification : QualificationRow
qualification = record {
  id = "Q1";
  cycle_id = "C1";
  acceptance_id = "A1";
  acceptance_revision = 1;
  target_id = "T1";
  target_definition_sha256 = "d";
}

clean : qualified_validation_execution_issues checker store validation qualification "abc" true ≡ []
unfolding checks
clean = refl

qualified_validation_execution_issues-nil_iff_example :
    (qualified_validation_execution_issues checker store validation qualification "abc" true ≡ [])
    ↔ Qualified checker store "abc" true validation qualification
qualified_validation_execution_issues-nil_iff_example =
    qualified_validation_execution_issues-nil_iff checker store "abc" true validation qualification

cleared :
    evaluate_local_delivery_policy (with_checks inspectors checker store) facts request
    ≡ ok ([], decision)
unfolding program
cleared = refl

same_cycle : cycle_for facts request ≡ ok cycle
unfolding program
same_cycle = refl

id_given : (strip "FM1" == "") ≡ false
unfolding program
id_given = refl

high_risk-Executed_example :
    (scope : Scope) × (scope_for (with_checks inspectors checker store) request project cycle
      ≡ ok scope)
    × Executed checker store facts scope
high_risk-Executed_example =
    high_risk-Executed inspectors checker facts runs request decision project cycle mode refl
      cleared refl same_cycle first refl refl id_given
