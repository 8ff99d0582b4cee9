-- ===== src/Executions/Delivered.antt =====
-- The delivery policy of core/delivery.py with its own checks of executions.
use kafa.Base.{
  ℕ, String, ◌≡◌, refl, true, false, Option, none, some, List, [], ◌∷◌, ◌==◌, is_empty,
  is_empty-eq_true, not-eq-true,
}
use kafa.Base.Text.{strip}
use kafa.Base.Members.{In, first}
use kafa.Ledger.{ProjectRow, CycleRow, ok}
use kafa.Trust.Defs.{is_high}
use kafa.Trust.Policy.{Decision}
use kafa.Delivery.Facts.{
  Facts, ValidationRow, QualificationRow, FailureModeRow, Inspectors, Request, Scope,
}
use kafa.Delivery.Coverage.{
  on_qualification, delivery_validations, passes, qualification_of, qualified_issues, is_eligible,
}
use kafa.Delivery.Policy.{cycle_for, scope_for, evaluate_local_delivery_policy}
use kafa.Delivery.Approved.{Approved, high_risk-Approved}
use kafa.Executions.Defs.{
  ExecutionRow, TestTargetRow, ValidationExecutionRow, ExecutionStore, Checker,
}
use kafa.Executions.Checks.{
  executions_of, validation_execution_issues, qualified_validation_execution_issues,
}
use kafa.Executions.InOrder.{InOrder}
use kafa.Executions.Validated.{Qualified, qualified_validation_execution_issues-nil_iff}

-- The tables of executions beside those of the delivery.
pub record Runs : Type 0 where
  pub targets : List TestTargetRow
  pub executions : List ExecutionRow
  pub validation_executions : List ValidationExecutionRow

abbrev schema_of : Option ProjectRow → Option ℕ
schema_of none = none
schema_of (some project) = some project.schema_version

-- One database with both.
abbrev pub store_of : Facts → Runs → ExecutionStore
store_of facts runs = record {
  schema_version = schema_of facts.base.project;
  targets = runs.targets;
  executions = runs.executions;
  validation_executions = runs.validation_executions;
  acceptances = facts.acceptances;
  qualifications = facts.qualifications;
}

-- The policy's calls of the checks of executions.
unfoldable pub with_checks : Inspectors → Checker → ExecutionStore → Inspectors
with_checks insp checker store = record insp {
  validation_execution_issues = validation_execution_issues checker store;
  qualified_validation_execution_issues = qualified_validation_execution_issues checker store;
}

-- The validation is qualified, for structured results, and this execution of it is structured.
pub record Executed (checker : Checker) (store : ExecutionStore) (facts : Facts) (scope : Scope)
    : Type 0 where
  pub validation : ValidationRow
  pub counted : In validation (delivery_validations facts scope)
  pub passed : passes facts scope validation ≡ true
  pub qualification : QualificationRow
  pub qualification_at : qualification_of facts scope validation ≡ some qualification
  pub qualified : Qualified checker store scope.candidate true validation qualification
  pub execution : ExecutionRow
  pub linked : In execution (executions_of checker store validation)
  pub in_order : InOrder checker store scope.candidate true execution
  pub structured : (execution.result_format == "regex") ≡ false

module _ (insp : Inspectors) (checker : Checker) (facts : Facts) (runs : Runs) (scope : Scope) where
  some_first : {A : Type 0} (xs : List A) → is_empty xs ≡ false → (x : A) × In x xs
  some_first [] h = cc
  some_first (x ∷ xs) h = (x, first)

  found-Qualified :
      (v : ValidationRow) (o : Option QualificationRow)
      → is_empty
          (on_qualification facts scope (with_checks insp checker (store_of facts runs)) true v o)
        ≡ true
      → (q : QualificationRow) × (o ≡ some q)
        × Qualified checker (store_of facts runs) scope.candidate true v q
  unfolding with_checks
  found-Qualified v none h = absurd (cc h)
  found-Qualified v (some q) h = (
    q,
    refl,
    (qualified_validation_execution_issues-nil_iff checker (store_of facts runs) scope.candidate
          true v q).0
        (is_empty-eq_true _ h),
  )

  eligible-Qualified :
      (v : ValidationRow)
      → facts.has_qualification_column ≡ true
      → is_eligible facts scope (with_checks insp checker (store_of facts runs)) true v ≡ true
      → (q : QualificationRow) × (qualification_of facts scope v ≡ some q)
        × Qualified checker (store_of facts runs) scope.candidate true v q
  unfolding is_eligible qualified_issues
  eligible-Qualified v column h =
      found-Qualified v (qualification_of facts scope v) (rw column at h)

  Approved-Executed :
      {req : Request} {key : String}
      → facts.has_qualification_column ≡ true
      → Approved (with_checks insp checker (store_of facts runs)) facts req scope key
      → Executed checker (store_of facts runs) facts scope
  Approved-Executed column a =
      let v = a.validation in
      let (q, at, all) = eligible-Qualified v column a.structured in
      let (given, each) = all.1.1.1.1.1.1.1.1.1 in
      let (e, m) = some_first (executions_of checker (store_of facts runs) v) given in
      let in_order = (each e m).1.1 in
      record {
        validation = v;
        counted = a.counted;
        passed = a.passed;
        qualification = q;
        qualification_at = at;
        qualified = all;
        execution = e;
        linked = m;
        in_order = in_order;
        structured = not-eq-true _ in_order.1.1.1.1.1.1.1.0;
      }

-- If the policy, with its own checks of executions and qualifications on record, reports no issue
-- although the cycle has a failure mode at high or critical risk with an id that is not blank, then
-- the candidate is known, and a validation that counts for the delivery passes under a
-- qualification that is its latest and still current, and an execution of it with a structured
-- result is in order for the candidate: for a registered target, with exit code zero and a positive
-- count, allowed by the policy, and with a stored artifact of the recorded digest.
pub high_risk-Executed :
    (insp : Inspectors) (checker : Checker) (facts : Facts) (runs : Runs) (req : Request)
    (d : Decision) (project : ProjectRow) (cycle : CycleRow) (mode : FailureModeRow)
    → facts.has_qualification_column ≡ true
    → evaluate_local_delivery_policy (with_checks insp checker (store_of facts runs)) facts req
      ≡ ok ([], d)
    → facts.base.project ≡ some project
    → cycle_for facts req ≡ ok cycle
    → In mode facts.failure_modes
    → mode.cycle_id ≡ cycle.id
    → is_high mode.risk ≡ true
    → (strip mode.id == "") ≡ false
    → (scope : Scope) × (scope_for
          (with_checks insp checker (store_of facts runs))
          req
          project
          cycle
        ≡ ok scope)
      × Executed checker (store_of facts runs) facts scope
high_risk-Executed insp checker facts runs req d project cycle mode column done p e m same h given =
    let (scope, s, a) =
      high_risk-Approved (with_checks insp checker (store_of facts runs)) facts req d project cycle
        mode done p e m same h given in
    (scope, s, Approved-Executed insp checker facts runs scope column a)
