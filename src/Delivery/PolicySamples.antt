-- ===== src/Delivery/PolicySamples.antt =====
-- A delivery with an accepted risk under the policy, and the theorems on it.
use kafa.Base.{none}
use kafa.Ledger.{cycle_not_configured, source_unreadable, Result, ok, err}
use kafa.Delivery.Facts.{Inspectors, Scope}
use kafa.Delivery.Raises.{Raises}
use kafa.Base.{◌≡◌, refl, false, some, List, [], ◌∷◌, ◌↔◌, ◌==◌}
use kafa.Base.Text.{strip, lower, replace_z, text_lt}
use kafa.Base.Sets.{contains, to_set, add}
use kafa.Base.Values.{integer, str, pos, text_or_empty, is_absent}
use kafa.Base.Members.{first}
use kafa.Cycle.{project_row, current_cycle_row, current_cycle_id}
use kafa.Phases.Defs.{baseline_issues}
use kafa.Trust.Defs.{record_missing, timestamp, positive_integer, acceptance_issues, missing_fields}
use kafa.Trust.Policy.{
  Decision, TrustStatus, acceptance, high_distinct_contexts_required, evaluate_local_trust, levels,
  required, high_risk, medium_risk, distinct_contexts,
}
use kafa.Delivery.Findings.{finding_blocks, is_complete}
use kafa.Delivery.Facts.{Facts}
use kafa.Delivery.Coverage.{
  delivery_validations, try_each, proofs_of, covers_of, qualification_of, qualified_issues,
  is_eligible, current_execution, unproven, uncovered,
}
use kafa.Delivery.Risks.{
  risky_modes, risky_findings, open_findings, risk_levels, mode_acceptance, finding_acceptance,
  risk_acceptances, required_risk_ids,
}
use kafa.Delivery.Checks.{
  PolicyIssue, mode_uncovered, not_allowed, reviewed_revision_stale, contexts_not_distinct,
  graph_issues, invalidation_issues, validation_issues, proof_issues, mode_issues, finding_issues,
  newest, latest_gate, gate_issues, worktree,
}
use kafa.Delivery.Policy.{
  trust_input, trust_of, later_issues, cycle_for, scope_for, in_scope,
  evaluate_local_delivery_policy,
}
use kafa.Delivery.Allows.{Allowed, evaluate_local_delivery_policy-nil_iff}
use kafa.Delivery.Approved.{Approved, high_risk-Approved}
use kafa.Delivery.Example.{decision, inspectors, cycle, project, mode, gate, facts, request}

-- Names what an evaluation of the policy computes with.
program : Unit {0}
unfolding evaluate_local_delivery_policy in_scope cycle_for scope_for later_issues trust_of
    trust_input graph_issues invalidation_issues validation_issues proof_issues mode_issues
    finding_issues newest latest_gate gate_issues worktree risky_modes risky_findings open_findings
    risk_levels mode_acceptance finding_acceptance risk_acceptances required_risk_ids
    delivery_validations try_each proofs_of covers_of qualification_of qualified_issues is_eligible
    current_execution unproven uncovered finding_blocks is_complete evaluate_local_trust levels
    required high_risk medium_risk distinct_contexts acceptance_issues add missing_fields
    text_or_empty is_absent positive_integer timestamp strip lower replace_z contains to_set
    baseline_issues current_cycle_row current_cycle_id project_row text_lt
program = tt

abbrev result : Facts → Result (List PolicyIssue × Decision)
result f = evaluate_local_delivery_policy inspectors f request

abbrev issues : Facts → List PolicyIssue
issues f = of_result (result f)
  where
    of_result : Result (List PolicyIssue × Decision) → List PolicyIssue
    of_result (err raised) = []
    of_result (ok (found, d)) = found

in_order : evaluate_local_delivery_policy inspectors facts request ≡ ok ([], decision)
unfolding program
in_order = refl

-- A second failure mode that nothing covers, and a gate of an older revision without two contexts.
uncovered_mode :
    issues (record facts {
      failure_modes = mode ∷ record mode { id = "FM2"; risk = "medium"; status = "active" } ∷ [];
    })
    ≡ mode_uncovered "medium" "FM2" []
      ∷ not_allowed TrustStatus.human_review_required (acceptance (record_missing "FM2") ∷ [])
      ∷ []
unfolding program
uncovered_mode = refl

one_context :
    issues (record facts {
      quality_gates =
          record gate { reviewer_context_id = str "maker "; reviewed_revision = integer (pos 2) }
          ∷ [];
    })
    ≡ reviewed_revision_stale 2 (some 3) "G1"
      ∷ contexts_not_distinct "G1"
      ∷ not_allowed TrustStatus.human_review_required (high_distinct_contexts_required ∷ [])
      ∷ []
unfolding program
one_context = refl

evaluate_local_delivery_policy-nil_iff_example :
    (evaluate_local_delivery_policy inspectors facts request ≡ ok ([], decision))
    ↔ Allowed inspectors facts request decision
evaluate_local_delivery_policy-nil_iff_example =
    evaluate_local_delivery_policy-nil_iff inspectors facts request decision

same_cycle : cycle_for facts request ≡ ok cycle
unfolding program
same_cycle = refl

id_given : (strip "FM1" == "") ≡ false
unfolding program
id_given = refl

high_risk-Approved_example :
    (scope : Scope) × (scope_for inspectors request project cycle ≡ ok scope)
    × Approved inspectors facts request scope (strip "FM1")
high_risk-Approved_example =
    high_risk-Approved inspectors facts request decision project cycle mode in_order refl same_cycle
      first refl refl id_given

-- The trace of the requirements raises, and the working tree would.
abbrev broken : Inspectors
broken = record inspectors {
  traceability_issues = err cycle_not_configured;
  git_dirty = err (source_unreadable "a symbolic link");
}

raised : evaluate_local_delivery_policy broken facts request ≡ err cycle_not_configured
unfolding program
raised = refl

-- Without the graph the tree is what raises, and a candidate that cannot be read comes before it.
tree_raised :
    evaluate_local_delivery_policy broken facts (record request { include_graph_issues = false })
    ≡ err (source_unreadable "a symbolic link")
unfolding program
tree_raised = refl

candidate_raised :
    evaluate_local_delivery_policy
      (record broken { current_candidate_sha = err (source_unreadable "not a regular file") })
      facts
      (record request { candidate_override = none })
    ≡ err (source_unreadable "not a regular file")
unfolding program
candidate_raised = refl
