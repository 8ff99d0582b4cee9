-- ===== src/Delivery/Policy.antt =====
-- `_evaluate_local_delivery_policy` of core/delivery.py: every issue that stands against a delivery,
-- and the decision of the trust policy on the same facts.
use kafa.Base.{
  ℕ, String, Bool, true, false, not, ◌||◌, Option, none, some, List, [], ◌∷◌, ◌++◌, ◌==◌,
  if◌then◌else◌, collect, when,
}
use kafa.Base.Values.{Value, null, integer, str, pos, text_or_empty, only_text}
use kafa.Ledger.{CycleRow, ProjectRow, Error, Result, ok, err, ◌>>=◌, project_missing}
use kafa.Cycle.{current_cycle_row}
use kafa.Trust.Defs.{positive_integer}
use kafa.Trust.Policy.{Decision, TrustInput, evaluate_local_trust, refused, not_evaluated}
use kafa.Delivery.Facts.{Facts, GateRow, Inspectors, Request, Scope}
use kafa.Delivery.Coverage.{current_execution}
use kafa.Delivery.Risks.{
  risky_modes, risky_findings, risk_levels, needs_structured, risk_acceptances, required_risk_ids,
}
use kafa.Delivery.Checks.{
  PolicyIssue, not_ready, not_allowed, scope_issues, graph_issues, invalidation_issues,
  proof_issues, mode_issues, finding_issues, gate_issues, worktree, latest_gate, context,
}

abbrev pub of_gate : (GateRow → String) → Option GateRow → String
of_gate f none = ""
of_gate f (some g) = f g

abbrev pub or_null : Option ℕ → Value
or_null none = null
or_null (some n) = integer (pos n)

abbrev pub refusal : Decision → List PolicyIssue
refusal d = when (not d.delivery_allowed) (not_allowed d.status d.reasons ∷ [])

module _ (insp : Inspectors) (facts : Facts) (scope : Scope) where
  -- `observed_at or now_iso()`
  abbrev pub now_of : Option String → String
  now_of none = insp.now_iso
  now_of (some s) = if s == "" then insp.now_iso else s

  -- The arguments of `evaluate_local_trust`.
  unfoldable pub trust_input : Option String → TrustInput
  unfolding risk_levels current_execution latest_gate risk_acceptances required_risk_ids
  trust_input observed_at = record {
    risk_levels = risk_levels facts scope;
    structured_current_execution =
        current_execution facts scope insp (needs_structured facts scope);
    producer_context_id =
        of_gate (λ g. context g.producer_context_id) (latest_gate insp facts scope);
    reviewer_context_id =
        of_gate (λ g. context g.reviewer_context_id) (latest_gate insp facts scope);
    review_status = str (of_gate (λ g. only_text g.review_status) (latest_gate insp facts scope));
    risk_acceptances = risk_acceptances facts scope;
    now = str (now_of observed_at);
    residual_risk = of_gate (λ g. text_or_empty g.residual_risk) (latest_gate insp facts scope);
    required_risk_ids = required_risk_ids facts scope insp;
    current_revision = or_null scope.revision;
  }

  unfoldable pub trust_of : Option String → Decision
  trust_of observed_at = evaluate_local_trust insp.parse (trust_input observed_at)

  -- What is reported after the issues of the graph.
  unfoldable pub later_issues : Request → (dirty : Bool) → List PolicyIssue
  later_issues req dirty =
      invalidation_issues facts scope
      ++ (when req.include_graph_issues (proof_issues insp facts scope)
          ++ (collect (mode_issues insp facts scope) (risky_modes facts scope)
              ++ (collect (finding_issues insp facts scope) (risky_findings facts scope)
                  ++ (gate_issues insp facts scope dirty (latest_gate insp facts scope)
                      ++ refusal (trust_of req.observed_at)))))

-- `cycle_override or current_cycle_row(conn)`
unfoldable pub cycle_for : Facts → Request → Result CycleRow
unfolding current_cycle_row
cycle_for facts req = chosen req.cycle_override
  where
    chosen : Option CycleRow → Result CycleRow
    chosen (some cycle) = ok cycle
    chosen none = current_cycle_row facts.base

-- `_positive_integer(revision_source)`
abbrev pub revision_for : Request → ProjectRow → Option ℕ
revision_for req project = positive_integer (
    if req.historical || not (is_null_value req.revision_override)
    then req.revision_override
    else integer (pos project.revision))
  where
    is_null_value : Value → Bool
    is_null_value null = true
    is_null_value _ = false

abbrev pub candidate_for : Inspectors → Option String → Result String
candidate_for insp none = insp.current_candidate_sha
candidate_for insp (some sha) = ok sha

unfoldable pub scope_for : Inspectors → Request → ProjectRow → CycleRow → Result Scope
unfolding positive_integer
scope_for insp req project cycle = do
  candidate ← candidate_for insp req.candidate_override
  ok (record { cycle = cycle; candidate = candidate; revision = revision_for req project })

-- `_human_review_decision`
abbrev pub human_review_decision : Error → Decision
human_review_decision raised = refused (not_evaluated raised ∷ [])

abbrev pub without : Error → List PolicyIssue × Decision
without raised = (not_ready raised ∷ [], human_review_decision raised)

unfoldable pub in_scope :
    Inspectors → Facts → Request → ProjectRow → Scope → Result (List PolicyIssue × Decision)
in_scope insp facts req project scope = do
  graph ← graph_issues insp facts req scope
  dirty ← worktree insp facts scope req.historical (latest_gate insp facts scope)
  ok (
    scope_issues req project scope ++ (graph ++ later_issues insp facts scope req dirty),
    trust_of insp facts scope req.observed_at,
  )

abbrev pub for_cycle :
    Inspectors
    → Facts
    → Request
    → ProjectRow
    → Result CycleRow
    → Result (List PolicyIssue × Decision)
for_cycle insp facts req project (err raised) = ok (without raised)
for_cycle insp facts req project (ok cycle) = do
  scope ← scope_for insp req project cycle
  in_scope insp facts req project scope

abbrev pub for_project :
    Inspectors → Facts → Request → Option ProjectRow → Result (List PolicyIssue × Decision)
for_project insp facts req none = ok (without project_missing)
for_project insp facts req (some project) = for_cycle insp facts req project (cycle_for facts req)

unfoldable pub evaluate_local_delivery_policy :
    Inspectors → Facts → Request → Result (List PolicyIssue × Decision)
evaluate_local_delivery_policy insp facts req = for_project insp facts req facts.base.project
