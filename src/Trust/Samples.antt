-- ===== src/Trust/Samples.antt =====
-- What the trust policy decides on small inputs, and the theorems on them.
use kafa.Base.{
  String, ◌≡◌, refl, true, false, none, some, List, [], ◌∷◌, ◌↔◌, ◌==◌, if◌then◌else◌, is_empty,
  not, ◌&&◌,
}
use kafa.Base.Text.{strip, lower, replace_z}
use kafa.Base.Sets.{contains, to_set, add}
use kafa.Base.Values.{null, integer, str, pos, text_or_empty, is_absent}
use kafa.Trust.Defs.{
  IsoParser, timestamp, positive_integer, RiskAcceptance, acceptance_issues, missing_fields,
  revision_stale, record_missing,
}
use kafa.Trust.Policy.{
  TrustInput, TrustLevel, Reason, evaluate_local_trust, levels, required, high_risk, medium_risk,
  distinct_contexts, accepted_risk,
}
use kafa.Trust.Acceptances.{RisksCount, acceptance_issues-nil_iff}
use kafa.Trust.Approval.{HighApproval, Procedural, high_risk_decision}
use kafa.Trust.LowerRisk.{MediumApproval, medium_risk_decision, ByReview, low_risk_decision}

-- A reader of two time stamps.
abbrev clock : IsoParser
clock s =
    if s == "2026-01-01T00:00:00+00:00"
    then some 100
    else if s == "2027-01-01"
    then some 200
    else none

-- Names what an evaluation of the policy computes with.
program : Unit {0}
unfolding evaluate_local_trust levels required high_risk medium_risk distinct_contexts
    acceptance_issues add missing_fields text_or_empty is_absent positive_integer timestamp strip
    lower replace_z contains to_set
program = tt

abbrev waiver : RiskAcceptance
waiver = record {
  risk_id = str "FM1";
  failure_mode_id = null;
  id = null;
  risk = str "high";
  status = str "Accepted";
  actor = str "ann";
  reason = str "known";
  scope = str "cycle";
  revision = integer (pos 3);
  expires_at = str "2027-01-01";
}

abbrev at_risk : String → List RiskAcceptance → TrustInput
at_risk level acceptances = record {
  risk_levels = level ∷ [];
  structured_current_execution = true;
  producer_context_id = "maker";
  reviewer_context_id = "checker";
  review_status = str "reviewed-local";
  risk_acceptances = acceptances;
  now = str "2026-01-01T00:00:00Z";
  residual_risk = "";
  required_risk_ids = "FM1" ∷ [];
  current_revision = integer (pos 3);
}

allowed : (evaluate_local_trust clock (at_risk "HIGH " (waiver ∷ []))).status ≡ accepted_risk
unfolding program
allowed = refl

refused_without_record :
    (evaluate_local_trust clock (at_risk "high" [])).reasons
    ≡ Reason.acceptance (record_missing "FM1") ∷ []
unfolding program
refused_without_record = refl

stale :
    acceptance_issues clock [] (waiver ∷ []) ("FM1" ∷ []) 100 (some 4)
    ≡ revision_stale "FM1" 3 4 ∷ []
unfolding program
stale = refl

low_label : (evaluate_local_trust clock (at_risk "low" [])).trust_level ≡ TrustLevel.reviewed_local
unfolding program
low_label = refl

is_high_risk : high_risk (at_risk "high" (waiver ∷ [])) ≡ true
unfolding program
is_high_risk = refl

not_high_risk : high_risk (at_risk "medium" (waiver ∷ [])) ≡ false
unfolding program
not_high_risk = refl

is_medium_risk : medium_risk (at_risk "medium" (waiver ∷ [])) ≡ true
unfolding program
is_medium_risk = refl

some_required : is_empty (required (at_risk "medium" (waiver ∷ []))) ≡ false
unfolding program
some_required = refl

low_not_high : high_risk (at_risk "low" []) ≡ false
unfolding program
low_not_high = refl

low_not_medium :
    (medium_risk (at_risk "low" []) && not (is_empty (required (at_risk "low" [])))) ≡ false
unfolding program
low_not_medium = refl

high_risk_decision_example :
    Procedural
      (HighApproval clock (at_risk "high" (waiver ∷ [])))
      (evaluate_local_trust clock (at_risk "high" (waiver ∷ [])))
high_risk_decision_example = high_risk_decision clock (at_risk "high" (waiver ∷ [])) is_high_risk

medium_risk_decision_example :
    Procedural
      (MediumApproval clock (at_risk "medium" (waiver ∷ [])))
      (evaluate_local_trust clock (at_risk "medium" (waiver ∷ [])))
medium_risk_decision_example =
    medium_risk_decision clock (at_risk "medium" (waiver ∷ [])) not_high_risk is_medium_risk
      some_required

low_risk_decision_example :
    ByReview clock (at_risk "low" []) (evaluate_local_trust clock (at_risk "low" []))
low_risk_decision_example = low_risk_decision clock (at_risk "low" []) low_not_high low_not_medium

acceptance_issues-nil_iff_example :
    (acceptance_issues clock ("high" ∷ []) (waiver ∷ []) ("FM1" ∷ []) 100 (some 3) ≡ [])
    ↔ RisksCount clock ("high" ∷ []) (waiver ∷ []) ("FM1" ∷ []) 100 (some 3)
acceptance_issues-nil_iff_example =
    acceptance_issues-nil_iff clock ("high" ∷ []) (waiver ∷ []) ("FM1" ∷ []) 100 (some 3)
