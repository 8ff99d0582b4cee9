-- ===== src/Trust/Policy.antt =====
-- `evaluate_local_trust` of core/delivery.py.
use kafa.Base.{
  ℕ, String, Bool, true, false, not, ◌&&◌, ◌||◌, Option, none, some, List, [], ◌∷◌, ◌++◌, ◌==◌,
  if◌then◌else◌, is_empty, is_some, when, map,
}
use kafa.Base.Text.{strip, lower}
use kafa.Base.Sets.{contains, to_set}
use kafa.Base.Values.{Value, only_text}
use kafa.Ledger.{Error}
use kafa.Trust.Defs.{
  IsoParser, positive_integer, timestamp, RiskAcceptance, Issue, acceptance_issues,
}

pub data TrustStatus : Type 0 where
  human_review_required accepted_risk same_context_degraded reviewed_local controller_verified :
      TrustStatus

pub data TrustLevel : Type 0 where
  human_review_required procedural same_context_degraded reviewed_local controller_verified :
      TrustLevel

pub data Reason : Type 0 where
  time_invalid structured_execution_required residual_risk_required distinct_contexts_required :
      Reason
  review_status_unknown review_status_not_local : (actual : String) → Reason
  high_distinct_contexts_required high_revision_required medium_revision_required : Reason
  acceptance : Issue → Reason
  -- of `_human_review_decision`
  not_evaluated : (raised : Error) → Reason
  gate_reviewed_local high_risks_accepted contexts_self_reported medium_risks_accepted
        medium_is_procedural degraded_permitted contexts_distinct run_by_controller :
      Reason

-- `LocalTrustDecision`
pub record Decision : Type 0 where
  pub status : TrustStatus
  pub trust_level : TrustLevel
  pub delivery_allowed : Bool
  pub reasons : List Reason

-- The keyword arguments.
pub record TrustInput : Type 0 where
  pub risk_levels : List String
  pub structured_current_execution : Bool
  pub producer_context_id : String
  pub reviewer_context_id : String
  pub review_status : Value
  pub risk_acceptances : List RiskAcceptance
  pub now : Value
  pub residual_risk : String
  pub required_risk_ids : List String
  pub current_revision : Value

abbrev pub non_blank : List String → List String
non_blank [] = []
non_blank (s ∷ rest) =
    let others = non_blank rest in if strip s == "" then others else strip s ∷ others

-- The names that the body binds first.
unfoldable pub levels : TrustInput → List String
levels i = to_set (map lower (non_blank i.risk_levels))

unfoldable pub required : TrustInput → List String
required i = to_set (non_blank i.required_risk_ids)

unfoldable pub high_risk : TrustInput → Bool
high_risk i = contains (levels i) "critical" || contains (levels i) "high"

unfoldable pub medium_risk : TrustInput → Bool
medium_risk i = contains (levels i) "medium"

abbrev pub is_blank : String → Bool
is_blank s = strip s == ""

unfoldable pub distinct_contexts : TrustInput → Bool
distinct_contexts i =
    not (is_blank i.producer_context_id)
    && not (is_blank i.reviewer_context_id)
    && not (strip i.producer_context_id == strip i.reviewer_context_id)

abbrev pub recorded_status : TrustInput → String
recorded_status i = only_text i.review_status

abbrev pub refused : List Reason → Decision
refused reasons = record {
  status = TrustStatus.human_review_required;
  trust_level = TrustLevel.human_review_required;
  delivery_allowed = false;
  reasons = reasons;
}

abbrev pub procedurally : List Reason → Decision
procedurally reasons = record {
  status = accepted_risk;
  trust_level = procedural;
  delivery_allowed = true;
  reasons = reasons;
}

abbrev pub is_known_status : String → Bool
is_known_status s =
    s == "reviewed-local" || s == "same-context-degraded" || s == "controller-verified"

-- The reasons of low and medium risk: residual risk, then the review status.
abbrev pub review_reasons : TrustInput → List Reason
review_reasons i =
    when (recorded_status i == "same-context-degraded" && is_blank i.residual_risk)
      (residual_risk_required ∷ [])
    ++ (if recorded_status i == "reviewed-local" && not (distinct_contexts i)
        then distinct_contexts_required ∷ []
        else when (not (is_known_status (recorded_status i)))
            (review_status_unknown (recorded_status i) ∷ []))

abbrev pub execution_reasons : TrustInput → List Reason
execution_reasons i = when (not i.structured_current_execution) (structured_execution_required ∷ [])

abbrev pub risk_issues : IsoParser → TrustInput → ℕ → List Reason
risk_issues parse i now = map acceptance (
    acceptance_issues parse (levels i) i.risk_acceptances (required i) now
      (positive_integer i.current_revision))

abbrev pub high_reasons : IsoParser → TrustInput → ℕ → List Reason
high_reasons parse i now =
    execution_reasons i
    ++ (when (not (recorded_status i == "reviewed-local"))
          (review_status_not_local (recorded_status i) ∷ [])
        ++ (when (not (distinct_contexts i)) (high_distinct_contexts_required ∷ [])
            ++ (when (not (is_some (positive_integer i.current_revision)))
                  (high_revision_required ∷ [])
                ++ risk_issues parse i now)))

abbrev pub high_decision : IsoParser → TrustInput → ℕ → Decision
high_decision parse i now =
    if is_empty (high_reasons parse i now)
    then procedurally (gate_reviewed_local ∷ high_risks_accepted ∷ contexts_self_reported ∷ [])
    else refused (high_reasons parse i now)

abbrev pub medium_reasons : IsoParser → TrustInput → ℕ → List Reason
medium_reasons parse i now =
    execution_reasons i
    ++ (review_reasons i
        ++ (when (not (is_some (positive_integer i.current_revision)))
              (medium_revision_required ∷ [])
            ++ risk_issues parse i now))

abbrev pub medium_decision : IsoParser → TrustInput → ℕ → Decision
medium_decision parse i now =
    if is_empty (medium_reasons parse i now)
    then procedurally (medium_risks_accepted ∷ medium_is_procedural ∷ [])
    else refused (medium_reasons parse i now)

-- What the review status alone decides, once there is no reason against it.
abbrev pub reviewed_decision : TrustInput → Decision
reviewed_decision i =
    if recorded_status i == "same-context-degraded"
    then record {
      status = TrustStatus.same_context_degraded;
      trust_level = TrustLevel.same_context_degraded;
      delivery_allowed = true;
      reasons = degraded_permitted ∷ [];
    }
    else if recorded_status i == "reviewed-local"
    then (if distinct_contexts i
        then record {
          status = TrustStatus.reviewed_local;
          trust_level = TrustLevel.reviewed_local;
          delivery_allowed = true;
          reasons = contexts_distinct ∷ [];
        }
        else refused (distinct_contexts_required ∷ []))
    else if recorded_status i == "controller-verified"
    then record {
      status = TrustStatus.controller_verified;
      trust_level = TrustLevel.controller_verified;
      delivery_allowed = true;
      reasons = run_by_controller ∷ [];
    }
    else refused (review_status_unknown (recorded_status i) ∷ [])

abbrev pub low_decision : TrustInput → Decision
low_decision i =
    if is_empty (execution_reasons i ++ review_reasons i)
    then reviewed_decision i
    else refused (execution_reasons i ++ review_reasons i)

abbrev pub at_time : IsoParser → TrustInput → Option ℕ → Decision
at_time parse i none = refused (time_invalid ∷ [])
at_time parse i (some now) =
    if high_risk i
    then high_decision parse i now
    else if medium_risk i && not (is_empty (required i))
    then medium_decision parse i now
    else low_decision i

unfoldable pub evaluate_local_trust : IsoParser → TrustInput → Decision
unfolding timestamp
evaluate_local_trust parse i = at_time parse i (timestamp parse i.now)
