-- ===== src/Delivery/Risks.antt =====
-- The parts of `_evaluate_local_delivery_policy` of core/delivery.py that gather risks: the levels,
-- the ids that need an acceptance, and the acceptances, of failure modes and of findings.
use kafa.Base.{String, Bool, not, ◌&&◌, ◌||◌, List, ◌++◌, ◌==◌, select, map, is_some, any}
use kafa.Base.Values.{null, str}
use kafa.Trust.Defs.{RiskAcceptance, is_accepted_status, is_high}
use kafa.Delivery.Facts.{Facts, FailureModeRow, Inspectors, Scope, is_risky}
use kafa.Delivery.Findings.{FindingRow}
use kafa.Delivery.Coverage.{uncovered}

module _ (facts : Facts) (scope : Scope) where
  abbrev pub in_cycle : FailureModeRow → Bool
  in_cycle mode = mode.cycle_id == scope.cycle.id

  -- `risky_modes`
  unfoldable pub risky_modes : List FailureModeRow
  risky_modes = select (λ mode. in_cycle mode && is_risky mode.risk) facts.failure_modes

  -- The findings of the cycle and the candidate that are not low.
  unfoldable pub risky_findings : List FindingRow
  risky_findings =
      select
        (λ f.
          f.cycle_id == scope.cycle.id
          && (f.candidate_sha == scope.candidate && is_risky f.severity))
        facts.findings

  -- `not in {"resolved", "false-positive"}`
  abbrev pub is_open : FindingRow → Bool
  is_open f = not (f.status == "resolved" || f.status == "false-positive")

  unfoldable pub open_findings : List FindingRow
  unfolding risky_findings
  open_findings = select is_open risky_findings

  -- `risk_levels`
  unfoldable pub risk_levels : List String
  unfolding open_findings
  risk_levels =
      map (λ (mode : FailureModeRow). mode.risk) (select in_cycle facts.failure_modes)
      ++ map (λ (f : FindingRow). f.severity) open_findings

  -- `risk_levels & HIGH_RISK_LEVELS`
  abbrev pub needs_structured : Bool
  needs_structured = any is_high risk_levels

  abbrev pub finding_risk_id : FindingRow → String
  finding_risk_id f = Prim.Native.String.◌++◌ "finding:" f.id

  unfoldable pub mode_acceptance : FailureModeRow → RiskAcceptance
  mode_acceptance mode = record {
    risk_id = str mode.id;
    failure_mode_id = null;
    id = null;
    risk = str mode.risk;
    status = str mode.status;
    actor = mode.accepted_by;
    reason = mode.acceptance_reason;
    scope = mode.acceptance_scope;
    revision = mode.accepted_revision;
    expires_at = mode.expires_at;
  }

  unfoldable pub finding_acceptance : FindingRow → RiskAcceptance
  finding_acceptance f = record {
    risk_id = str (finding_risk_id f);
    failure_mode_id = null;
    id = null;
    risk = str f.severity;
    status = str f.status;
    actor = f.waived_by;
    reason = f.waiver_reason;
    scope = f.waiver_scope;
    revision = f.waived_revision;
    expires_at = f.waiver_expires_at;
  }

  abbrev pub is_excused : FailureModeRow → Bool
  is_excused mode = is_accepted_status mode.status

  -- `risk_acceptances`
  unfoldable pub risk_acceptances : List RiskAcceptance
  unfolding risky_modes open_findings mode_acceptance finding_acceptance
  risk_acceptances =
      map mode_acceptance (select is_excused risky_modes)
      ++ map finding_acceptance (select (λ f. f.status == "accepted") open_findings)

  module _ (insp : Inspectors) where
    -- A failure mode that no validation covers.
    abbrev pub is_uncovered : FailureModeRow → Bool
    is_uncovered mode = not (is_excused mode) && is_some (uncovered facts scope insp mode)

    -- whether the id of the failure mode is required at once
    abbrev pub is_required : FailureModeRow → Bool
    is_required mode = is_high mode.risk || is_excused mode

    -- `required_risk_ids`
    unfoldable pub required_risk_ids : List String
    unfolding risky_modes open_findings
    required_risk_ids =
        map (λ (mode : FailureModeRow). mode.id) (select is_required risky_modes)
        ++ (map (λ (mode : FailureModeRow). mode.id)
              (select (λ mode. is_uncovered mode && mode.risk == "medium") risky_modes)
            ++ map finding_risk_id open_findings)
