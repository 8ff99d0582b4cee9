-- ===== src/Delivery/Checks.antt =====
-- The issues of `_evaluate_local_delivery_policy` of core/delivery.py: one function for each block of
-- its body that reports any.
use kafa.Base.{
  ℕ, String, Bool, true, false, not, ◌&&◌, ◌||◌, Option, none, some, List, [], ◌∷◌, ◌++◌, ◌==◌,
  if◌then◌else◌, ltb, nat_eq, select, any, collect, map, when,
}
use kafa.Base.Text.{strip}
use kafa.Base.Values.{Value, integer, pos, text_or_empty, only_text}
use kafa.Ledger.{Db, RequirementRow, PhaseIssue, ProjectRow, CycleStatus, Error, Result, ok, ◌>>=◌}
use kafa.Phases.Defs.{baseline_issues}
use kafa.Trust.Defs.{positive_integer}
use kafa.Trust.Policy.{Reason, TrustStatus}
use kafa.Delivery.Facts.{
  Facts, InvalidationRow, ValidationRow, AcceptanceRow, FailureModeRow, GateRow, ExecutionIssue,
  Inspectors, Request, Scope,
}
use kafa.Delivery.Findings.{FindingRow, Current, finding_blocks}
use kafa.Delivery.Coverage.{delivery_validations, passes, unproven, uncovered}
use kafa.Delivery.Risks.{is_excused}

pub data PolicyIssue : Type 0 where
  -- the project is not initialized, or has no current cycle
  not_ready : (raised : Error) → PolicyIssue
  revision_invalid historical_revision_invalid : (shown : Value) → PolicyIssue
  cycle_closed : (cycle_id : String) (status : CycleStatus) → PolicyIssue
  traceability : (issue : String) → PolicyIssue
  baseline : PhaseIssue → PolicyIssue
  stale_artifact : InvalidationRow → PolicyIssue
  validation_not_pass : (surface result : String) → PolicyIssue
  execution : ExecutionIssue → PolicyIssue
  acceptance_unproven : (id : String) → List ExecutionIssue → PolicyIssue
  mode_uncovered : (risk id : String) → List ExecutionIssue → PolicyIssue
  finding_open : (severity id status : String) → PolicyIssue
  gate_missing : PolicyIssue
  review_status_unknown : (status gate_id : String) → PolicyIssue
  gate_not_pass : (gate result gate_id : String) → PolicyIssue
  gate_has_findings : (findings gate_id : String) → PolicyIssue
  reviewed_revision_invalid : (shown : Value) (gate_id : String) → PolicyIssue
  reviewed_revision_stale : (gate : ℕ) (current : Option ℕ) (gate_id : String) → PolicyIssue
  contexts_not_distinct : (gate_id : String) → PolicyIssue
  worktree_dirty : PolicyIssue
  not_allowed : TrustStatus → List Reason → PolicyIssue

-- `in {"active", "delivered"}`
abbrev pub is_open_cycle : CycleStatus → Bool
is_open_cycle CycleStatus.archived = false
is_open_cycle _ = true

abbrev pub revision_issues : Request → ProjectRow → Option ℕ → List PolicyIssue
revision_issues req project (some _) = []
revision_issues req project none =
    (if req.historical
      then historical_revision_invalid req.revision_override
      else revision_invalid (integer (pos project.revision)))
    ∷ []

abbrev pub scope_issues : Request → ProjectRow → Scope → List PolicyIssue
scope_issues req project scope =
    revision_issues req project scope.revision
    ++ when (not (is_open_cycle scope.cycle.status))
        (cycle_closed scope.cycle.id scope.cycle.status ∷ [])

abbrev pub has_requirements : Db → String → Bool
has_requirements db cycle_id =
    any (λ (r : RequirementRow). r.cycle_id == cycle_id && not r.cancelled) db.requirements

-- The issues of `traceability_issues` and `baseline_issues`, which may raise.
unfoldable pub graph_issues : Inspectors → Facts → Request → Scope → Result (List PolicyIssue)
unfolding baseline_issues
graph_issues insp facts req scope =
    if req.include_graph_issues && has_requirements facts.base scope.cycle.id
    then (do
      traces ← insp.traceability_issues
      baselines ← baseline_issues insp.evaluators facts.base
      ok (map traceability traces ++ map baseline baselines))
    else ok []

abbrev pub is_null : Option String → Bool
is_null none = true
is_null (some _) = false

unfoldable pub invalidation_issues : Facts → Scope → List PolicyIssue
invalidation_issues facts scope = map stale_artifact (
    select (λ (i : InvalidationRow). i.cycle_id == scope.cycle.id && is_null i.resolved_at)
      facts.invalidations)

abbrev pub unproven_issue : AcceptanceRow → Option (List ExecutionIssue) → List PolicyIssue
unproven_issue a none = []
unproven_issue a (some found) = acceptance_unproven a.id found ∷ []

abbrev pub uncovered_issue : FailureModeRow → Option (List ExecutionIssue) → List PolicyIssue
uncovered_issue mode none = []
uncovered_issue mode (some found) = mode_uncovered mode.risk mode.id found ∷ []

-- The gate with the highest sequence.
unfoldable pub newest : List GateRow → Option GateRow
newest [] = none
newest (g ∷ gs) = later (newest gs)
  where
    later : Option GateRow → Option GateRow
    later none = some g
    later (some h) = if ltb g.sequence h.sequence then some h else some g

abbrev pub context : Value → String
context v = strip (text_or_empty v)

-- `not in REVIEW_STATUSES`
abbrev pub is_review_status : String → Bool
is_review_status s = s == "reviewed-local" || s == "same-context-degraded"

abbrev pub is_distinct : GateRow → Bool
is_distinct g =
    not (context g.producer_context_id == "")
    && (not (context g.reviewer_context_id == "")
        && not (context g.producer_context_id == context g.reviewer_context_id))

abbrev pub same_revision : ℕ → Option ℕ → Bool
same_revision reviewed none = false
same_revision reviewed (some n) = nat_eq reviewed n

module _ (insp : Inspectors) (facts : Facts) (scope : Scope) where
  unfoldable pub validation_issues : ValidationRow → List PolicyIssue
  validation_issues v =
      if not (passes facts scope v)
      then validation_not_pass v.surface v.result ∷ []
      else map execution (insp.validation_execution_issues v scope.candidate false)

  abbrev pub is_active_acceptance : AcceptanceRow → Bool
  is_active_acceptance a = a.cycle_id == scope.cycle.id && not (a.status == "cancelled")

  -- The block under `if include_graph_issues`.
  unfoldable pub proof_issues : List PolicyIssue
  unfolding validation_issues delivery_validations unproven
  proof_issues =
      collect validation_issues (delivery_validations facts scope)
      ++ collect (λ a. unproven_issue a (unproven facts scope insp a))
          (select is_active_acceptance facts.acceptances)

  -- one round of the loop over `risky_modes`
  unfoldable pub mode_issues : FailureModeRow → List PolicyIssue
  unfolding uncovered
  mode_issues mode =
      if is_excused facts scope mode
      then []
      else uncovered_issue mode (uncovered facts scope insp mode)

  -- `revision or 0`
  abbrev pub current : Current
  current = record {
    cycle_id = scope.cycle.id;
    candidate = scope.candidate;
    revision = or_zero scope.revision;
  }
    where
      or_zero : Option ℕ → ℕ
      or_zero none = 0
      or_zero (some n) = n

  unfoldable pub finding_issues : FindingRow → List PolicyIssue
  unfolding finding_blocks
  finding_issues f =
      when (finding_blocks insp.parse insp.is_expired f current)
        (finding_open f.severity f.id f.status ∷ [])

  abbrev pub is_current_gate : GateRow → Bool
  is_current_gate g =
      g.cycle_id == scope.cycle.id
      && (g.candidate_sha == scope.candidate && g.gate_status == "active")

  unfoldable pub latest_gate : Option GateRow
  unfolding newest
  latest_gate = newest (select is_current_gate facts.quality_gates)

  abbrev pub reviewed_issues : GateRow → Option ℕ → List PolicyIssue
  reviewed_issues g none = reviewed_revision_invalid g.reviewed_revision g.id ∷ []
  reviewed_issues g (some reviewed) =
      when (not (same_revision reviewed scope.revision))
        (reviewed_revision_stale reviewed scope.revision g.id ∷ [])

  abbrev pub gate_conditions : GateRow → List PolicyIssue
  gate_conditions g =
      when (not (is_review_status (only_text g.review_status)))
        (review_status_unknown (only_text g.review_status) g.id ∷ [])
      ++ (when (not (g.result == "pass")) (gate_not_pass g.gate g.result g.id ∷ [])
          ++ (when (not (g.blocking_findings == ""))
                (gate_has_findings g.blocking_findings g.id ∷ [])
              ++ (reviewed_issues g (positive_integer g.reviewed_revision)
                  ++ when (only_text g.review_status == "reviewed-local" && not (is_distinct g))
                      (contexts_not_distinct g.id ∷ []))))

  -- `not historical and git_head_sha(root) and git_dirty(root)`, which is asked where there is a gate
  unfoldable pub worktree : (historical : Bool) → Option GateRow → Result Bool
  worktree historical none = ok false
  worktree historical (some g) =
      if not historical && insp.has_head then insp.git_dirty else ok false

  unfoldable pub gate_issues : (dirty : Bool) → Option GateRow → List PolicyIssue
  gate_issues dirty none = gate_missing ∷ []
  gate_issues dirty (some g) = gate_conditions g ++ when dirty (worktree_dirty ∷ [])
