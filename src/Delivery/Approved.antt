-- ===== src/Delivery/Approved.antt =====
-- What a delivery that the policy of core/delivery.py has nothing against has at high risk.
use kafa.Base.{
  ℕ, String, ◌≡◌, sym, ap, ◌∙◌, subst, Bool, true, false, not, ◌&&◌, ◌||◌, Option, none, some, [],
  ◌==◌, inl, inr, eq_iff, arith, any, and-eq-true_iff,
}
use kafa.Base.Text.{strip}
use kafa.Base.Values.{str, only_text}
use kafa.Base.Members.{In, In-map, In-select, In-append_left, any-some, any-true, find-In}
use kafa.Ledger.{ProjectRow, CycleRow, ok, >>=-eq-ok, ok-injective}
use kafa.Trust.Defs.{RiskAcceptance, timestamp, risk_key, by_id, is_high}
use kafa.Trust.Policy.{Decision, TrustInput, high_risk, evaluate_local_trust}
use kafa.Trust.Acceptances.{Counts}
use kafa.Trust.Approval.{HighApproval, high_risk_decision, Procedural}
use kafa.Delivery.Facts.{
  Facts, ValidationRow, FailureModeRow, GateRow, Inspectors, Request, Scope, is_risky,
}
use kafa.Delivery.Coverage.{delivery_validations, passes, is_eligible, current_execution}
use kafa.Delivery.Risks.{
  risk_levels, needs_structured, required_risk_ids, risky_modes, risk_acceptances, in_cycle,
  is_required,
}
use kafa.Delivery.Checks.{latest_gate, is_distinct}
use kafa.Delivery.Policy.{
  trust_input, trust_of, now_of, of_gate, candidate_for, cycle_for, scope_for,
  evaluate_local_delivery_policy,
}
use kafa.Delivery.Allows.{Clear}
use kafa.Delivery.Policy.{or_null}
use kafa.Trust.Defs.{positive_integer}
use kafa.Delivery.Allows.{Clear-of_done}
use kafa.Base.Members.{In-append_left, In-select, In-map, any-true}
use kafa.Delivery.Facts.{is_risky}
use kafa.Delivery.Risks.{in_cycle, is_required, risky_modes}
use kafa.Delivery.Policy.{cycle_for, scope_for, evaluate_local_delivery_policy}
use kafa.Ledger.{ProjectRow, CycleRow, ok}
use kafa.Delivery.Levels.{required-contains, high_level-high_risk, required-Counts}

-- What stands behind the delivery of a scope with a high or critical risk of that key: a local review
-- of distinct contexts, a passing validation with structured executions, and an acceptance of the
-- risk that counts.
pub record Approved (insp : Inspectors) (facts : Facts) (req : Request) (scope : Scope)
    (key : String) : Type 0 where
  pub gate : GateRow
  pub gate_at : latest_gate insp facts scope ≡ some gate
  pub reviewed : only_text gate.review_status ≡ "reviewed-local"
  pub distinct : is_distinct gate ≡ true
  pub validation : ValidationRow
  pub counted : In validation (delivery_validations facts scope)
  pub passed : passes facts scope validation ≡ true
  pub structured : is_eligible facts scope insp true validation ≡ true
  pub now : ℕ
  pub now_at : timestamp insp.parse (str (now_of insp facts scope req.observed_at)) ≡ some now
  pub revision : ℕ
  pub revision_at : scope.revision ≡ some revision
  pub acceptance : RiskAcceptance
  pub gathered : In acceptance (risk_acceptances facts scope)
  pub for_risk : risk_key acceptance ≡ key
  pub counts : Counts insp.parse now (some revision) acceptance

module _ (insp : Inspectors) (facts : Facts) (req : Request) (scope : Scope) (d : Decision) where
  approval :
      Clear insp facts req scope d
      → high_risk (trust_input insp facts scope req.observed_at) ≡ true
      → HighApproval insp.parse (trust_input insp facts scope req.observed_at)
  unfolding trust_of
  approval c h =
      granted (high_risk_decision insp.parse (trust_input insp facts scope req.observed_at) h)
    where
      both : (b : Bool) → b ≡ true → b ≡ false → ⊥
      both b s t = cc

      granted :
          Procedural
            (HighApproval insp.parse (trust_input insp facts scope req.observed_at))
            (evaluate_local_trust insp.parse (trust_input insp facts scope req.observed_at))
          → HighApproval insp.parse (trust_input insp facts scope req.observed_at)
      granted (inl (_, _, _, a)) = a
      granted (inr (refused, _, _, _, _)) =
          absurd (
            both _ (subst (λ (x : Decision). x.delivery_allowed ≡ true) c.decided c.allowed)
              refused)

  risk-Approved :
      (key : String)
      → Clear insp facts req scope d
      → any is_high (risk_levels facts scope) ≡ true
      → In key (required_risk_ids facts scope insp)
      → (strip key == "") ≡ false
      → Approved insp facts req scope (strip key)
  unfolding trust_input current_execution positive_integer
  risk-Approved key c h m given =
      let i : TrustInput = trust_input insp facts scope req.observed_at in
      let (s, at_level, is) = any-some is_high (risk_levels facts scope) h in
      let a : HighApproval insp.parse i = approval c (high_level-high_risk i s at_level is) in
      let (v, n, both) = any-some _ (delivery_validations facts scope) (executed a.executed) in
      let (passed, eligible) = (and-eq-true_iff _ _).0 both in
      let (r, found, counts) =
        required-Counts insp.parse i a (strip key) (required-contains i key m given) in
      let (gathered, named) = find-In (by_id (strip key)) (risk_acceptances facts scope) found in
      let reviewed : only_text c.gate.review_status ≡ "reviewed-local" =
        subst (λ o. of_gate (λ g. only_text g.review_status) o ≡ "reviewed-local") c.gate_at
          a.reviewed in
      record {
        gate = c.gate;
        gate_at = c.gate_at;
        reviewed = reviewed;
        distinct = and_distinct c.gate reviewed c.gate_in_order.1.1.1.1;
        validation = v;
        counted = n;
        passed = passed;
        structured = subst (λ b. is_eligible facts scope insp b v ≡ true) h eligible;
        now = a.now;
        now_at = a.now_at;
        revision = a.revision;
        revision_at = current_revision scope.revision a.revision_at;
        acceptance = r;
        gathered = gathered;
        for_risk = (eq_iff _ _).0 named;
        counts = counts;
      }
    where
      and_distinct :
          (g : GateRow)
          → only_text g.review_status ≡ "reviewed-local"
          → (only_text g.review_status == "reviewed-local" && not (is_distinct g)) ≡ false
          → is_distinct g ≡ true
      and_distinct g e h = ground (arith, (eq_iff _ _).1 e)

      current_revision : (o : Option ℕ) {n : ℕ} → positive_integer (or_null o) ≡ some n → o ≡ some n
      current_revision none h = cc
      current_revision (some m) h = ground arith

      executed :
          current_execution facts scope insp (needs_structured facts scope) ≡ true
          → any
              (λ v.
                passes facts scope v
                && is_eligible facts scope insp (needs_structured facts scope) v)
              (delivery_validations facts scope)
            ≡ true
      executed e = e

  high_mode-Approved :
      (mode : FailureModeRow)
      → Clear insp facts req scope d
      → In mode facts.failure_modes
      → mode.cycle_id ≡ scope.cycle.id
      → is_high mode.risk ≡ true
      → (strip mode.id == "") ≡ false
      → Approved insp facts req scope (strip mode.id)
  unfolding risk_levels required_risk_ids risky_modes
  high_mode-Approved mode c m e h given =
      let mine : in_cycle facts scope mode ≡ true = (eq_iff mode.cycle_id scope.cycle.id).1 e in
      let level : In mode.risk (risk_levels facts scope) =
        In-append_left _ _
          (In-map _ _ (In-select (in_cycle facts scope) facts.failure_modes m mine)) in
      let risky : In mode (risky_modes facts scope) =
        In-select _ facts.failure_modes m
          ((and-eq-true_iff _ _).1 (mine, is_high-is_risky mode.risk h)) in
      let id : In mode.id (required_risk_ids facts scope insp) =
        In-append_left _ _
          (In-map _ _ (In-select (is_required facts scope insp) _ risky (or_left _ _ h))) in
      risk-Approved mode.id c (any-true is_high (risk_levels facts scope) level h) id given
    where
      or_left : (a b : Bool) → a ≡ true → (a || b) ≡ true
      or_left a b q = ground arith

      is_high-is_risky : (s : String) → is_high s ≡ true → is_risky s ≡ true
      is_high-is_risky s q = ground arith

-- The scope is that of the cycle.
scope_for-cycle :
    (insp : Inspectors) (req : Request) (project : ProjectRow) (cycle : CycleRow) (scope : Scope)
    → scope_for insp req project cycle ≡ ok scope
    → scope.cycle.id ≡ cycle.id
unfolding scope_for
scope_for-cycle insp req project cycle scope h =
    let (_, _, done) = >>=-eq-ok (candidate_for insp req.candidate_override) _ h in
    ap (λ (x : Scope). x.cycle.id) (sym (ok-injective done))

-- If the policy reports no issue although the cycle has a failure mode at high or critical risk,
-- with an id that is not blank, then the candidate is known, and the latest gate of the candidate
-- is reviewed-local with distinct contexts, a validation that counts for the delivery passes with
-- structured executions that have nothing against them, and that id has an acceptance on record
-- which is complete, of the current project revision and not expired at the time of the evaluation.
pub high_risk-Approved :
    (insp : Inspectors) (facts : Facts) (req : Request) (d : Decision) (project : ProjectRow)
    (cycle : CycleRow) (mode : FailureModeRow)
    → evaluate_local_delivery_policy insp facts req ≡ ok ([], d)
    → facts.base.project ≡ some project
    → cycle_for facts req ≡ ok cycle
    → In mode facts.failure_modes
    → mode.cycle_id ≡ cycle.id
    → is_high mode.risk ≡ true
    → (strip mode.id == "") ≡ false
    → (scope : Scope) × (scope_for insp req project cycle ≡ ok scope)
      × Approved insp facts req scope (strip mode.id)
high_risk-Approved insp facts req d project cycle mode done p e m same h given =
    let (scope, s, clear) = Clear-of_done insp facts req d project cycle done p e in
    (
      scope,
      s,
      high_mode-Approved insp facts req scope d mode clear m
          (same ∙ sym (scope_for-cycle insp req project cycle scope s)) h given,
    )
