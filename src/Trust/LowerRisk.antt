-- ===== src/Trust/LowerRisk.antt =====
-- Exactly when the local trust policy allows a delivery at medium and at low risk.
use kafa.Base.{
  ℕ, ◌≡◌, ◌≢◌, refl, ap, subst, true, false, not, ◌&&◌, Option, none, some, List, [], ◌∷◌, ◌++◌,
  if◌then◌else◌, is_empty, is_some, when, ◌↔◌, arith, inl, inr, ◌⊎◌, eq_iff,
}
use kafa.Base.Members.{append-eq-nil, nil-append}
use kafa.Trust.Defs.{IsoParser, positive_integer, timestamp}
use kafa.Trust.Policy.{
  TrustInput, TrustStatus, TrustLevel, Decision, Reason, levels, required, high_risk, medium_risk,
  distinct_contexts, recorded_status, is_blank, review_reasons, execution_reasons, risk_issues,
  medium_reasons, reviewed_decision, at_time, evaluate_local_trust, refused,
}
use kafa.Trust.Acceptances.{RisksCount}
use kafa.Trust.Approval.{when_iff, is_some_value, Procedural, Procedural-or_refused, risks_iff}

-- The review status is one that low and medium risk may have, with what it asks for.
abbrev pub IsReviewed : TrustInput → Type 0
IsReviewed i =
    (recorded_status i ≡ "reviewed-local") × (distinct_contexts i ≡ true)
    ⊎ (recorded_status i ≡ "same-context-degraded") × (is_blank i.residual_risk ≡ false)
    ⊎ (recorded_status i ≡ "controller-verified")

pub record MediumApproval (parse : IsoParser) (i : TrustInput) : Type 0 where
  pub now : ℕ
  pub now_at : timestamp parse i.now ≡ some now
  pub executed : i.structured_current_execution ≡ true
  pub reviewed : IsReviewed i
  pub revision : ℕ
  pub revision_at : positive_integer i.current_revision ≡ some revision
  pub risks : RisksCount parse (levels i) i.risk_acceptances (required i) now (some revision)

review_iff : (i : TrustInput) → (review_reasons i ≡ []) ↔ IsReviewed i
review_iff i = (to, from)
  where
    to : review_reasons i ≡ [] → IsReviewed i
    to h = ground (
      arith,
      eq_iff (recorded_status i) "reviewed-local",
      eq_iff (recorded_status i) "same-context-degraded",
      eq_iff (recorded_status i) "controller-verified",
    )

    from : IsReviewed i → review_reasons i ≡ []
    from (inl (e, d)) = rw (e, d) refl
    from (inr (inl (e, b))) = rw (e, b) refl
    from (inr (inr e)) = rw e refl

module _ (parse : IsoParser) (i : TrustInput) (now : ℕ) where
  medium_of_nil :
      timestamp parse i.now ≡ some now → medium_reasons parse i now ≡ [] → MediumApproval parse i
  medium_of_nil at h =
      let (executed, h₁) = append-eq-nil (execution_reasons i) _ h in
      let (reviewed, h₂) = append-eq-nil (review_reasons i) _ h₁ in
      let (revision, risks) =
        append-eq-nil
          (when (not (is_some (positive_integer i.current_revision)))
            (Reason.medium_revision_required ∷ []))
          (risk_issues parse i now) h₂ in
      let (r, ra) = is_some_value _ ((when_iff _ _).0 revision) in
      record {
        now = now;
        now_at = at;
        executed = (when_iff i.structured_current_execution _).0 executed;
        reviewed = (review_iff i).0 reviewed;
        revision = r;
        revision_at = ra;
        risks = (risks_iff parse i now (some r) ra).0 risks;
      }

  nil_of_medium : (a : MediumApproval parse i) → a.now ≡ now → medium_reasons parse i now ≡ []
  nil_of_medium a e = nil-append ((when_iff _ _).1 a.executed) (
      nil-append ((review_iff i).1 a.reviewed) (
        nil-append ((when_iff _ _).1 (ap is_some a.revision_at)) (
          (risks_iff parse i now (some a.revision) a.revision_at).1 (
            subst
              (λ n. RisksCount parse (levels i) i.risk_acceptances (required i) n (some a.revision))
              e a.risks))))

-- At medium risk, with no high or critical risk and with ids whose acceptance is required, a
-- decision is procedural or refused too, and it is procedural exactly if the time can be read, the
-- current candidate was executed, the review status is in order, the project revision is a positive
-- integer and every required id has an acceptance that counts.
pub medium_risk_decision :
    (parse : IsoParser) (i : TrustInput)
    → high_risk i ≡ false
    → medium_risk i ≡ true
    → is_empty (required i) ≡ false
    → Procedural (MediumApproval parse i) (evaluate_local_trust parse i)
unfolding evaluate_local_trust
medium_risk_decision parse i h m r = at (timestamp parse i.now) refl
  where
    at :
        (o : Option ℕ)
        → timestamp parse i.now ≡ o
        → Procedural (MediumApproval parse i) (at_time parse i o)
    at none e = inr (refl, refl, refl, (λ q. cc), (λ a. cc (a.now_at, e)))
    at (some now) e =
        rw (h, m, r)
          (Procedural-or_refused (MediumApproval parse i) (medium_reasons parse i now) _
            (medium_of_nil parse i now e, λ a. nil_of_medium parse i now a (cc (a.now_at, e))))

-- The status and the level are the label of the review.
abbrev pub Labelled : TrustInput → Decision → Type 0
Labelled i d =
    (recorded_status i ≡ "reviewed-local")
      × (distinct_contexts i ≡ true)
      × (d.status ≡ TrustStatus.reviewed_local)
      × (d.trust_level ≡ TrustLevel.reviewed_local)
    ⊎ (recorded_status i ≡ "same-context-degraded")
      × (is_blank i.residual_risk ≡ false)
      × (d.status ≡ TrustStatus.same_context_degraded)
      × (d.trust_level ≡ TrustLevel.same_context_degraded)
    ⊎ (recorded_status i ≡ "controller-verified")
      × (d.status ≡ TrustStatus.controller_verified)
      × (d.trust_level ≡ TrustLevel.controller_verified)

-- What low risk asks for.
pub record LowApproval (parse : IsoParser) (i : TrustInput) : Type 0 where
  pub now : ℕ
  pub now_at : timestamp parse i.now ≡ some now
  pub executed : i.structured_current_execution ≡ true
  pub reviewed : IsReviewed i

abbrev pub ByReview : IsoParser → TrustInput → Decision → Type 0
ByReview parse i d =
    (d.delivery_allowed ≡ true) × LowApproval parse i × Labelled i d
    ⊎ (d.delivery_allowed ≡ false)
      × (d.status ≡ TrustStatus.human_review_required)
      × (d.trust_level ≡ TrustLevel.human_review_required)
      × (d.reasons ≢ [])
      × (¬ LowApproval parse i)

Labelled-reviewed :
    (i : TrustInput)
    → IsReviewed i
    → ((reviewed_decision i).delivery_allowed ≡ true) × Labelled i (reviewed_decision i)
Labelled-reviewed i (inl (e, d)) = rw (e, d) (refl, inl (refl, refl, refl, refl))
Labelled-reviewed i (inr (inl (e, b))) = rw (e, b) (refl, inr (inl (refl, refl, refl, refl)))
Labelled-reviewed i (inr (inr e)) = rw e (refl, inr (inr (refl, refl, refl)))

module _ (parse : IsoParser) (i : TrustInput) (now : ℕ)
    (at : timestamp parse i.now ≡ some now) where
  low_by_reasons :
      (reasons : List Reason)
      → execution_reasons i ++ review_reasons i ≡ reasons
      → ByReview parse i (if is_empty reasons then reviewed_decision i else refused reasons)
  low_by_reasons [] e =
      let (executed, reviewed) = append-eq-nil (execution_reasons i) (review_reasons i) e in
      let r = (review_iff i).0 reviewed in
      let (allowed, label) = Labelled-reviewed i r in
      inl (
        allowed,
        record {
          now = now;
          now_at = at;
          executed = (when_iff i.structured_current_execution _).0 executed;
          reviewed = r;
        },
        label,
      )
  low_by_reasons (x ∷ xs) e = inr (
    refl,
    refl,
    refl,
    (λ q. cc),
    λ a. cc (e, nil-append ((when_iff _ _).1 a.executed) ((review_iff i).1 a.reviewed)),
  )

-- At low risk, and at medium risk with no id whose acceptance is required, a decision allows the
-- delivery exactly if the time can be read, the current candidate was executed and the review status
-- is in order (reviewed-local with distinct contexts, same-context-degraded with residual risk
-- written down, or controller-verified); the label is then that of the review. Otherwise it refuses
-- as human-review-required, with reasons given.
pub low_risk_decision :
    (parse : IsoParser) (i : TrustInput)
    → high_risk i ≡ false
    → (medium_risk i && not (is_empty (required i))) ≡ false
    → ByReview parse i (evaluate_local_trust parse i)
unfolding evaluate_local_trust
low_risk_decision parse i h m = at (timestamp parse i.now) refl
  where
    at : (o : Option ℕ) → timestamp parse i.now ≡ o → ByReview parse i (at_time parse i o)
    at none e = inr (refl, refl, refl, (λ q. cc), (λ a. cc (a.now_at, e)))
    at (some now) e =
        rw (h, m) (low_by_reasons parse i now e (execution_reasons i ++ review_reasons i) refl)
