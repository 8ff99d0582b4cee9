-- ===== src/Trust/Approval.antt =====
-- Exactly when the local trust policy allows a delivery, and under which label.
use kafa.Base.{
  ℕ, ◌≡◌, ◌≢◌, refl, sym, ap, subst, Bool, true, false, not, Option, none, some, List, [], ◌∷◌,
  ◌==◌, if◌then◌else◌, is_empty, is_some, when, map, ◌↔◌, inl, inr, ◌⊎◌, eq_iff,
}
use kafa.Base.Members.{append-eq-nil, map-eq-nil, nil-append}
use kafa.Trust.Defs.{IsoParser, positive_integer, timestamp}
use kafa.Trust.Policy.{
  TrustInput, TrustStatus, TrustLevel, Decision, Reason, levels, required, high_risk,
  distinct_contexts, recorded_status, execution_reasons, risk_issues, high_reasons, at_time,
  evaluate_local_trust, refused, procedurally, accepted_risk, procedural,
}
use kafa.Trust.Acceptances.{RisksCount, acceptance_issues-nil_iff}

pub record HighApproval (parse : IsoParser) (i : TrustInput) : Type 0 where
  pub now : ℕ
  pub now_at : timestamp parse i.now ≡ some now
  pub executed : i.structured_current_execution ≡ true
  pub reviewed : recorded_status i ≡ "reviewed-local"
  pub distinct : distinct_contexts i ≡ true
  pub revision : ℕ
  pub revision_at : positive_integer i.current_revision ≡ some revision
  pub risks : RisksCount parse (levels i) i.risk_acceptances (required i) now (some revision)

pub when_iff : {A : Type 0} (c : Bool) (x : A) → (when (not c) (x ∷ []) ≡ []) ↔ (c ≡ true)
when_iff true x = (λ _. refl, λ _. refl)
when_iff false x = (λ h. cc, λ h. cc)

pub is_some_value : {A : Type 0} (o : Option A) → is_some o ≡ true → (a : A) × (o ≡ some a)
is_some_value none h = cc
is_some_value (some a) h = (a, refl)

module _ (parse : IsoParser) (i : TrustInput) (now : ℕ) where
  pub risks_iff :
      (current : Option ℕ)
      → positive_integer i.current_revision ≡ current
      → (risk_issues parse i now ≡ [])
        ↔ RisksCount parse (levels i) i.risk_acceptances (required i) now current
  risks_iff current e =
      let both =
        acceptance_issues-nil_iff parse (levels i) i.risk_acceptances (required i) now
          (positive_integer i.current_revision) in
      (
        λ h.
            subst (λ c. RisksCount parse (levels i) i.risk_acceptances (required i) now c) e
              (both.0 (map-eq-nil _ _ h)),
        λ r. ap (map Reason.acceptance) (
            both.1 (
              subst (λ c. RisksCount parse (levels i) i.risk_acceptances (required i) now c) (sym e)
                r)),
      )

  approval_of_nil :
      timestamp parse i.now ≡ some now → high_reasons parse i now ≡ [] → HighApproval parse i
  approval_of_nil at h =
      let (executed, h₁) = append-eq-nil (execution_reasons i) _ h in
      let (reviewed, h₂) =
        append-eq-nil
          (when (not (recorded_status i == "reviewed-local"))
            (Reason.review_status_not_local (recorded_status i) ∷ []))
          _ h₁ in
      let (distinct, h₃) =
        append-eq-nil
          (when (not (distinct_contexts i)) (Reason.high_distinct_contexts_required ∷ [])) _ h₂ in
      let (revision, risks) =
        append-eq-nil
          (when (not (is_some (positive_integer i.current_revision)))
            (Reason.high_revision_required ∷ []))
          (risk_issues parse i now) h₃ in
      let (r, ra) = is_some_value _ ((when_iff _ _).0 revision) in
      record {
        now = now;
        now_at = at;
        executed = (when_iff i.structured_current_execution _).0 executed;
        reviewed = (eq_iff _ _).0 ((when_iff _ _).0 reviewed);
        distinct = (when_iff _ _).0 distinct;
        revision = r;
        revision_at = ra;
        risks = (risks_iff (some r) ra).0 risks;
      }

  nil_of_approval : (a : HighApproval parse i) → a.now ≡ now → high_reasons parse i now ≡ []
  nil_of_approval a e = nil-append ((when_iff _ _).1 a.executed) (
      nil-append ((when_iff _ _).1 ((eq_iff _ _).1 a.reviewed)) (
        nil-append ((when_iff _ _).1 a.distinct) (
          nil-append ((when_iff _ _).1 (ap is_some a.revision_at)) (
            (risks_iff (some a.revision) a.revision_at).1 (
              subst
                (λ n.
                  RisksCount parse (levels i) i.risk_acceptances (required i) n (some a.revision))
                e a.risks)))))

-- The two outcomes of a decision that is procedural if there is no reason against it.
empty_cases {ℓ} : {A : Type ℓ} (xs : List A) → (xs ≡ []) ⊎ (is_empty xs ≡ false)
empty_cases [] = inl refl
empty_cases (x ∷ xs) = inr refl

-- A decision that allows the delivery as an accepted risk, and then `P` holds, or refuses it with
-- reasons given, and then it does not.
abbrev pub Procedural : Type 0 → Decision → Type 0
Procedural P d =
    (d.delivery_allowed ≡ true) × (d.status ≡ accepted_risk) × (d.trust_level ≡ procedural) × P
    ⊎ (d.delivery_allowed ≡ false)
      × (d.status ≡ TrustStatus.human_review_required)
      × (d.trust_level ≡ TrustLevel.human_review_required)
      × (d.reasons ≢ [])
      × (¬ P)

-- A decision that is procedural if there is no reason against it.
pub Procedural-or_refused :
    (P : Type 0) (reasons granted : List Reason)
    → (reasons ≡ []) ↔ P
    → Procedural P (if is_empty reasons then procedurally granted else refused reasons)
Procedural-or_refused P [] granted h = inl (refl, refl, refl, h.0 refl)
Procedural-or_refused P (r ∷ rs) granted h = inr (refl, refl, refl, (λ e. cc), (λ p. cc (h.1 p)))

-- At high or critical risk a decision either refuses, as human-review-required with reasons given,
-- or allows the delivery as an accepted risk at the procedural level; and it allows it exactly if
-- the time can be read, the current candidate was executed, the review is reviewed-local with
-- distinct producer and reviewer contexts, the project revision is a positive integer and every
-- risk has an acceptance that counts.
pub high_risk_decision :
    (parse : IsoParser) (i : TrustInput)
    → high_risk i ≡ true
    → Procedural (HighApproval parse i) (evaluate_local_trust parse i)
unfolding evaluate_local_trust
high_risk_decision parse i h = at (timestamp parse i.now) refl
  where
    at :
        (o : Option ℕ)
        → timestamp parse i.now ≡ o
        → Procedural (HighApproval parse i) (at_time parse i o)
    at none e = inr (refl, refl, refl, (λ q. cc), (λ a. cc (a.now_at, e)))
    at (some now) e = rw h (
        Procedural-or_refused (HighApproval parse i) (high_reasons parse i now) _
          (approval_of_nil parse i now e, λ a. nil_of_approval parse i now a (cc (a.now_at, e))))
