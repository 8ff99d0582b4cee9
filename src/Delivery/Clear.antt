-- ===== src/Delivery/Clear.antt =====
-- What it takes that `_evaluate_local_delivery_policy` of core/delivery.py reports no issue.
use kafa.Base.{
  ℕ, String, ◌≡◌, refl, sym, subst, ap, Bool, true, false, not, ◌&&◌, Option, none, some, List, [],
  ◌∷◌, ◌++◌, ◌==◌, ◌⊎◌, ◌↔◌, nat_eq, inl, inr, Bool-cases, eq_iff, arith, map, when, select,
  and-eq-true_iff,
}
use kafa.Base.Members.{
  In, append-eq-nil, map-eq-nil, append-nil_iff, collect_iff, when-nil_iff, map-nil_iff, In-select,
  select-nil, not-In-nil,
}
use kafa.Base.Values.{only_text}
use kafa.Ledger.{ProjectRow, PhaseIssue, Result, ok, err, ◌>>=◌, ok-injective}
use kafa.Phases.Defs.{baseline_issues}
use kafa.Trust.Defs.{positive_integer}
use kafa.Trust.Approval.{when_iff}
use kafa.Delivery.Facts.{
  ExecutionIssue, Facts, InvalidationRow, ValidationRow, AcceptanceRow, FailureModeRow, GateRow,
  Inspectors, Request, Scope,
}
use kafa.Delivery.Findings.{FindingRow, Settled, finding_blocks-eq_false_iff}
use kafa.Delivery.Coverage.{
  delivery_validations, passes, proofs_of, unproven, covers_of, uncovered, qualified_issues,
}
use kafa.Delivery.Risks.{is_excused}
use kafa.Delivery.Checks.{
  PolicyIssue, stale_artifact, reviewed_revision_stale, is_open_cycle, scope_issues,
  revision_issues, has_requirements, graph_issues, is_null, invalidation_issues, validation_issues,
  is_active_acceptance, unproven_issue, proof_issues, mode_issues, uncovered_issue, current,
  finding_issues, is_distinct, is_review_status, reviewed_issues, same_revision, gate_conditions,
}
use kafa.Delivery.Clean.{try_each-none_iff}

-- The issue of a text that is not the one asked for.
when_text_iff : {A : Type 0} (s t : String) (x : A) → (when (not (s == t)) (x ∷ []) ≡ []) ↔ (s ≡ t)
when_text_iff s t x =
    (λ h. (eq_iff s t).0 ((when_iff _ x).0 h), λ e. (when_iff _ x).1 ((eq_iff s t).1 e))

some_same : {A : Type 0} {a b : A} → some a ≡ some b → a ≡ b
some_same e = cc

nat_eq_refl : (n : ℕ) → nat_eq n n ≡ true
nat_eq_refl n = ground arith

nat_eq-same : (m n : ℕ) → nat_eq m n ≡ true → m ≡ n
nat_eq-same m n h = ground arith

module _ (insp : Inspectors) (facts : Facts) (scope : Scope) where
  -- The acceptance has a passing validation of the candidate with nothing against its executions.
  abbrev pub Proven : AcceptanceRow → Type 0
  Proven a =
      (v : ValidationRow) × In v (proofs_of facts scope a)
      × (insp.validation_execution_issues v scope.candidate false ≡ [])

  -- A validation that covers the failure mode has nothing against its qualified executions, which
  -- have structured results.
  abbrev pub Covered : FailureModeRow → Type 0
  Covered mode =
      (v : ValidationRow) × In v (covers_of facts scope mode)
      × (qualified_issues facts scope insp true v ≡ [])

  abbrev pub Passed : ValidationRow → Type 0
  Passed v =
      (passes facts scope v ≡ true)
      × (insp.validation_execution_issues v scope.candidate false ≡ [])

  abbrev pub GateInOrder : GateRow → Type 0
  GateInOrder g =
      (is_review_status (only_text g.review_status) ≡ true)
      × ((g.result ≡ "pass")
          × ((g.blocking_findings ≡ "")
              × (((r : ℕ) × (positive_integer g.reviewed_revision ≡ some r)
                    × (scope.revision ≡ some r))
                  × ((only_text g.review_status == "reviewed-local" && not (is_distinct g))
                      ≡ false))))

  pub validation-nil_iff :
      (v : ValidationRow) → (validation_issues insp facts scope v ≡ []) ↔ Passed v
  unfolding validation_issues
  validation-nil_iff v = elim (Bool-cases (passes facts scope v)) [
    | inl e ↦ rw e (λ h. (refl, (map-nil_iff _ _).0 h), λ (_, n). (map-nil_iff _ _).1 n)
    | inr e ↦ rw e (λ h. cc, λ (h, _). cc)
  ]

  unproven-nil_iff :
      (a : AcceptanceRow) → (unproven_issue a (unproven facts scope insp a) ≡ []) ↔ Proven a
  unfolding unproven
  unproven-nil_iff a =
      let (to, from) =
        try_each-none_iff (λ v. insp.validation_execution_issues v scope.candidate false)
          (proofs_of facts scope a) in
      (λ h. to (is_none (unproven facts scope insp a) h), λ p. rw (from p) refl)
    where
      is_none : (o : Option (List ExecutionIssue)) → unproven_issue a o ≡ [] → o ≡ none
      is_none none h = refl
      is_none (some x) h = cc

  pub mode-nil_iff :
      (mode : FailureModeRow)
      → (mode_issues insp facts scope mode ≡ [])
        ↔ ((is_excused facts scope mode ≡ true) ⊎ Covered mode)
  unfolding mode_issues uncovered
  mode-nil_iff mode = elim (Bool-cases (is_excused facts scope mode)) [
    | inl e ↦ rw e (λ _. inl refl, λ _. refl)
    | inr e ↦ rw e (λ h. inr (to (is_none (uncovered facts scope insp mode) h)), λ c. covered c)
  ]
    where
      to : uncovered facts scope insp mode ≡ none → Covered mode
      to =
          (try_each-none_iff (qualified_issues facts scope insp true)
            (covers_of facts scope mode)).0

      is_none : (o : Option (List ExecutionIssue)) → uncovered_issue mode o ≡ [] → o ≡ none
      is_none none h = refl
      is_none (some x) h = cc

      covered :
          (false ≡ true) ⊎ Covered mode
          → uncovered_issue mode (uncovered facts scope insp mode) ≡ []
      covered (inl e) = cc
      covered (inr c) =
          rw
            ((try_each-none_iff (qualified_issues facts scope insp true)
                (covers_of facts scope mode)).1
              c)
            refl

  pub finding-nil_iff :
      (f : FindingRow)
      → (finding_issues insp facts scope f ≡ [])
        ↔ Settled insp.parse insp.is_expired f (current insp facts scope)
  unfolding finding_issues
  finding-nil_iff f =
      let (to, from) =
        finding_blocks-eq_false_iff insp.parse insp.is_expired f (current insp facts scope) in
      let (out, back) = when-nil_iff _ _ in (λ h. to (out h), λ s. back (from s))

  pub gate-nil_iff : (g : GateRow) → (gate_conditions insp facts scope g ≡ []) ↔ GateInOrder g
  gate-nil_iff g = append-nil_iff _ (when_iff _ _) (
      append-nil_iff _ (when_text_iff _ _ _) (
        append-nil_iff _ (when_text_iff _ _ _)
          (append-nil_iff _ (reviewed (positive_integer g.reviewed_revision)) (when-nil_iff _ _))))
    where
      by_revision :
          (r : ℕ) (o : Option ℕ) (x : PolicyIssue)
          → (when (not (same_revision r o)) (x ∷ []) ≡ [])
            ↔ ((n : ℕ) × (some r ≡ some n) × (o ≡ some n))
      by_revision r none x = (λ h. cc, λ (n, _, e). cc)
      by_revision r (some n) x = (
        λ h. (r, refl, ap some (sym (nat_eq-same r n ((when_iff _ x).0 h)))),
        λ (k, e, f). (when_iff _ x).1 (subst (λ m. nat_eq r m ≡ true) (cc (e, f)) (nat_eq_refl r)),
      )

      reviewed :
          (o : Option ℕ)
          → (reviewed_issues insp facts scope g o ≡ [])
            ↔ ((r : ℕ) × (o ≡ some r) × (scope.revision ≡ some r))
      reviewed none = (λ h. cc, λ (r, e, _). cc)
      reviewed (some r) =
          by_revision r scope.revision (reviewed_revision_stale r scope.revision g.id)

  pub proof-nil_iff : (proof_issues insp facts scope ≡ []) ↔ (
      ((v : ValidationRow) → In v (delivery_validations facts scope) → Passed v)
      × ((a : AcceptanceRow)
          → In a (select (is_active_acceptance insp facts scope) facts.acceptances)
          → Proven a))
  unfolding proof_issues
  proof-nil_iff =
      append-nil_iff _ (collect_iff _ _ validation-nil_iff) (collect_iff _ _ unproven-nil_iff)

  abbrev pub Resolved : Type 0
  Resolved =
      (i : InvalidationRow)
      → In i facts.invalidations
      → i.cycle_id ≡ scope.cycle.id
      → is_null i.resolved_at ≡ false

  pub invalidation-nil_iff : (invalidation_issues facts scope ≡ []) ↔ Resolved
  unfolding invalidation_issues
  invalidation-nil_iff =
      let (out, back) = map-nil_iff stale_artifact (select stands facts.invalidations) in
      (
        λ h i m e. no_longer i m e (Bool-cases (is_null i.resolved_at)) (out h),
        λ r. back (select-nil stands facts.invalidations (λ i m. settled i (r i m))),
      )
    where
      stands : InvalidationRow → Bool
      stands i = i.cycle_id == scope.cycle.id && is_null i.resolved_at

      no_longer :
          (i : InvalidationRow)
          → In i facts.invalidations
          → i.cycle_id ≡ scope.cycle.id
          → (is_null i.resolved_at ≡ true) ⊎ (is_null i.resolved_at ≡ false)
          → select stands facts.invalidations ≡ []
          → is_null i.resolved_at ≡ false
      no_longer i m e (inr f) n = f
      no_longer i m e (inl f) n = absurd (
          not-In-nil _ n (
            In-select stands facts.invalidations m ((and-eq-true_iff _ _).1 ((eq_iff _ _).1 e, f))))

      settled :
          (i : InvalidationRow)
          → (i.cycle_id ≡ scope.cycle.id → is_null i.resolved_at ≡ false)
          → stands i ≡ false
      settled i h = elim (Bool-cases (i.cycle_id == scope.cycle.id)) [
        | inl e ↦ rw (e, h ((eq_iff _ _).0 e)) refl
        | inr e ↦ rw e refl
      ]

  -- What is asked of the requirements graph, where it is asked for and there are requirements.
  abbrev pub GraphClear : Request → Type 0
  GraphClear req =
      req.include_graph_issues ≡ true
      → has_requirements facts.base scope.cycle.id ≡ true
      → (insp.traceability_issues ≡ ok []) × (baseline_issues insp.evaluators facts.base ≡ ok [])

  pub graph-nil_iff : (req : Request) → (graph_issues insp facts req scope ≡ ok []) ↔ GraphClear req
  unfolding graph_issues
  graph-nil_iff req = elim (Bool-cases req.include_graph_issues) [
    | inr a ↦ rw a (λ _ b. cc, λ _. refl)
    | inl a ↦ elim (Bool-cases (has_requirements facts.base scope.cycle.id)) [
      | inr b ↦ rw (a, b) (λ _ _ c. cc, λ _. refl)
      | inl b ↦
          rw (a, b)
            (
              λ h _ _. both insp.traceability_issues (baseline_issues insp.evaluators facts.base) h,
              λ g. let (t, l) = g refl refl in rw (t, l) refl,
            )
    ]
  ]
    where
      both :
          (traces : Result (List String)) (baselines : Result (List PhaseIssue))
          → (traces >>= λ ts. baselines >>= λ bs.
              ok (map PolicyIssue.traceability ts ++ map PolicyIssue.baseline bs))
            ≡ ok []
          → (traces ≡ ok []) × (baselines ≡ ok [])
      both (err e) b h = cc
      both (ok ts) (err e) h = cc
      both (ok ts) (ok bs) h =
          let (t, b) = append-eq-nil (map PolicyIssue.traceability ts) _ (ok-injective h) in
          (ap ok (map-eq-nil _ ts t), ap ok (map-eq-nil _ bs b))

  pub scope-nil_iff :
      (req : Request) (project : ProjectRow)
      → (scope_issues req project scope ≡ [])
        ↔ (((r : ℕ) × (scope.revision ≡ some r)) × (is_open_cycle scope.cycle.status ≡ true))
  scope-nil_iff req project = append-nil_iff _ (given scope.revision) (when_iff _ _)
    where
      given : (o : Option ℕ) → (revision_issues req project o ≡ []) ↔ ((r : ℕ) × (o ≡ some r))
      given none = (λ h. cc, λ (r, e). cc)
      given (some r) = (λ _. (r, refl), λ _. refl)
