-- ===== src/Executions/Validated.antt =====
-- When the checks of core/delivery.py have nothing against the executions of a validation.
use kafa.Base.{
  String, not, when, ◌∷◌, ◌&&◌, ◌≡◌, refl, subst, Bool, true, false, Option, none, some, [], ◌==◌,
  inl, inr, ◌↔◌, Bool-cases, is_empty, find, nat_eq, eq_iff,
}
use kafa.Base.Last.{IsLast, find-reverse_iff}
use kafa.Base.Members.{In, append-nil_iff, collect_iff, when-nil_iff}
use kafa.Trust.Approval.{when_iff}
use kafa.Delivery.Facts.{ValidationRow, QualificationRow, AcceptanceRow}
use kafa.Executions.Defs.{ExecutionRow, TestTargetRow, ExecutionStore, Checker}
use kafa.Executions.Checks.{
  or_blank, has_digest, linked_issues, executions_of, validation_execution_issues,
  latest_qualification, is_latest, acceptance_of, acceptance_issues, live_issues, bound_issues,
  qualified_validation_execution_issues,
}
use kafa.Executions.InOrder.{InOrder, text_iff, execution_issues-nil_iff}

module _ (checker : Checker) (store : ExecutionStore) (candidate : String)
    (require_structured : Bool) where
  -- The validation has executions, each of its cycle and its candidate and in order.
  abbrev pub AllInOrder : ValidationRow → Type 0
  AllInOrder v =
      (is_empty (executions_of checker store v) ≡ false)
      × ((e : ExecutionRow)
          → In e (executions_of checker store v)
          → (e.cycle_id ≡ v.cycle_id)
            × ((e.candidate_sha ≡ v.candidate_sha)
                × InOrder checker store candidate require_structured e))

  -- A validation has nothing against its executions exactly if it has any, and each is of its cycle
  -- and its candidate and in order.
  pub validation_execution_issues-nil_iff :
      (v : ValidationRow)
      → (validation_execution_issues checker store v candidate require_structured ≡ [])
        ↔ AllInOrder v
  unfolding validation_execution_issues
  validation_execution_issues-nil_iff v =
      elim (Bool-cases (is_empty (executions_of checker store v))) [
        | inl h ↦ rw h (λ n. cc, λ (n, _). cc)
        | inr h ↦
            let (to, from) =
              collect_iff (linked_issues checker store candidate require_structured v)
                (executions_of checker store v)
                (λ e. append-nil_iff _ (text_iff checker _ _ _) (
                  append-nil_iff _ (text_iff checker _ _ _)
                    (execution_issues-nil_iff checker store candidate require_structured e))) in
            rw h (λ n. (refl, to n), λ (_, n). from n)
      ]

  -- The acceptance that was qualified is active and of the same revision.
  abbrev pub Accepted : QualificationRow → Type 0
  Accepted q =
      (a : AcceptanceRow) × (acceptance_of checker store q ≡ some a)
      × (a.status ≡ "active")
      × (nat_eq q.acceptance_revision a.revision ≡ true)

  abbrev pub Live : QualificationRow → Type 0
  Live q =
      (t : TestTargetRow) × (find (λ (t : TestTargetRow). t.id == q.target_id) store.targets
        ≡ some t)
      × (checker.target_definition_digest t ≡ q.target_definition_sha256)

  -- Of the qualifications of the same cycle, acceptance and target, which the table has in the order
  -- in which they were made, the one that nothing follows has the id.
  abbrev pub IsLatest : QualificationRow → Type 0
  IsLatest q =
      (r : QualificationRow) × IsLast
        (λ (x : QualificationRow).
          x.cycle_id == q.cycle_id
          && (x.acceptance_id == q.acceptance_id && x.target_id == q.target_id))
        r store.qualifications
      × (r.id ≡ q.id)

  IsLatest-iff :
      (q : QualificationRow)
      → (is_latest checker store q (latest_qualification checker store q) ≡ true) ↔ IsLatest q
  unfolding latest_qualification
  IsLatest-iff q =
      let (f, g) = named (latest_qualification checker store q) in
      (
        λ h. let (r, e, i) = f h in (r, (find-reverse_iff _ store.qualifications r).0 e, i),
        λ (r, l, i). g (r, (find-reverse_iff _ store.qualifications r).1 l, i),
      )
    where
      named :
          (o : Option QualificationRow)
          → (is_latest checker store q o ≡ true)
            ↔ ((r : QualificationRow) × (o ≡ some r) × (r.id ≡ q.id))
      named none = (λ h. cc, λ (r, e, _). cc)
      named (some r) = (
        λ h. (r, refl, (eq_iff _ _).0 h),
        λ (x, e, i). (eq_iff _ _).1 (subst (λ (z : QualificationRow). z.id ≡ q.id) (same e) i),
      )
        where
          same : {x : QualificationRow} → some r ≡ some x → x ≡ r
          same e = cc

  IsLatest-nil_iff :
      (q : QualificationRow) {A : Type 0} (x : A)
      → (when (not (is_latest checker store q (latest_qualification checker store q))) (x ∷ [])
          ≡ [])
        ↔ IsLatest q
  IsLatest-nil_iff q x =
      let (f, g) = when_iff (is_latest checker store q (latest_qualification checker store q)) x in
      let (h, k) = IsLatest-iff q in (λ n. h (f n), λ l. g (k l))

  -- The qualification is the latest of its kind and is that of the validation, its acceptance is
  -- active and unchanged, its target live, and the executions are in order and of that target.
  abbrev pub Qualified : ValidationRow → QualificationRow → Type 0
  Qualified v q =
      IsLatest q
      × ((or_blank v.qualification_id ≡ q.id)
          × ((or_blank v.acceptance_id ≡ q.acceptance_id)
              × ((v.cycle_id ≡ q.cycle_id)
                  × ((v.candidate_sha ≡ candidate)
                      × (Accepted q
                          × (Live q
                              × ((is_empty (executions_of checker store v) ≡ false)
                                  × (((e : ExecutionRow)
                                        → In e (executions_of checker store v)
                                        → (or_blank e.target_id ≡ q.target_id)
                                          × (has_digest checker e.target_definition_sha256
                                                q.target_definition_sha256
                                              ≡ true))
                                      × AllInOrder v))))))))

  accepted-nil_iff :
      (q : QualificationRow) (o : Option AcceptanceRow)
      → (acceptance_issues checker store q o ≡ []) ↔ (
          (a : AcceptanceRow) × (o ≡ some a)
          × (a.status ≡ "active")
          × (nat_eq q.acceptance_revision a.revision ≡ true))
  accepted-nil_iff q none = (λ h. cc, λ (a, h, _, _). cc)
  accepted-nil_iff q (some a) = elim (Bool-cases (a.status == "active")) [
    | inl s ↦ rw s (
      λ h. (a, refl, (eq_iff _ _).0 s, (when_iff _ _).0 h),
      λ (b, e, _, r). (when_iff _ _).1 (
          subst (λ (x : AcceptanceRow). nat_eq q.acceptance_revision x.revision ≡ true) (same e) r),
    )
    | inr s ↦ rw s (
      λ h. cc,
      λ (b, e, t, _). absurd (
          both _ ((eq_iff _ _).1 (subst (λ (x : AcceptanceRow). x.status ≡ "active") (same e) t))
            s),
    )
  ]
    where
      same : {b : AcceptanceRow} → some a ≡ some b → b ≡ a
      same q = cc

      both : (b : Bool) → b ≡ true → b ≡ false → ⊥
      both b h k = cc

  live-nil_iff :
      (q : QualificationRow) (o : Option TestTargetRow)
      → (live_issues checker store q o ≡ []) ↔ (
          (t : TestTargetRow) × (o ≡ some t)
          × (checker.target_definition_digest t ≡ q.target_definition_sha256))
  live-nil_iff q none = (λ h. cc, λ (t, h, _). cc)
  live-nil_iff q (some t) =
      let (f, g) =
        text_iff checker (checker.target_definition_digest t) q.target_definition_sha256 _ in
      (
        λ h. (t, refl, f h),
        λ (u, e, h). g (
            subst (λ x. checker.target_definition_digest x ≡ q.target_definition_sha256) (same e)
              h),
      )
    where
      same : {u : TestTargetRow} → some t ≡ some u → u ≡ t
      same q = cc

  -- A validation under a qualification has nothing against it exactly if the qualification is the
  -- latest of its cycle, acceptance and target, which no other of these follows in the table, and
  -- is that of the validation, the candidate is the validation's, the acceptance is active and of
  -- the qualified revision, the target's definition is the qualified one, and the validation has
  -- executions, all in order and of that target.
  pub qualified_validation_execution_issues-nil_iff :
      (v : ValidationRow) (q : QualificationRow)
      → (qualified_validation_execution_issues checker store v q candidate require_structured ≡ [])
        ↔ Qualified v q
  unfolding qualified_validation_execution_issues
  qualified_validation_execution_issues-nil_iff v q = append-nil_iff _ (IsLatest-nil_iff q _) (
      append-nil_iff _ (text_iff checker _ _ _) (
        append-nil_iff _ (text_iff checker _ _ _) (
          append-nil_iff _ (text_iff checker _ _ _) (
            append-nil_iff _ (text_iff checker _ _ _) (
              append-nil_iff _ (accepted-nil_iff q (acceptance_of checker store q)) (
                append-nil_iff _ (live-nil_iff q _) (
                  append-nil_iff _ (when-nil_iff _ _) (
                    append-nil_iff _
                      (collect_iff (bound_issues checker store q) (executions_of checker store v)
                        (λ e. append-nil_iff _ (text_iff checker _ _ _) (when_iff _ _)))
                      (validation_execution_issues-nil_iff v)))))))))
