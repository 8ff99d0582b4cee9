-- ===== src/Executions/InOrder.antt =====
-- When the checks of core/delivery.py have nothing against one execution.
use kafa.Base.{
  String, ◌≡◌, refl, ap, subst, Bool, true, false, not, ◌&&◌, ◌||◌, Option, none, some, List, [],
  ◌∷◌, ◌==◌, inl, inr, ◌↔◌, Bool-cases, when, is_some, eq_iff, and-eq-true_iff, not-eq-true,
}
use kafa.Base.Text.{strip, lower}
use kafa.Base.Members.{append-nil_iff, map-nil_iff}
use kafa.Trust.Defs.{positive_integer}
use kafa.Trust.Approval.{when_iff}
use kafa.Executions.Defs.{
  ExecutionRow, TestTargetRow, ExecutionStore, Artifact, unsafe, unavailable, content, Checker,
  sqlite_flag, is_zero,
}
use kafa.Executions.Checks.{
  is_set, is_sandboxed, is_allowed, requires_provenance, format_of, digest_issue, artifact_issue,
  artifact_issues, target_of, target_issues, execution_issues,
}

module _ (checker : Checker) where
  -- The file of the artifact can be read, is not empty and has the recorded digest.
  abbrev pub Stored : ExecutionRow → Type 0
  Stored e =
      ((strip e.artifact_path == "") ≡ false)
      × ((lower (strip e.stdout_sha256) == "") ≡ false)
      × (checker.read_artifact (strip e.artifact_path)
          ≡ content false (lower (strip e.stdout_sha256)))

  -- The registered target of the execution, and how it was run for it.
  abbrev pub ForTarget : Bool → ExecutionRow → TestTargetRow → Type 0
  ForTarget provenance_needed e t =
      (is_set (sqlite_flag t.gateable) ≡ true)
      × ((is_some (sqlite_flag t.requires_sandbox) ≡ true)
          × ((is_some (sqlite_flag t.requires_no_network) ≡ true)
              × ((checker.command_matches_template e.command t.command_template ≡ true)
                  × ((e.result_format ≡ format_of checker t)
                      × ((provenance_needed ≡ true
                            → e.target_definition_sha256
                              ≡ some (checker.target_definition_digest t))
                          × (((not (is_set (sqlite_flag t.requires_sandbox))
                                  || is_sandboxed checker e)
                                ≡ true)
                              × ((not (is_set (sqlite_flag t.requires_no_network))
                                    || (is_sandboxed checker e
                                        && is_set (sqlite_flag e.no_network)))
                                  ≡ true)))))))

  module _ (store : ExecutionStore) (candidate : String) (require_structured : Bool) where
    -- An execution of the candidate that passed: for a registered target, with exit code zero and a
    -- positive count, allowed by the policy, structured where that is asked for, with its provenance
    -- and its artifact.
    abbrev pub InOrder : ExecutionRow → Type 0
    InOrder e =
        (e.candidate_sha ≡ candidate)
        × (((t : TestTargetRow) × (target_of checker store e ≡ some t)
              × ForTarget (requires_provenance checker store.schema_version) e t)
            × ((is_some (sqlite_flag e.no_network) ≡ true)
                × ((is_zero e.exit_code ≡ true)
                    × ((is_some (positive_integer e.executed_count) ≡ true)
                        × ((e.semantic_status ≡ "pass")
                            × ((is_allowed checker e.policy_status ≡ true)
                                × ((not (require_structured && e.result_format == "regex") ≡ true)
                                    × ((requires_provenance checker store.schema_version ≡ true
                                          → checker.provenance_issues e ≡ [])
                                        × Stored e))))))))

  pub text_iff : {A : Type 0} (s t : String) (x : A) → (when (not (s == t)) (x ∷ []) ≡ []) ↔ (s ≡ t)
  text_iff s t x =
      (λ h. (eq_iff s t).0 ((when_iff _ x).0 h), λ e. (when_iff _ x).1 ((eq_iff s t).1 e))

  if_asked :
      {A : Type 0} {P : Type 0} (b : Bool) (xs : List A)
      → (xs ≡ []) ↔ P
      → (when b xs ≡ []) ↔ (b ≡ true → P)
  if_asked true xs (f, g) = (λ h _. f h, λ h. g (h refl))
  if_asked false xs (f, g) = (λ _ e. cc, λ _. refl)

  some_text_iff : (a b : String) → ((a == b) ≡ true) ↔ (some a ≡ some b)
  some_text_iff a b = (λ h. ap some ((eq_iff a b).0 h), λ e. (eq_iff a b).1 (cc e))

  digest-nil_iff :
      (e : ExecutionRow) (t : TestTargetRow) (o : Option String)
      → (digest_issue checker e t o ≡ []) ↔ (o ≡ some (checker.target_definition_digest t))
  digest-nil_iff e t none = (λ h. cc, λ h. cc)
  digest-nil_iff e t (some d) =
      let (f, g) = some_text_iff d (checker.target_definition_digest t) in
      (λ h. f ((when_iff _ _).0 h), λ h. (when_iff _ _).1 (g h))

  Stored-iff : (e : ExecutionRow) → (artifact_issues checker e ≡ []) ↔ Stored e
  unfolding artifact_issues
  Stored-iff e = elim (Bool-cases (strip e.artifact_path == "")) [
    | inl p ↦ rw p (λ h. cc, λ (h, _, _). cc)
    | inr p ↦ rw p (read (checker.read_artifact (strip e.artifact_path)))
  ]
    where
      read :
          (a : Artifact)
          → (artifact_issue checker e a ≡ []) ↔ (
              (false ≡ false)
              × ((lower (strip e.stdout_sha256) == "") ≡ false)
              × (a ≡ content false (lower (strip e.stdout_sha256))))
      read (unsafe reason) = (λ h. cc, λ (_, _, h). cc)
      read unavailable = (λ h. cc, λ (_, _, h). cc)
      read (content true sha256) = (λ h. cc, λ (_, _, h). cc)
      read (content false sha256) = (
        λ h.
            let (n, s) = (and-eq-true_iff _ _).0 ((when_iff _ _).0 h) in
            (refl, not-eq-true _ n, ap (content false) ((eq_iff _ _).0 s)),
        λ (_, n, s). (when_iff _ _).1 ((and-eq-true_iff _ _).1 (ap not n, (eq_iff _ _).1 (sha s))),
      )
        where
          sha : {a b : String} → content false a ≡ content false b → a ≡ b
          sha q = cc

  target-nil_iff :
      (needed : Bool) (e : ExecutionRow) (o : Option TestTargetRow)
      → (target_issues checker needed e o ≡ [])
        ↔ ((t : TestTargetRow) × (o ≡ some t) × ForTarget needed e t)
  unfolding target_issues
  target-nil_iff needed e none = (λ h. cc, λ (t, h, _). cc)
  target-nil_iff needed e (some t) =
      let (f, g) = append-nil_iff _ (when_iff _ _) (
        append-nil_iff _ (when_iff _ _) (
          append-nil_iff _ (when_iff _ _) (
            append-nil_iff _ (when_iff _ _) (
              append-nil_iff _ (text_iff _ _ _) (
                append-nil_iff _ (if_asked _ _ (digest-nil_iff e t e.target_definition_sha256))
                  (append-nil_iff _ (when_iff _ _) (when_iff _ _))))))) in
      (λ h. (t, refl, f h), λ (u, q, h). g (subst (ForTarget needed e) (same q) h))
    where
      same : {u : TestTargetRow} → some t ≡ some u → u ≡ t
      same q = cc

  -- The checks have nothing against an execution exactly if it is of the candidate and passed: for a
  -- registered target that counts, whose template, format, sandbox and network it keeps to, with exit
  -- code zero and a positive count, allowed by the policy, structured where that is asked for, with
  -- its provenance where the schema has it, and with a stored artifact of the recorded digest.
  pub execution_issues-nil_iff :
      (store : ExecutionStore) (candidate : String) (require_structured : Bool) (e : ExecutionRow)
      → (execution_issues checker store candidate require_structured e ≡ [])
        ↔ InOrder store candidate require_structured e
  unfolding execution_issues
  execution_issues-nil_iff store candidate require_structured e =
      append-nil_iff _ (text_iff _ _ _) (
        append-nil_iff _ (target-nil_iff _ e (target_of checker store e)) (
          append-nil_iff _ (when_iff _ _) (
            append-nil_iff _ (when_iff _ _) (
              append-nil_iff _ (when_iff _ _) (
                append-nil_iff _ (text_iff _ _ _) (
                  append-nil_iff _ (when_iff _ _) (
                    append-nil_iff _ (when_iff _ _) (
                      append-nil_iff _ (if_asked _ _ (map-nil_iff _ (checker.provenance_issues e)))
                        (Stored-iff e)))))))))
