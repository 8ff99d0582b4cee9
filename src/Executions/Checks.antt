-- ===== src/Executions/Checks.antt =====
-- `_artifact_issues`, `execution_issues`, `validation_execution_issues` and
-- `qualified_validation_execution_issues` of core/delivery.py.
use kafa.Base.{
  ℕ, String, Bool, true, false, not, ◌&&◌, ◌||◌, Option, none, some, List, [], ◌∷◌, ◌++◌, ◌==◌,
  reverse, if◌then◌else◌, leb, nat_eq, select, find, any, collect, map, when, is_empty, is_some,
}
use kafa.Base.Text.{strip, lower}
use kafa.Trust.Defs.{positive_integer}
use kafa.Delivery.Facts.{
  ValidationRow, QualificationRow, AcceptanceRow, ExecutionIssue, no_linked_execution,
  cycle_mismatch, candidate_mismatch, candidate_stale, target_unregistered, target_not_gateable,
  sandbox_flag_invalid, network_flag_invalid, command_mismatch, format_mismatch, digest_missing,
  digest_mismatch, sandbox_required, offline_sandbox_required, no_network_invalid,
  exit_code_not_zero, count_not_positive, semantic_not_pass, policy_not_allowed, not_structured,
  provenance, artifact, qualification_superseded, qualification_target_missing,
  qualification_target_stale, qualification_acceptance_inactive, qualification_acceptance_stale,
  not_referenced, acceptance_mismatch, qualification_cycle_mismatch, validation_not_current,
  target_mismatch, target_digest_mismatch,
}
use kafa.Executions.Defs.{
  ExecutionRow, TestTargetRow, ValidationExecutionRow, ExecutionStore, Artifact, unsafe,
  unavailable, content, Checker, sqlite_flag, is_zero,
}

-- `str(value or "")` of a column that may be null
abbrev pub or_blank : Option String → String
or_blank none = ""
or_blank (some s) = s

abbrev pub is_set : Option Bool → Bool
is_set none = false
is_set (some b) = b

-- The message where the condition does not hold.
abbrev pub unless : Bool → ExecutionIssue → List ExecutionIssue
unless condition issue = when (not condition) (issue ∷ [])

module _ (checker : Checker) where
  abbrev pub is_expected : String → Artifact → Bool
  is_expected expected (content false sha256) = not (expected == "") && sha256 == expected
  is_expected expected _ = false

  abbrev pub artifact_issue : ExecutionRow → Artifact → List ExecutionIssue
  artifact_issue e (unsafe reason) = artifact e.id "path is unsafe" ∷ []
  artifact_issue e unavailable = artifact e.id "is unavailable" ∷ []
  artifact_issue e (content true sha256) = artifact e.id "is empty" ∷ []
  artifact_issue e (content false sha256) =
      unless (is_expected (lower (strip e.stdout_sha256)) (content false sha256))
        (artifact e.id "digest mismatch")

  -- `_artifact_issues`
  unfoldable pub artifact_issues : ExecutionRow → List ExecutionIssue
  artifact_issues e =
      if strip e.artifact_path == ""
      then artifact e.id "path is empty" ∷ []
      else artifact_issue e (checker.read_artifact (strip e.artifact_path))

  -- `requires_schema31_provenance`
  abbrev pub requires_provenance : Option ℕ → Bool
  requires_provenance none = true
  requires_provenance (some version) = leb 31 version

  abbrev pub has_digest : Option String → String → Bool
  has_digest none digest = false
  has_digest (some recorded) digest = recorded == digest

  abbrev pub digest_issue : ExecutionRow → TestTargetRow → Option String → List ExecutionIssue
  digest_issue e t none = digest_missing e.id ∷ []
  digest_issue e t (some recorded) =
      unless (recorded == checker.target_definition_digest t) (digest_mismatch e.id)

  -- `target["result_format"] or "regex"`
  abbrev pub format_of : TestTargetRow → String
  format_of t = if t.result_format == "" then "regex" else t.result_format

  abbrev pub is_sandboxed : ExecutionRow → Bool
  is_sandboxed e = e.sandbox_status == "available"

  -- The checks against the target, which is `None` where it is not registered.
  unfoldable pub target_issues : Bool → ExecutionRow → Option TestTargetRow → List ExecutionIssue
  target_issues provenance_needed e none = target_unregistered e.id ∷ []
  target_issues provenance_needed e (some t) =
      unless (is_set (sqlite_flag t.gateable)) (target_not_gateable e.id)
      ++ (unless (is_some (sqlite_flag t.requires_sandbox)) (sandbox_flag_invalid e.id)
          ++ (unless (is_some (sqlite_flag t.requires_no_network)) (network_flag_invalid e.id)
              ++ (unless (checker.command_matches_template e.command t.command_template)
                    (command_mismatch e.id)
                  ++ (unless (e.result_format == format_of t) (format_mismatch e.id)
                      ++ (when provenance_needed (digest_issue e t e.target_definition_sha256)
                          ++ (unless
                                (not (is_set (sqlite_flag t.requires_sandbox)) || is_sandboxed e)
                                (sandbox_required e.id)
                              ++ unless
                                  (not (is_set (sqlite_flag t.requires_no_network))
                                    || (is_sandboxed e && is_set (sqlite_flag e.no_network)))
                                  (offline_sandbox_required e.id)))))))

  abbrev pub is_allowed : String → Bool
  is_allowed s = s == "allowed" || s == "pass" || s == "controller-verified"

  module _ (store : ExecutionStore) where
    unfoldable pub target_of : ExecutionRow → Option TestTargetRow
    target_of e =
        let id = strip (or_blank e.target_id) in
        if id == "" then none else find (λ (t : TestTargetRow). t.id == id) store.targets

    -- `execution_issues`
    unfoldable pub execution_issues :
        (candidate : String) (require_structured : Bool) → ExecutionRow → List ExecutionIssue
    unfolding target_issues target_of artifact_issues positive_integer sqlite_flag is_zero
    execution_issues candidate require_structured e =
        unless (e.candidate_sha == candidate) (candidate_stale e.id)
        ++ (target_issues (requires_provenance store.schema_version) e (target_of e)
            ++ (unless (is_some (sqlite_flag e.no_network)) (no_network_invalid e.id)
                ++ (unless (is_zero e.exit_code) (exit_code_not_zero e.id)
                    ++ (unless (is_some (positive_integer e.executed_count))
                          (count_not_positive e.id)
                        ++ (unless (e.semantic_status == "pass") (semantic_not_pass e.id)
                            ++ (unless (is_allowed e.policy_status) (policy_not_allowed e.id)
                                ++ (unless (not (require_structured && e.result_format == "regex"))
                                      (not_structured e.id)
                                    ++ (when (requires_provenance store.schema_version)
                                          (map (provenance e.id) (checker.provenance_issues e))
                                        ++ artifact_issues e))))))))

    -- The executions that are linked to a validation.
    unfoldable pub executions_of : ValidationRow → List ExecutionRow
    executions_of v =
        select
          (λ (e : ExecutionRow).
            any
              (λ (link : ValidationExecutionRow).
                link.validation_id == v.id && link.execution_id == e.id)
              store.validation_executions)
          store.executions

    abbrev pub linked_issues :
        (candidate : String) (require_structured : Bool)
        → ValidationRow
        → ExecutionRow
        → List ExecutionIssue
    linked_issues candidate require_structured v e =
        unless (e.cycle_id == v.cycle_id) (cycle_mismatch e.id v.id)
        ++ (unless (e.candidate_sha == v.candidate_sha) (candidate_mismatch e.id v.id)
            ++ execution_issues candidate require_structured e)

    -- `validation_execution_issues`
    unfoldable pub validation_execution_issues :
        ValidationRow → (candidate : String) (require_structured : Bool) → List ExecutionIssue
    unfolding executions_of execution_issues
    validation_execution_issues v candidate require_structured =
        if is_empty (executions_of v)
        then no_linked_execution v.id ∷ []
        else collect (linked_issues candidate require_structured v) (executions_of v)

    -- `latest_acceptance_target_qualification`
    unfoldable pub latest_qualification : QualificationRow → Option QualificationRow
    latest_qualification q =
        find
          (λ (r : QualificationRow).
            r.cycle_id == q.cycle_id
            && (r.acceptance_id == q.acceptance_id && r.target_id == q.target_id))
          (reverse store.qualifications)

    abbrev pub is_latest : QualificationRow → Option QualificationRow → Bool
    is_latest q none = false
    is_latest q (some r) = r.id == q.id

    abbrev pub acceptance_of : QualificationRow → Option AcceptanceRow
    acceptance_of q =
        find (λ (a : AcceptanceRow). a.cycle_id == q.cycle_id && a.id == q.acceptance_id)
          store.acceptances

    abbrev pub acceptance_issues : QualificationRow → Option AcceptanceRow → List ExecutionIssue
    acceptance_issues q none = qualification_acceptance_inactive q.id ∷ []
    acceptance_issues q (some a) =
        if not (a.status == "active")
        then qualification_acceptance_inactive q.id ∷ []
        else unless (nat_eq q.acceptance_revision a.revision) (qualification_acceptance_stale q.id)

    abbrev pub live_issues : QualificationRow → Option TestTargetRow → List ExecutionIssue
    live_issues q none = qualification_target_missing q.id ∷ []
    live_issues q (some t) =
        unless (checker.target_definition_digest t == q.target_definition_sha256)
          (qualification_target_stale q.id)

    abbrev pub bound_issues : QualificationRow → ExecutionRow → List ExecutionIssue
    bound_issues q e =
        unless (or_blank e.target_id == q.target_id) (target_mismatch e.id q.id)
        ++ unless (has_digest e.target_definition_sha256 q.target_definition_sha256)
            (target_digest_mismatch e.id q.id)

    -- `qualified_validation_execution_issues`
    unfoldable pub qualified_validation_execution_issues :
        ValidationRow
        → QualificationRow
        → (candidate : String) (require_structured : Bool) → List ExecutionIssue
    unfolding latest_qualification validation_execution_issues
    qualified_validation_execution_issues v q candidate require_structured =
        unless (is_latest q (latest_qualification q)) (qualification_superseded q.id)
        ++ (unless (or_blank v.qualification_id == q.id) (not_referenced v.id)
            ++ (unless (or_blank v.acceptance_id == q.acceptance_id) (acceptance_mismatch v.id)
                ++ (unless (v.cycle_id == q.cycle_id) (qualification_cycle_mismatch v.id)
                    ++ (unless (v.candidate_sha == candidate) (validation_not_current v.id)
                        ++ (acceptance_issues q (acceptance_of q)
                            ++ (live_issues q
                                  (find (λ (t : TestTargetRow). t.id == q.target_id) store.targets)
                                ++ (when (is_empty (executions_of v))
                                      (no_linked_execution v.id ∷ [])
                                    ++ (collect (bound_issues q) (executions_of v)
                                        ++ validation_execution_issues v candidate
                                            require_structured))))))))
