-- ===== src/Delivery/Coverage.antt =====
-- The parts of `_evaluate_local_delivery_policy` of core/delivery.py that read validations: which of
-- them count for the delivery, the acceptance that each proves, and the failure modes that they
-- cover.
use kafa.Base.{
  String, Bool, true, false, not, ◌&&◌, Option, none, some, List, [], ◌∷◌, ◌++◌, ◌==◌, reverse,
  if◌then◌else◌, is_empty, select, find, any,
}
use kafa.Base.Text.{strip}
use kafa.Delivery.Facts.{
  Facts, ValidationRow, ValidationModeRow, ModeAcceptanceRow, QualificationRow, AcceptanceRow,
  FailureModeRow, ExecutionIssue, Inspectors, Scope, qualification_missing,
}

abbrev pub with_found :
    List ExecutionIssue → Option (List ExecutionIssue) → Option (List ExecutionIssue)
with_found here none = none
with_found here (some more) = some (here ++ more)

-- The loop over candidates that stops at the first one with nothing against it: `none` if there is
-- one, or else all that was found.
unfoldable pub try_each :
    {A : Type 0} → (A → List ExecutionIssue) → List A → Option (List ExecutionIssue)
try_each issues [] = some []
try_each issues (x ∷ xs) =
    let rest = try_each issues xs in
    if is_empty (issues x) then none else with_found (issues x) rest

-- `is not null`, and `=` with a column that may be null
abbrev pub is_id : String → Option String → Bool
is_id id none = false
is_id id (some other) = other == id

abbrev pub is_given : Option String → Bool
is_given none = false
is_given (some id) = not (strip id == "")

module _ (facts : Facts) (scope : Scope) where
  -- The conditions of the query of `validations`.
  abbrev pub is_current : ValidationRow → Bool
  is_current v =
      v.cycle_id == scope.cycle.id
      && (v.candidate_sha == scope.candidate && v.validation_status == "active")

  abbrev pub counts_for_delivery : ValidationRow → Bool
  counts_for_delivery v =
      if facts.has_qualification_column then is_given v.qualification_id else true

  unfoldable pub delivery_validations : List ValidationRow
  delivery_validations = select counts_for_delivery (select is_current facts.validations)

  abbrev pub passes : ValidationRow → Bool
  passes v = v.result == "pass"

  abbrev pub passes_for : AcceptanceRow → ValidationRow → Bool
  passes_for a v = is_current v && (is_id a.id v.acceptance_id && passes v)

  -- the passing validations of an acceptance, the newest first
  unfoldable pub proofs_of : AcceptanceRow → List ValidationRow
  proofs_of a = reverse (select (passes_for a) facts.validations)

  abbrev pub names_mode : FailureModeRow → ValidationRow → ValidationModeRow → Bool
  names_mode mode v row =
      row.cycle_id == scope.cycle.id
      && (row.failure_mode_id == mode.id
          && (row.validation_id == v.id && v.cycle_id == row.cycle_id))

  abbrev pub links_mode : FailureModeRow → ValidationRow → ModeAcceptanceRow → Bool
  links_mode mode v row =
      row.cycle_id == scope.cycle.id
      && (row.failure_mode_id == mode.id && is_id row.acceptance_id v.acceptance_id)

  -- The conditions of the query of the validations that cover a failure mode. The keys of the two
  -- tables that it joins leave at most one row of each for a validation.
  abbrev pub may_cover : FailureModeRow → ValidationRow → Bool
  may_cover mode v =
      any (names_mode mode v) facts.validation_failure_modes
      && (any (links_mode mode v) facts.failure_mode_acceptance
          && (v.candidate_sha == scope.candidate
              && (v.validation_status == "active"
                  && (passes v && is_qualified v.qualification_id))))
    where
      is_qualified : Option String → Bool
      is_qualified none = false
      is_qualified (some _) = true

  unfoldable pub covers_of : FailureModeRow → List ValidationRow
  covers_of mode =
      if facts.has_qualification_column
      then reverse (select (may_cover mode) facts.validations)
      else []

  unfoldable pub qualification_of : ValidationRow → Option QualificationRow
  qualification_of v = find (λ q. is_id q.id v.qualification_id) facts.qualifications

  abbrev pub shown : Option String → String
  shown none = "None"
  shown (some id) = id

  module _ (insp : Inspectors) where
    abbrev pub on_qualification :
        Bool → ValidationRow → Option QualificationRow → List ExecutionIssue
    on_qualification structured v none = qualification_missing (shown v.qualification_id) ∷ []
    on_qualification structured v (some q) =
        insp.qualified_validation_execution_issues v q scope.candidate structured

    unfoldable pub qualified_issues : Bool → ValidationRow → List ExecutionIssue
    unfolding qualification_of
    qualified_issues structured v = on_qualification structured v (qualification_of v)

    -- `eligible`, of a validation that passes
    unfoldable pub is_eligible : Bool → ValidationRow → Bool
    unfolding qualified_issues
    is_eligible structured v =
        if facts.has_qualification_column
        then is_empty (qualified_issues structured v)
        else is_empty (insp.validation_execution_issues v scope.candidate structured)

    -- `current_execution`
    unfoldable pub current_execution : Bool → Bool
    unfolding is_eligible delivery_validations
    current_execution structured =
        any (λ v. passes v && is_eligible structured v) delivery_validations

    -- the loop over the validations of an acceptance
    unfoldable pub unproven : AcceptanceRow → Option (List ExecutionIssue)
    unfolding proofs_of try_each
    unproven a =
        try_each (λ v. insp.validation_execution_issues v scope.candidate false) (proofs_of a)

    -- the loop over the validations that may cover a failure mode
    unfoldable pub uncovered : FailureModeRow → Option (List ExecutionIssue)
    unfolding covers_of try_each qualified_issues
    uncovered mode = try_each (qualified_issues true) (covers_of mode)
