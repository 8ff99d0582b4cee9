-- ===== src/Guards/Accepts.antt =====
-- Which entities the guards accept.
use kafa.Base.{
  String, ◌≡◌, ◌≢◌, refl, sym, subst, true, List, [], ◌∷◌, ◌==◌, inl, inr, ◌↔◌, eq_iff, Bool-cases,
}
use kafa.Base.Text.{strip}
use kafa.Base.Sets.{contains}
use kafa.Base.Members.{In, first, later, In-cons}
use kafa.Ledger.{Result, ok, guard_test, ◌>>◌, >>=-eq-ok}
use kafa.Tasks.Defs.{require_text}
use kafa.Guards.{
  Entity, requirement, acceptance, failure_mode, task, validation, gate, delivery, test_target,
  validate, require_choice, task_statuses, record_statuses, failure_mode_statuses, risks,
  validation_results, gate_results, gate_contexts, requirement_kinds, test_target_kinds,
  stack_profiles, result_formats,
}

abbrev pub IsGiven : String → Type 0
IsGiven s = strip s ≢ ""

-- Each text is given, and each choice is one of those allowed.
pub IsValid : Entity → Type 0
IsValid (requirement id kind body status) =
    IsGiven id × (In kind requirement_kinds × (IsGiven body × In status record_statuses))
IsValid (acceptance id criterion status) =
    IsGiven id × (IsGiven criterion × In status record_statuses)
IsValid (failure_mode id risk status) =
    IsGiven id × (In risk risks × In status failure_mode_statuses)
IsValid (task id body status) = IsGiven id × (IsGiven body × In status task_statuses)
IsValid (validation surface findings result) =
    IsGiven surface × (IsGiven findings × In result validation_results)
IsValid (gate reviewer_context result name) =
    IsGiven name × (In reviewer_context gate_contexts × In result gate_results)
IsValid (delivery scope) = IsGiven scope
IsValid (test_target id kind command_template stack_profile result_format) =
    IsGiven id
    × (In kind test_target_kinds
        × (IsGiven command_template
            × (In stack_profile stack_profiles × In result_format result_formats)))

contains_iff : (xs : List String) (k : String) → (contains xs k ≡ true) ↔ In k xs
unfolding contains
contains_iff [] k = (λ h. cc, λ m. elim m [ ])
contains_iff (x ∷ xs) k = (to (contains_iff xs k).0, from (contains_iff xs k).1)
  where
    to : (contains xs k ≡ true → In k xs) → contains (x ∷ xs) k ≡ true → In k (x ∷ xs)
    to rec h = elim (Bool-cases (x == k)) [
      | inl e ↦ subst (λ y. In y (x ∷ xs)) ((eq_iff x k).0 e) first
      | inr e ↦ later (rec (rw e at h))
    ]

    from : (In k xs → contains xs k ≡ true) → In k (x ∷ xs) → contains (x ∷ xs) k ≡ true
    from rec m = elim (In-cons m) [
      | inl e ↦ rw ((eq_iff x k).1 (sym e)) refl
      | inr n ↦ elim (Bool-cases (x == k)) [ inl q ↦ rw q refl | inr q ↦ rw q (rec n) ]
    ]

module _ (label : String) where
  require_text_iff : (s : String) → (require_text label s ≡ ok tt) ↔ IsGiven s
  unfolding require_text
  require_text_iff s = (to, from)
    where
      to : require_text label s ≡ ok tt → IsGiven s
      to h e = cc (rw e at (guard_test _ _ h))

      from : IsGiven s → require_text label s ≡ ok tt
      from ne = elim (Bool-cases (strip s == "")) [
        | inl q ↦ absurd (ne ((eq_iff (strip s) "").0 q))
        | inr q ↦ rw q refl
      ]

  require_choice_iff :
      (s : String) (allowed : List String) → (require_choice label s allowed ≡ ok tt) ↔ In s allowed
  unfolding require_choice
  require_choice_iff s allowed = (
    λ h. (contains_iff allowed s).0 (guard_test _ _ h),
    λ m. rw ((contains_iff allowed s).1 m) refl,
  )

-- A first check and then the rest.
then_iff :
    {P Q : Type 0} (m n : Result (Unit {0}))
    → (m ≡ ok tt) ↔ P
    → (n ≡ ok tt) ↔ Q
    → ((m >> n) ≡ ok tt) ↔ (P × Q)
then_iff m n (f, g) (h, k) =
    (λ e. let (_, a, b) = >>=-eq-ok m (λ _. n) e in (f a, h b), λ (p, q). rw (g p) (k q))

-- The guards accept an entity exactly if each of its required texts has more than white space and
-- each of its choices is one of those allowed.
pub validate_iff : (entity : Entity) → (validate entity ≡ ok tt) ↔ IsValid entity
unfolding validate IsValid
validate_iff (requirement id kind body status) = then_iff _ _ (require_text_iff _ id) (
    then_iff _ _ (require_choice_iff _ kind _)
      (then_iff _ _ (require_text_iff _ body) (require_choice_iff _ status _)))
validate_iff (acceptance id criterion status) =
    then_iff _ _ (require_text_iff _ id)
      (then_iff _ _ (require_text_iff _ criterion) (require_choice_iff _ status _))
validate_iff (failure_mode id risk status) =
    then_iff _ _ (require_text_iff _ id)
      (then_iff _ _ (require_choice_iff _ risk _) (require_choice_iff _ status _))
validate_iff (task id body status) =
    then_iff _ _ (require_text_iff _ id)
      (then_iff _ _ (require_text_iff _ body) (require_choice_iff _ status _))
validate_iff (validation surface findings result) =
    then_iff _ _ (require_text_iff _ surface)
      (then_iff _ _ (require_text_iff _ findings) (require_choice_iff _ result _))
validate_iff (gate reviewer_context result name) =
    then_iff _ _ (require_text_iff _ name)
      (then_iff _ _ (require_choice_iff _ reviewer_context _) (require_choice_iff _ result _))
validate_iff (delivery scope) = require_text_iff _ scope
validate_iff (test_target id kind command_template stack_profile result_format) =
    then_iff _ _ (require_text_iff _ id) (
      then_iff _ _ (require_choice_iff _ kind _) (
        then_iff _ _ (require_text_iff _ command_template) (
          then_iff _ _ (require_choice_iff _ stack_profile _)
            (require_choice_iff _ result_format _))))
