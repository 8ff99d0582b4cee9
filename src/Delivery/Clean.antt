-- ===== src/Delivery/Clean.antt =====
-- When the loops of the delivery policy that stop at the first clean candidate report nothing.
use kafa.Base.{
  ◌≡◌, refl, subst, true, false, Option, none, some, List, [], ◌∷◌, ◌↔◌, ◌⊎◌, inl, inr, Bool-cases,
  is_empty, is_empty-eq_true,
}
use kafa.Base.Members.{In, first, later, In-cons}
use kafa.Delivery.Facts.{ExecutionIssue}
use kafa.Delivery.Coverage.{try_each, with_found}

pub is_empty-nil : {A : Type 0} (xs : List A) → xs ≡ [] → is_empty xs ≡ true
is_empty-nil [] h = refl
is_empty-nil (x ∷ xs) h = cc

-- The loop finds nothing against the candidates exactly if one of them is clean.
pub try_each-none_iff :
    {A : Type 0} (issues : A → List ExecutionIssue) (xs : List A)
    → (try_each issues xs ≡ none) ↔ ((x : A) × In x xs × (issues x ≡ []))
unfolding try_each
try_each-none_iff issues [] = (λ h. cc, λ (x, m, _). elim m [ ])
try_each-none_iff {A} issues (y ∷ ys) = elim (Bool-cases (is_empty (issues y))) [
  | inl e ↦ (λ _. (y, first, is_empty-eq_true (issues y) e), λ _. rw e refl)
  | inr e ↦
      let (to, from) = try_each-none_iff issues ys in
      (
        λ h. let (x, m, n) = to (in_rest (try_each issues ys) (rw e at h)) in (x, later m, n),
        λ (x, m, n). rw e (rest_clean e from (In-cons m) n),
      )
]
  where
    in_rest : (o : Option (List ExecutionIssue)) → with_found (issues y) o ≡ none → o ≡ none
    in_rest none h = refl
    in_rest (some more) h = cc

    rest_clean :
        {x : A}
        → is_empty (issues y) ≡ false
        → ((x : A) × In x ys × (issues x ≡ []) → try_each issues ys ≡ none)
        → (x ≡ y) ⊎ In x ys
        → issues x ≡ []
        → with_found (issues y) (try_each issues ys) ≡ none
    rest_clean e from (inl q) n = cc (is_empty-nil (issues y) (subst (λ z. issues z ≡ []) q n), e)
    rest_clean {x} e from (inr k) n = rw (from (x, k, n)) refl
