-- ===== src/Metrics/Measured.antt =====
-- What the values of the outcome metrics of core/outcome_metrics.py are.
use kafa.Base.{
  ℕ, ◌≤◌, ◌<◌, String, ◌≡◌, subst, ◌==◌, Bool, true, not, ◌&&◌, none, some, List, [], ◌∷◌, ◌⊎◌, inl,
  inr, Bool-cases, arith, nat_eq, length, select, and-eq-true_iff,
}
use kafa.Delivery.Facts.{QualificationRow}
use kafa.Metrics.Times.{Clock, MigrationRow, Metric, ratio}
use kafa.Metrics.Rates.{ratio_if, recovery_attempts, recovery_success_metric}
use kafa.Metrics.Coverage.{
  ActiveAcceptance, TargetRow, is_covered, active_acceptances, qualification_coverage_metric,
}

length-select : {A : Type 0} (p : A → Bool) (xs : List A) → length (select p xs) ≤ length xs
length-select p [] = omega arith
length-select p (x ∷ xs) = elim (Bool-cases (p x)) [
  | inl e ↦ rw e (omega (arith, length-select p xs))
  | inr e ↦ rw e (omega (arith, length-select p xs))
]

-- A share of no more than there are is at most one, and of a positive denominator.
share-bounds :
    (n d : ℕ) (complete : Bool) {a b : ℕ}
    → n ≤ d
    → ratio_if (not (nat_eq d 0) && complete) (some n) d ≡ some (ratio a b)
    → (a ≤ b) × (0 < b)
share-bounds n d complete {a} {b} le h = elim (Bool-cases (not (nat_eq d 0) && complete)) [
  | inr e ↦ absurd (none_some (rw e at h))
  | inl e ↦
      let (p, c) = (and-eq-true_iff (not (nat_eq d 0)) complete).0 e in
      let (x, y) = parts (rw e at h) in (rw (x, y) le, rw y (positive d p))
]
  where
    none_some : none ≡ some (ratio a b) → ⊥
    none_some q = cc

    parts : some (ratio n d) ≡ some (ratio a b) → (a ≡ n) × (b ≡ d)
    parts q = (cc, cc)

    positive : (k : ℕ) → not (nat_eq k 0) ≡ true → 0 < k
    positive k q = ground arith

-- The recovery rate and the coverage rate, where they have values, are of a positive denominator and
-- at most one: the numerator counts some of the rows that the denominator counts.
pub rates-bounds :
    (clock : Clock) (digest : TargetRow → String) (targets : List TargetRow)
    (migrations : List MigrationRow) (acceptances : List ActiveAcceptance)
    (qualifications : List QualificationRow) (cycle_id generated_at : String) (m : Metric) (n d : ℕ)
    → (m ≡ recovery_success_metric clock migrations generated_at)
      ⊎ (m
          ≡ qualification_coverage_metric digest targets clock acceptances qualifications cycle_id
              generated_at)
    → m.value ≡ some (ratio n d)
    → (n ≤ d) × (0 < d)
unfolding recovery_success_metric qualification_coverage_metric
rates-bounds clock digest targets migrations acceptances qualifications cycle_id generated_at m n d
      (inl e) v =
    share-bounds _ _ _
      (length-select (λ (r : MigrationRow). r.status == "rolled-back")
        (recovery_attempts migrations))
      (subst (λ (x : Metric). x.value ≡ some (ratio n d)) e v)
rates-bounds clock digest targets migrations acceptances qualifications cycle_id generated_at m n d
      (inr e) v =
    share-bounds _ _ _
      (length-select (is_covered digest targets qualifications cycle_id)
        (active_acceptances digest targets acceptances cycle_id))
      (subst (λ (x : Metric). x.value ≡ some (ratio n d)) e v)
