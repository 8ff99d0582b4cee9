-- ===== src/Phases/Steps.antt =====
-- Which phases follow each other, and that the table of phases says so.
use kafa.Base.{
  String, ◌≡◌, ◌≢◌, refl, sym, ◌∙◌, subst, true, Option, none, some, List, [], ◌∷◌, ◌==◌, ◌⊎◌, inl,
  inr, arith, eq_iff, Bool-cases, All,
}
use kafa.Base.Sets.{contains}
use kafa.Base.Members.{In, first, later}
use kafa.Ledger.{ok, err, guard, guard_test, illegal_transition, key_error}
use kafa.Phases.Defs.{phase_transitions, next_phases, require_next}

-- The phases that follow each other.
pub data PhaseStep : String → String → Type 0 where
  bootstrap : PhaseStep "intake" "project_bootstrap"
  baseline : PhaseStep "project_bootstrap" "requirement_baseline"
  confirm : PhaseStep "requirement_baseline" "confirmation"
  staff : PhaseStep "confirmation" "team_architecture"
  plan_directly : PhaseStep "confirmation" "planning"
  plan : PhaseStep "team_architecture" "planning"
  implement : PhaseStep "planning" "implementation"
  check : PhaseStep "implementation" "qa"
  rework : PhaseStep "qa" "implementation"
  reflect : PhaseStep "delivery_readiness" "retrospective"
  archive : PhaseStep "retrospective" "archived"

one_target : (from to : String) (target : String) → contains (target ∷ []) to ≡ true → to ≡ target
unfolding contains
one_target from to target h = ground (arith, eq_iff target to)

two_targets : (to a b : String) → contains (a ∷ b ∷ []) to ≡ true → (to ≡ a) ⊎ (to ≡ b)
unfolding contains
two_targets to a b h = ground (arith, eq_iff a to, eq_iff b to)

-- An association list that is searched has the pair that it finds.
next_phases-In :
    (current : String) (table : List (String × List String)) {targets : List String}
    → next_phases current table ≡ some targets
    → In (current, targets) table
unfolding next_phases
next_phases-In current [] h = cc
next_phases-In current ((from, ts) ∷ rest) {targets} h = elim (Bool-cases (from == current)) [
  | inl e ↦
      subst (λ (x : String × List String). In x ((from, ts) ∷ rest))
        (cc ((eq_iff from current).0 e, rw e at h)) first
  | inr e ↦ later (next_phases-In current rest (rw e at h))
]

All-In {ℓ κ} : {A : Type ℓ} (P : A → Type κ) (xs : List A) {x : A} → All P xs → In x xs → P x
All-In P [] a m = elim m [ ]
All-In P (y ∷ ys) (a, b) first = a
All-In P (y ∷ ys) (a, b) (later m) = All-In P ys b m

abbrev StepsOf : String × List String → Type 0
StepsOf (from, targets) =
    (to : String) → contains targets to ≡ true → to ≢ "delivery_readiness" → PhaseStep from to

one_step : (from target : String) → PhaseStep from target → StepsOf (from, target ∷ [])
one_step from target s to h ne = subst (PhaseStep from) (sym (one_target from to target h)) s

two_steps :
    (from a b : String)
    → (a ≢ "delivery_readiness" → PhaseStep from a)
    → PhaseStep from b
    → StepsOf (from, a ∷ b ∷ [])
two_steps from a b s t to h ne = elim (two_targets to a b h) [
  | inl e ↦ subst (PhaseStep from) (sym e) (s (λ q. ne (e ∙ q)))
  | inr e ↦ subst (PhaseStep from) (sym e) t
]

no_step : (from : String) → StepsOf (from, [])
unfolding contains
no_step from to h ne = cc

All-steps : All StepsOf phase_transitions
All-steps = (
  one_step "intake" "project_bootstrap" bootstrap,
  (
    one_step "project_bootstrap" "requirement_baseline" baseline,
    (
      one_step "requirement_baseline" "confirmation" confirm,
      (
        two_steps "confirmation" "team_architecture" "planning" (λ _. staff) plan_directly,
        (
          one_step "team_architecture" "planning" plan,
          (
            one_step "planning" "implementation" implement,
            (
              one_step "implementation" "qa" check,
              (
                two_steps "qa" "delivery_readiness" "implementation" (λ n. absurd (n refl)) rework,
                (
                  one_step "delivery_readiness" "retrospective" reflect,
                  (one_step "retrospective" "archived" archive, (no_step "archived", tt)),
                ),
              ),
            ),
          ),
        ),
      ),
    ),
  ),
)

pub require_next-PhaseStep :
    (from to : String)
    → to ≢ "delivery_readiness"
    → require_next from to ≡ ok tt
    → (to ≡ from) ⊎ PhaseStep from to
unfolding require_next
require_next-PhaseStep from to ne h = elim (Bool-cases (to == from)) [
  | inl e ↦ inl ((eq_iff to from).0 e)
  | inr e ↦ inr (by_row (next_phases from phase_transitions) refl (rw e at h))
]
  where
    by_row :
        (o : Option (List String))
        → next_phases from phase_transitions ≡ o
        → (elim o [
          | none ↦ err (key_error from)
          | some targets ↦ guard (contains targets to) (illegal_transition from to)
        ])
          ≡ ok tt
        → PhaseStep from to
    by_row none e q = cc
    by_row (some targets) e q =
        All-In StepsOf phase_transitions All-steps (next_phases-In from phase_transitions e) to
          (guard_test _ _ q) ne
