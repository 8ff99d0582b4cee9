-- ===== src/Scheduler/Search.antt =====
-- The search for a dependency cycle decides reachability, and its fuel is enough.
use kafa.Base.{
  ℕ, zero, suc, String, ◌≡◌, refl, true, false, ◌||◌, List, [], ◌∷◌, ◌++◌, reverse, inl, inr, ◌==◌,
  eq_iff, eq_refl, arith, Bool-cases,
}
use kafa.Base.Sets.{contains, contains-append, contains-reverse}
use kafa.Ledger.{DependencyRow, ok, err, dependency_cycle}
use kafa.Scheduler.{depends_on, search_stack}
use kafa.Scheduler.Reach.{Edge, Reach, next}

module _ (rows : List DependencyRow) (cycle_id task_id : String) where
  -- Every element of `xs` is reached from `start`.
  abbrev pub AllReached : String → List String → Type 0
  AllReached start xs = (x : String) → contains xs x ≡ true → Reach rows cycle_id start x

  push_reached :
      (start current : String) (stack : List String)
      → AllReached start (current ∷ stack)
      → AllReached start (reverse (depends_on rows cycle_id current) ++ stack)
  unfolding contains
  push_reached start current stack h x m =
      elim (Bool-cases (contains (depends_on rows cycle_id current) x)) [
        | inl e ↦ next (h current (rw (eq_refl current) refl)) e
        | inr e ↦ h x (
            ground (
              arith,
              contains-append (reverse (depends_on rows cycle_id current)) stack x,
              contains-reverse (depends_on rows cycle_id current) x,
            ))
      ]

  tail_reached :
      (start current : String) (stack : List String)
      → AllReached start (current ∷ stack)
      → AllReached start stack
  unfolding contains
  tail_reached start current stack h x m = h x (ground arith)

  head_reached :
      (start current : String) (stack : List String)
      → AllReached start (current ∷ stack)
      → Reach rows cycle_id start current
  unfolding contains
  head_reached start current stack h = h current (rw (eq_refl current) refl)

  -- A refusal names a task that the start does depend on.
  pub search_sound :
      (fuel : ℕ) (start : String) (seen stack : List String)
      → AllReached start stack
      → search_stack rows cycle_id task_id fuel seen stack ≡ err (dependency_cycle task_id)
      → Reach rows cycle_id start task_id
  unfolding search_stack
  search_sound fuel start seen [] h e = ground arith
  search_sound zero start seen (current ∷ stack) h e = ground arith
  search_sound (suc fuel) start seen (current ∷ stack) h e =
      elim (Bool-cases (current == task_id)) [
        | inl found ↦ rw ((eq_iff current task_id).0 found) at (head_reached start current stack h)
        | inr other ↦ elim (Bool-cases (contains seen current)) [
          | inl old ↦
              search_sound fuel start seen stack (tail_reached start current stack h)
                (rw (other, old) at e)
          | inr new ↦
              search_sound fuel start (current ∷ seen)
                (reverse (depends_on rows cycle_id current) ++ stack)
                (push_reached start current stack h) (rw (other, new) at e)
        ]
      ]

  -- What a visit has pushed: every row of a visited task leads to a visited or a waiting one.
  abbrev pub IsExplored : List String → List String → Type 0
  IsExplored seen stack =
      (x y : String)
      → contains seen x ≡ true
      → Edge rows cycle_id x y
      → (contains seen y || contains stack y) ≡ true

  skip-IsExplored :
      (seen : List String) (current : String) (stack : List String)
      → contains seen current ≡ true
      → IsExplored seen (current ∷ stack)
      → IsExplored seen stack
  unfolding contains
  skip-IsExplored seen current stack old h x y m e = ground (arith, h x y m e, eq_iff current y)

  visit-IsExplored :
      (seen : List String) (current : String) (stack : List String)
      → IsExplored seen (current ∷ stack)
      → IsExplored (current ∷ seen) (reverse (depends_on rows cycle_id current) ++ stack)
  unfolding contains
  visit-IsExplored seen current stack h x y m e =
      rw
        (
          contains-append (reverse (depends_on rows cycle_id current)) stack y,
          contains-reverse (depends_on rows cycle_id current) y,
        )
        (ground (arith, h x y, eq_iff current x, e))

  -- A set without `task_id` that holds all that was visited or waits, and all that they depend on.
  pub record Closure (seen stack : List String) : Type 0 where
    pub final : List String
    pub closed :
        (x y : String) → contains final x ≡ true → Edge rows cycle_id x y → contains final y ≡ true
    pub holds :
        (x : String) → (contains seen x || contains stack x) ≡ true → contains final x ≡ true
    pub avoids : contains final task_id ≡ false

  pub search-Closure :
      (fuel : ℕ) (seen stack : List String)
      → IsExplored seen stack
      → contains seen task_id ≡ false
      → search_stack rows cycle_id task_id fuel seen stack ≡ ok tt
      → Closure seen stack
  unfolding search_stack contains
  search-Closure fuel seen [] h new e = record {
    final = seen;
    closed = λ x y m d. ground (arith, h x y m d);
    holds = λ x m. ground arith;
    avoids = new;
  }
  search-Closure zero seen (current ∷ stack) h new e = ground arith
  search-Closure (suc fuel) seen (current ∷ stack) h new e =
      elim (Bool-cases (current == task_id)) [
        | inl found ↦ absurd (cc (rw found at e))
        | inr other ↦ elim (Bool-cases (contains seen current)) [
          | inl old ↦
              let c =
                search-Closure fuel seen stack (skip-IsExplored seen current stack old h) new
                  (rw (other, old) at e) in
              record {
                final = c.final;
                closed = c.closed;
                holds = λ x m. c.holds x (ground (arith, eq_iff current x));
                avoids = c.avoids;
              }
          | inr fresh ↦
              let c =
                search-Closure fuel (current ∷ seen)
                  (reverse (depends_on rows cycle_id current) ++ stack)
                  (visit-IsExplored seen current stack h) (rw other new) (rw (other, fresh) at e) in
              record {
                final = c.final;
                closed = c.closed;
                holds = λ x m. c.holds x (
                    rw (contains-append (reverse (depends_on rows cycle_id current)) stack x)
                      (ground arith));
                avoids = c.avoids;
              }
        ]
      ]
