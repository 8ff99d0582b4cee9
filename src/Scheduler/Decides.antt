-- ===== src/Scheduler/Decides.antt =====
-- The dependency check has fuel enough, and so decides whether a task is depended on.
use kafa.Base.{
  ℕ, zero, suc, ◌+◌, ◌≤◌, String, ◌≡◌, refl, true, false, not, ◌&&◌, List, [], ◌∷◌, ◌++◌, reverse,
  ◌⊎◌, inl, inr, ◌==◌, eq_iff, eq_refl, arith, if◌then◌else◌, length, Bool-cases, length-append,
  length-reverse,
}
use kafa.Base.Sets.{contains}
use kafa.Ledger.{DependencyRow, ok, err, dependency_cycle}
use kafa.Scheduler.{depends_on, search_stack, assert_no_dependency_cycle}
use kafa.Scheduler.Reach.{Reach, here, next, Reach-of_eq}
use kafa.Scheduler.Search.{search_sound, search-Closure, Closure}

-- How many rows of the cycle start at a task that was not visited.
unfoldable pub unvisited : String → List String → List DependencyRow → ℕ
unvisited cycle_id seen [] = 0
unvisited cycle_id seen (d ∷ ds) =
    let rest = unvisited cycle_id seen ds in
    if d.cycle_id == cycle_id && not (contains seen d.task_id) then suc rest else rest

pub unvisited-cons :
    (rows : List DependencyRow) (cycle_id : String) (seen : List String) (current : String)
    → contains seen current ≡ false
    → unvisited cycle_id (current ∷ seen) rows + length (depends_on rows cycle_id current)
      ≡ unvisited cycle_id seen rows
unfolding unvisited depends_on contains
unvisited-cons [] cycle_id seen current new = refl
unvisited-cons (d ∷ ds) cycle_id seen current new = ground (
  arith,
  unvisited-cons ds cycle_id seen current new,
  eq_iff current d.task_id,
  eq_iff d.task_id current,
)

pub unvisited-le :
    (rows : List DependencyRow) (cycle_id : String) → unvisited cycle_id [] rows ≤ length rows
unfolding unvisited
unvisited-le [] cycle_id = omega arith
unvisited-le (d ∷ ds) cycle_id = ground (arith, unvisited-le ds cycle_id)

module _ (rows : List DependencyRow) (cycle_id task_id : String) where
  pub length-push :
      (current : String) (stack : List String)
      → length (reverse (depends_on rows cycle_id current) ++ stack)
        ≡ length (depends_on rows cycle_id current) + length stack
  length-push current stack = omega (
    arith,
    length-append (reverse (depends_on rows cycle_id current)) stack,
    length-reverse (depends_on rows cycle_id current),
  )

  search_ends :
      (fuel : ℕ) (seen stack : List String)
      → length stack + unvisited cycle_id seen rows ≤ fuel
      → (search_stack rows cycle_id task_id fuel seen stack ≡ ok tt)
        ⊎ (search_stack rows cycle_id task_id fuel seen stack ≡ err (dependency_cycle task_id))
  unfolding search_stack
  search_ends fuel seen [] h = inl refl
  search_ends zero seen (current ∷ stack) h = absurd (omega arith)
  search_ends (suc fuel) seen (current ∷ stack) h = elim (Bool-cases (current == task_id)) [
    | inl found ↦ rw found (inr refl)
    | inr other ↦ elim (Bool-cases (contains seen current)) [
      | inl old ↦ rw (other, old) (search_ends fuel seen stack (omega arith))
      | inr new ↦
          rw (other, new)
            (search_ends fuel (current ∷ seen) (reverse (depends_on rows cycle_id current) ++ stack)
              (omega
                (arith, length-push current stack, unvisited-cons rows cycle_id seen current new)))
    ]
  ]

  -- Whatever the stack that is closed off, a set that holds the start holds all that it reaches.
  Reach-closed :
      {a b : String} (seen stack : List String) (c : Closure rows cycle_id task_id seen stack)
      → contains c.final a ≡ true
      → Reach rows cycle_id a b
      → contains c.final b ≡ true
  Reach-closed seen stack c m here = m
  Reach-closed seen stack c m (next {b} {d} r e) = c.closed b d (Reach-closed seen stack c m r) e

  pub clear_sound :
      (target : String)
      → assert_no_dependency_cycle rows cycle_id task_id target ≡ ok tt
      → ¬ Reach rows cycle_id target task_id
  unfolding assert_no_dependency_cycle contains
  clear_sound target e r =
      let c =
        search-Closure rows cycle_id task_id (length rows + 1) [] (target ∷ []) (λ x y m _. cc) refl
          e in
      cc (c.avoids, Reach-closed [] (target ∷ []) c (c.holds target (rw (eq_refl target) refl)) r)

  cycle_sound :
      (target : String)
      → assert_no_dependency_cycle rows cycle_id task_id target ≡ err (dependency_cycle task_id)
      → Reach rows cycle_id target task_id
  unfolding assert_no_dependency_cycle contains
  cycle_sound target e =
      search_sound rows cycle_id task_id (length rows + 1) target [] (target ∷ [])
        (λ x m. Reach-of_eq target x (ground arith)) e

  pub check_ends :
      (target : String)
      → (assert_no_dependency_cycle rows cycle_id task_id target ≡ ok tt)
        ⊎ (assert_no_dependency_cycle rows cycle_id task_id target ≡ err (dependency_cycle task_id))
  unfolding assert_no_dependency_cycle
  check_ends target =
      search_ends (length rows + 1) [] (target ∷ []) (omega (arith, unvisited-le rows cycle_id))

-- The dependency check returns on every input, with no fuel spent out: it passes exactly if the
-- target does not depend, through any chain of the cycle's rows, on the task (nor is the task), and
-- otherwise it raises the cycle error for the task.
pub assert_no_dependency_cycle_decides :
    (rows : List DependencyRow) (cycle_id task_id target : String)
    → (assert_no_dependency_cycle rows cycle_id task_id target ≡ ok tt)
        × (¬ Reach rows cycle_id target task_id)
      ⊎ (assert_no_dependency_cycle rows cycle_id task_id target ≡ err (dependency_cycle task_id))
        × Reach rows cycle_id target task_id
assert_no_dependency_cycle_decides rows cycle_id task_id target =
    elim (check_ends rows cycle_id task_id target) [
      | inl e ↦ inl (e, clear_sound rows cycle_id task_id target e)
      | inr e ↦ inr (e, cycle_sound rows cycle_id task_id target e)
    ]
