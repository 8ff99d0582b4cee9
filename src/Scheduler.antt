-- ===== src/Scheduler.antt =====
-- core/scheduler.py: the blockers of a task, the search for a dependency cycle, and the test that
-- a task may start.
pub mod Reach
pub mod Search
pub mod Decides
pub mod Acyclic
pub mod Blockers
use kafa.Base.{
  ℕ, zero, suc, ◌+◌, String, Bool, true, false, not, ◌&&◌, List, [], ◌∷◌, ◌++◌, map, reverse, ◌==◌,
  if◌then◌else◌, length, select, is_empty,
}
use kafa.Base.Sets.{contains, sorted}
use kafa.Ledger.{
  TaskRow, TaskStatus, DependencyRow, is_accepted, is_planned, Error, Result, ok, err, guard, ◌>>=◌,
  ◌>>◌, dependencies_not_accepted, dependency_cycle, not_runnable, out_of_fuel,
}

-- `select depends_on from task_dependencies where cycle_id = ? and task_id = ?`
unfoldable pub depends_on : List DependencyRow → String → String → List String
depends_on rows cycle_id task_id =
    map (λ d. d.depends_on) (select (λ d. d.cycle_id == cycle_id && d.task_id == task_id) rows)

-- the join of a dependency row with the tasks that are not accepted
unaccepted : List TaskRow → String → String → List (String × TaskStatus)
unaccepted tasks cycle_id id =
    map (λ t. (id, t.status))
      (select (λ t. t.cycle_id == cycle_id && t.id == id && not (is_accepted t.status)) tasks)

blockers_of : List TaskRow → String → List String → List (String × TaskStatus)
blockers_of tasks cycle_id [] = []
blockers_of tasks cycle_id (d ∷ ds) = unaccepted tasks cycle_id d ++ blockers_of tasks cycle_id ds

unfoldable pub dependency_blockers :
    List TaskRow → List DependencyRow → String → String → List (String × TaskStatus)
unfolding unaccepted blockers_of depends_on
dependency_blockers tasks rows cycle_id task_id =
    blockers_of tasks cycle_id (sorted (depends_on rows cycle_id task_id))

-- The loop of `assert_no_dependency_cycle`: `stack` has the element that `pop` takes at its head,
-- so `extend` puts the rows there in reverse.
pub search_stack :
    List DependencyRow → String → String → ℕ → (seen stack : List String) → Result (Unit {0})
search_stack rows cycle_id task_id fuel seen [] = ok tt
search_stack rows cycle_id task_id zero seen (current ∷ stack) = err out_of_fuel
search_stack rows cycle_id task_id (suc fuel) seen (current ∷ stack) =
    let skip = search_stack rows cycle_id task_id fuel seen stack in
    let visit =
      search_stack rows cycle_id task_id fuel (current ∷ seen)
        (reverse (depends_on rows cycle_id current) ++ stack) in
    if current == task_id
    then err (dependency_cycle task_id)
    else if contains seen current
    then skip
    else visit

-- Each round pops one element; the first visit of a task pushes its rows once.
unfoldable pub assert_no_dependency_cycle :
    List DependencyRow → String → String → String → Result (Unit {0})
unfolding search_stack
assert_no_dependency_cycle rows cycle_id task_id target =
    search_stack rows cycle_id task_id (length rows + 1) [] (target ∷ [])

unfoldable pub require_task_runnable :
    List TaskRow → List DependencyRow → TaskRow → Result (Unit {0})
require_task_runnable tasks rows row = do
  guard (is_planned row.status) (not_runnable row.id row.status)
  let blockers = dependency_blockers tasks rows row.cycle_id row.id
  guard (is_empty blockers) (dependencies_not_accepted row.id blockers)
