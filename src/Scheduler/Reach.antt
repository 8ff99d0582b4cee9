-- ===== src/Scheduler/Reach.antt =====
-- What it means that one task depends on another through the rows of a cycle.
use kafa.Base.{String, ◌≡◌, true, List, ◌∷◌, ◌==◌, eq_iff, arith, ◌&&◌, ◌||◌}
use kafa.Base.Sets.{contains}
use kafa.Ledger.{DependencyRow}
use kafa.Scheduler.{depends_on}

-- Task `a` has a row that names `b`.
abbrev pub Edge : List DependencyRow → String → String → String → Type 0
Edge rows cycle_id a b = contains (depends_on rows cycle_id a) b ≡ true

-- `b` is `a`, or `a` depends on it through some chain of rows.
pub data Reach (rows : List DependencyRow) (cycle_id a : String) : String → Type 0 where
  here : Reach rows cycle_id a a
  next : {b d : String} → Reach rows cycle_id a b → Edge rows cycle_id b d → Reach rows cycle_id a d

-- No task depends on itself.
abbrev pub IsAcyclic : List DependencyRow → String → Type 0
IsAcyclic rows cycle_id = (a b : String) → Edge rows cycle_id a b → ¬ Reach rows cycle_id b a

module _ {rows : List DependencyRow} {cycle_id : String} where
  pub Reach-trans :
      {a b d : String} → Reach rows cycle_id a b → Reach rows cycle_id b d → Reach rows cycle_id a d
  Reach-trans r here = r
  Reach-trans r (next s e) = next (Reach-trans r s) e

  pub Reach-of_eq : (a b : String) → (a == b) ≡ true → Reach rows cycle_id a b
  Reach-of_eq a b e = rw ((eq_iff a b).0 e) here

-- A row adds one edge, in its own cycle only.
pub contains-depends_on-cons :
    (row : DependencyRow) (rows : List DependencyRow) (cycle_id a b : String)
    → contains (depends_on (row ∷ rows) cycle_id a) b ≡ (
        (row.cycle_id == cycle_id && row.task_id == a && row.depends_on == b)
        || contains (depends_on rows cycle_id a) b)
unfolding depends_on contains
contains-depends_on-cons row rows cycle_id a b = ground arith
