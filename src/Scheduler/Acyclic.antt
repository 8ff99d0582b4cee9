-- ===== src/Scheduler/Acyclic.antt =====
-- A row that passed the dependency check keeps the dependencies of its cycle free of cycles.
use kafa.Base.{String, ◌≡◌, List, ◌∷◌, ◌⊎◌, inl, inr, eq_iff, arith}
use kafa.Ledger.{DependencyRow}
use kafa.Scheduler.Reach.{Edge, Reach, here, next, IsAcyclic, Reach-trans, contains-depends_on-cons}

module _ (row : DependencyRow) (rows : List DependencyRow) (cycle_id : String) where
  -- An edge of the longer table is the row, or was there.
  Edge-cons :
      (a b : String)
      → Edge (row ∷ rows) cycle_id a b
      → (row.cycle_id ≡ cycle_id) × (row.task_id ≡ a) × (row.depends_on ≡ b)
        ⊎ Edge rows cycle_id a b
  Edge-cons a b e = ground (
    arith,
    e,
    contains-depends_on-cons row rows cycle_id a b,
    eq_iff row.cycle_id cycle_id,
    eq_iff row.task_id a,
    eq_iff row.depends_on b,
  )

  -- A chain of the longer table avoids the row, or runs up to it and on from it.
  Reach-cons :
      {a b : String}
      → Reach (row ∷ rows) cycle_id a b
      → Reach rows cycle_id a b
        ⊎ (row.cycle_id ≡ cycle_id)
          × Reach rows cycle_id a row.task_id
          × Reach rows cycle_id row.depends_on b
  Reach-cons here = inl here
  Reach-cons (next {b} {d} r e) = elim (Edge-cons b d e) [
    | inl (own, from, to) ↦ elim (Reach-cons r) [
      | inl s ↦ inr (own, rw from s, rw to here)
      | inr (_, s, _) ↦ inr (own, s, rw to here)
    ]
    | inr old ↦ elim (Reach-cons r) [
      | inl s ↦ inl (next s old)
      | inr (own, s, t) ↦ inr (own, s, next t old)
    ]
  ]

  pub IsAcyclic-cons :
      IsAcyclic rows cycle_id
      → (row.cycle_id ≡ cycle_id → ¬ Reach rows cycle_id row.depends_on row.task_id)
      → IsAcyclic (row ∷ rows) cycle_id
  IsAcyclic-cons h clear a b e r = elim (Edge-cons a b e) [
    | inl (own, from, to) ↦ elim (Reach-cons r) [
      | inl s ↦ clear own (rw (from, to) s)
      | inr (own', s, _) ↦ clear own (rw to s)
    ]
    | inr old ↦ elim (Reach-cons r) [
      | inl s ↦ h a b old s
      | inr (own, s, t) ↦ clear own (Reach-trans (next t old) s)
    ]
  ]
