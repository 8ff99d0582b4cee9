-- ===== src/Scheduler/Blockers.antt =====
-- When a task may start: the blockers are exactly the awaited tasks that are not accepted.
use kafa.Base.{
  String, ◌≡◌, refl, ap, true, ◌&&◌, List, [], ◌∷◌, map, ◌==◌, eq_iff, eq_refl, arith, ◌↔◌,
  Bool-cases, is_empty-eq_true, inl, inr,
}
use kafa.Base.Sets.{contains, contains-sorted}
use kafa.Base.Members.{In, first, later, In-select, In-map, not-In-nil, select-nil, append-eq-nil}
use kafa.Ledger.{TaskRow, DependencyRow, is_accepted, is_planned, ok, guard-eq-ok, guard_test}
use kafa.Scheduler.{depends_on, unaccepted, blockers_of, dependency_blockers, require_task_runnable}

abbrev pub Matches : TaskRow → DependencyRow → TaskRow → Type 0
Matches row d u =
    (d.cycle_id ≡ row.cycle_id)
    × (d.task_id ≡ row.id)
    × (u.cycle_id ≡ row.cycle_id)
    × (u.id ≡ d.depends_on)

-- Every task that `row` waits for is accepted.
abbrev pub AllAccepted : List TaskRow → List DependencyRow → TaskRow → Type 0
AllAccepted tasks rows row =
    (d : DependencyRow) (u : TaskRow)
    → In d rows
    → In u tasks
    → Matches row d u
    → is_accepted u.status ≡ true

depends_on-In :
    (rows : List DependencyRow) (cycle_id task_id : String) {d : DependencyRow}
    → In d rows
    → d.cycle_id ≡ cycle_id
    → d.task_id ≡ task_id
    → contains (depends_on rows cycle_id task_id) d.depends_on ≡ true
unfolding depends_on contains
depends_on-In [] cycle_id task_id m c t = elim m [ ]
depends_on-In (d ∷ rows) cycle_id task_id first c t =
    rw ((eq_iff d.cycle_id cycle_id).1 c, (eq_iff d.task_id task_id).1 t, eq_refl d.depends_on) refl
depends_on-In (r ∷ rows) cycle_id task_id (later m) c t =
    ground (arith, depends_on-In rows cycle_id task_id m c t)

In-depends_on :
    (rows : List DependencyRow) (cycle_id task_id x : String)
    → contains (depends_on rows cycle_id task_id) x ≡ true
    → (d : DependencyRow) × In d rows
      × (d.cycle_id ≡ cycle_id)
      × (d.task_id ≡ task_id)
      × (d.depends_on ≡ x)
unfolding depends_on contains
In-depends_on [] cycle_id task_id x h = cc
In-depends_on (r ∷ rows) cycle_id task_id x h =
    elim (Bool-cases (r.cycle_id == cycle_id && r.task_id == task_id && r.depends_on == x)) [
      | inl e ↦ (
        r,
        first,
        ground (arith, eq_iff r.cycle_id cycle_id),
        ground (arith, eq_iff r.task_id task_id),
        ground (arith, eq_iff r.depends_on x),
      )
      | inr e ↦
          let (d, m, c, t, q) = In-depends_on rows cycle_id task_id x (ground arith) in
          (d, later m, c, t, q)
    ]

unaccepted-nil :
    (tasks : List TaskRow) (cycle_id id : String) {u : TaskRow}
    → unaccepted tasks cycle_id id ≡ []
    → In u tasks
    → u.cycle_id ≡ cycle_id
    → u.id ≡ id
    → is_accepted u.status ≡ true
unfolding unaccepted
unaccepted-nil tasks cycle_id id {u} h m c i = elim (Bool-cases (is_accepted u.status)) [
  | inl e ↦ e
  | inr e ↦ absurd (
      not-In-nil _ h (
        In-map _ _ (
          In-select _ tasks m
            (rw ((eq_iff u.cycle_id cycle_id).1 c, (eq_iff u.id id).1 i, e) refl))))
]

nil-unaccepted :
    (tasks : List TaskRow) (cycle_id id : String)
    → ((u : TaskRow) → In u tasks → u.cycle_id ≡ cycle_id → u.id ≡ id → is_accepted u.status ≡ true)
    → unaccepted tasks cycle_id id ≡ []
unfolding unaccepted
nil-unaccepted tasks cycle_id id h =
    ap (map _) (
      select-nil _ tasks (λ u m. ground (arith, h u m, eq_iff u.cycle_id cycle_id, eq_iff u.id id)))

blockers_of-nil :
    (tasks : List TaskRow) (cycle_id : String) (ids : List String) (id : String)
    → blockers_of tasks cycle_id ids ≡ []
    → contains ids id ≡ true
    → unaccepted tasks cycle_id id ≡ []
unfolding blockers_of contains
blockers_of-nil tasks cycle_id [] id h m = cc
blockers_of-nil tasks cycle_id (x ∷ xs) id h m =
    let (here, rest) =
      append-eq-nil (unaccepted tasks cycle_id x) (blockers_of tasks cycle_id xs) h in
    elim (Bool-cases (x == id)) [
      | inl e ↦ rw ((eq_iff x id).0 e) at here
      | inr e ↦ blockers_of-nil tasks cycle_id xs id rest (rw e at m)
    ]

nil-blockers_of :
    (tasks : List TaskRow) (cycle_id : String) (ids : List String)
    → ((id : String) → contains ids id ≡ true → unaccepted tasks cycle_id id ≡ [])
    → blockers_of tasks cycle_id ids ≡ []
unfolding blockers_of contains
nil-blockers_of tasks cycle_id [] h = refl
nil-blockers_of tasks cycle_id (x ∷ xs) h =
    rw (h x (rw (eq_refl x) refl), nil-blockers_of tasks cycle_id xs (λ id m. h id (ground arith)))

-- The blockers of a task are none exactly if every task that it waits for is accepted.
pub dependency_blockers-nil_iff :
    (tasks : List TaskRow) (rows : List DependencyRow) (row : TaskRow)
    → (dependency_blockers tasks rows row.cycle_id row.id ≡ []) ↔ AllAccepted tasks rows row
unfolding dependency_blockers
dependency_blockers-nil_iff tasks rows row = (
  λ none d u dm um (dc, dt, uc, ui).
      unaccepted-nil tasks row.cycle_id d.depends_on
        (blockers_of-nil tasks row.cycle_id _ d.depends_on none
          (rw contains-sorted (depends_on-In rows row.cycle_id row.id dm dc dt)))
        um uc ui,
  λ all. nil-blockers_of tasks row.cycle_id _ (λ id m.
      let (d, dm, dc, dt, q) =
        In-depends_on rows row.cycle_id row.id id (rw contains-sorted at m) in
      nil-unaccepted tasks row.cycle_id id (λ u um uc ui. all d u dm um (dc, dt, uc, cc))),
)

-- A task may start exactly if it is planned and every task that it waits for, in its cycle, is
-- accepted.
pub require_task_runnable_iff :
    (tasks : List TaskRow) (rows : List DependencyRow) (row : TaskRow)
    → (require_task_runnable tasks rows row ≡ ok tt)
      ↔ ((is_planned row.status ≡ true) × AllAccepted tasks rows row)
unfolding require_task_runnable
require_task_runnable_iff tasks rows row = (
  λ h.
      let (s, h₁) = guard-eq-ok _ _ _ h in
      (s, (dependency_blockers-nil_iff tasks rows row).0 (is_empty-eq_true _ (guard_test _ _ h₁))),
  λ (s, all). rw (s, (dependency_blockers-nil_iff tasks rows row).1 all) refl,
)
