-- ===== src/Phases/Keeps.antt =====
-- Operations on phases and cycles keep the projects and cycles in order.
use kafa.Base.{
  String, ◌≡◌, ◌≢◌, refl, sym, ap, ◌∙◌, subst, false, none, some, List, [], ◌∷◌, ◌==◌, ◌⊎◌, inl,
  inr, eq_iff, Bool-cases,
}
use kafa.Base.Members.{In, first, In-cons, any-false}
use kafa.Ledger.{
  Db, ProjectRow, CycleRow, is_active, Stamps, Result, ok, err, >>=-eq-ok, guard-eq-ok,
}
use kafa.Cycle.{current_cycle_row, require_active_cycle_for_mutation}
use kafa.Phases.Defs.{Evaluators}
use kafa.Phases.Commands.{
  PhaseCommand, transition_phase, cycle_start, cycle_close, in_phase, with_new_cycle,
  with_cycle_closed, new_cycle, body, perform, transaction, argument_check, operation,
}
use kafa.Phases.Performed.{
  Logged, Started, Closed, transition-Transitioned, readiness-Readied, start_cycle-Started,
  close-Closed, current-In,
}
use kafa.Phases.Orderly.{Orderly, IsOrderly, updated-Orderly}

Logged-IsOrderly : (db db' : Db) → Logged db db' → IsOrderly db → IsOrderly db'
Logged-IsOrderly db db' l o = rw l.result o

-- The invariant's project is the one that an operation found.
at_project : (db : Db) (p : ProjectRow) → db.project ≡ some p → IsOrderly db → Orderly p db.cycles
at_project db p e (q, f, o) = subst (λ x. Orderly x db.cycles) (cc (e, f)) o

in_phase-IsOrderly :
    (stamps : Stamps) (phase status owner : String) (db : Db) (p : ProjectRow) (c : CycleRow)
    → db.project ≡ some p
    → current_cycle_row db ≡ ok c
    → IsOrderly db
    → IsOrderly (in_phase stamps phase status owner p c db)
in_phase-IsOrderly stamps phase status owner db p c found current o = (
  _,
  refl,
  updated-Orderly p _ db.cycles c.id _ (at_project db p found o) (current-In db found current).1
      refl (λ d. refl) (λ d. refl),
)

Started-IsOrderly : (id : String) (db db' : Db) → Started id db db' → IsOrderly db → IsOrderly db'
Started-IsOrderly id db db' s o =
    Logged-IsOrderly (with_new_cycle s.stamps id s.name s.goal s.base_ref s.project db) db' s.logged
      (_, refl, started (at_project db s.project s.found o))
  where
    created : CycleRow
    created = new_cycle s.stamps id s.name s.goal s.base_ref

    is_new : (c : CycleRow) → In c db.cycles → c.id ≢ id
    is_new c m e =
        cc (any-false (λ (x : CycleRow). x.id == id) db.cycles s.fresh m, (eq_iff c.id id).1 e)

    unique :
        Orderly s.project db.cycles
        → (c d : CycleRow) → (c ≡ new_cycle s.stamps id s.name s.goal s.base_ref) ⊎ In c db.cycles
        → (d ≡ new_cycle s.stamps id s.name s.goal s.base_ref) ⊎ In d db.cycles
        → c.id ≡ d.id
        → c ≡ d
    unique old c d (inl a) (inl b) e = a ∙ sym b
    unique old c d (inl a) (inr n) e = absurd (is_new d n (sym e ∙ ap (λ (x : CycleRow). x.id) a))
    unique old c d (inr m) (inl b) e = absurd (is_new c m (e ∙ ap (λ (x : CycleRow). x.id) b))
    unique old c d (inr m) (inr n) e = old.unique c d m n e

    closed :
        Orderly s.project db.cycles
        → (c : CycleRow) → (c ≡ new_cycle s.stamps id s.name s.goal s.base_ref) ⊎ In c db.cycles
        → c.id ≢ id
        → is_active c.status ≡ false
    closed old c (inl a) ne = absurd (ne (ap (λ (x : CycleRow). x.id) a))
    closed old c (inr m) ne = elim (Bool-cases (c.id == s.project.current_cycle_id)) [
      | inl t ↦
          let (cycle_in, cycle_id) = current-In db s.found s.current in
          let q = old.unique c s.cycle m cycle_in ((eq_iff _ _).0 t ∙ sym cycle_id) in
          ap (λ (x : CycleRow). is_active x.status) q ∙ s.closed
      | inr t ↦ old.others_closed c m (λ q. cc (t, (eq_iff c.id s.project.current_cycle_id).1 q))
    ]

    started :
        Orderly s.project db.cycles
        → Orderly
            (elim (with_new_cycle s.stamps id s.name s.goal s.base_ref s.project db).project [
              | none ↦ s.project
              | some p ↦ p
            ])
            (new_cycle s.stamps id s.name s.goal s.base_ref ∷ db.cycles)
    started old = record {
      unique = λ c d m n e. unique old c d (In-cons m) (In-cons n) e;
      current = new_cycle s.stamps id s.name s.goal s.base_ref;
      current_in = first;
      current_id = refl;
      same_phase = refl;
      others_closed = λ c m ne. closed old c (In-cons m) ne;
    }

Closed-IsOrderly : (ev : Evaluators) (db db' : Db) → Closed ev db db' → IsOrderly db → IsOrderly db'
Closed-IsOrderly ev db db' c o =
    Logged-IsOrderly (with_cycle_closed ev c.stamps c.project c.cycle db) db' c.logged (
      _,
      refl,
      updated-Orderly c.project _ db.cycles c.cycle.id _ (at_project db c.project c.found o)
          (current-In db c.found c.current).1 refl (λ d. refl) (λ d. refl),
    )

body-IsOrderly :
    (ev : Evaluators) (stamps : Stamps) (command : PhaseCommand) (db : Db) {db' : Db}
    → body ev stamps command db ≡ ok db'
    → IsOrderly db
    → IsOrderly db'
body-IsOrderly ev stamps (transition_phase phase status owner) db {db'} h o =
    elim (Bool-cases (phase == "delivery_readiness")) [
      | inl e ↦
          let r = readiness-Readied ev stamps db (rw e at h) in
          Logged-IsOrderly _ db' r.logged (
            in_phase-IsOrderly r.stamps "delivery_readiness" "ready-for-delivery" "" db r.project
              r.cycle r.found r.current o)
      | inr e ↦
          let t = transition-Transitioned ev stamps phase status owner db (rw e at h) in
          Logged-IsOrderly _ db' t.logged (
            in_phase-IsOrderly t.stamps phase t.status t.owner db t.project t.cycle t.found
              t.current o)
    ]
body-IsOrderly ev stamps (cycle_start id name goal base_ref) db {db'} h o =
    Started-IsOrderly id db db' (start_cycle-Started stamps id name goal base_ref db h) o
body-IsOrderly ev stamps (cycle_close status) db {db'} h o =
    Closed-IsOrderly ev db db' (close-Closed ev stamps db h) o

-- What a command that succeeds has passed.
pub perform-eq-ok :
    (ev : Evaluators) (stamps : Stamps) (command : PhaseCommand) (db : Db) {db' : Db}
    → perform ev stamps command db ≡ ok db'
    → (require_active_cycle_for_mutation (operation command) db ≡ ok tt)
      × (argument_check command ≡ ok tt)
      × (body ev stamps command db ≡ ok db')
unfolding perform transaction
perform-eq-ok ev stamps command db h =
    let (_, allowed, h₁) =
      >>=-eq-ok (require_active_cycle_for_mutation (operation command) db) _ h in
    let (_, arguments, h₂) = >>=-eq-ok (argument_check command) _ h₁ in
    let (d, done, h₃) = >>=-eq-ok (body ev stamps command db) _ h₂ in
    let (_, e) = guard-eq-ok _ _ _ h₃ in (allowed, arguments, done ∙ e)

abbrev pub or_same : Db → Result Db → Db
or_same db (ok db') = db'
or_same db (err _) = db

-- A failed operation leaves the tables as they were.
unfoldable pub perform_all : Evaluators → List (Stamps × PhaseCommand) → Db → Db
perform_all ev [] db = db
perform_all ev ((stamps, command) ∷ rest) db =
    perform_all ev rest (or_same db (perform ev stamps command db))

or_same-IsOrderly :
    (db : Db) (r : Result Db)
    → ((d : Db) → r ≡ ok d → IsOrderly d)
    → IsOrderly db
    → IsOrderly (or_same db r)
or_same-IsOrderly db (ok d) h o = h d refl
or_same-IsOrderly db (err e) h o = o

-- Whatever operations on phases and cycles are run, successful or not, projects and cycles in order
-- stay in order: cycle ids are unique, the project's cycle exists and its phase is the project's, and
-- no other cycle is active, so that there is never a second active cycle.
pub perform_all-IsOrderly :
    (ev : Evaluators) (history : List (Stamps × PhaseCommand)) (db : Db)
    → IsOrderly db
    → IsOrderly (perform_all ev history db)
unfolding perform_all
perform_all-IsOrderly ev [] db o = o
perform_all-IsOrderly ev ((stamps, command) ∷ rest) db o =
    perform_all-IsOrderly ev rest (or_same db (perform ev stamps command db)) (
      or_same-IsOrderly db (perform ev stamps command db)
        (λ d h.
          let (_, _, done) = perform-eq-ok ev stamps command db h in
          body-IsOrderly ev stamps command db done o)
        o)
