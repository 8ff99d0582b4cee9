-- ===== src/Tasks/Runs.antt =====
-- What holds of every task operation that succeeds, and of any sequence of them.
use kafa.Base.{
  String, ◌≡◌, ◌≢◌, refl, sym, ap, subst, Bool, true, false, List, [], ◌∷◌, ◌==◌, ◌⊎◌, inl, inr,
  arith, eq_iff, Bool-cases, select, is_empty, ◌&&◌,
}
use kafa.Base.Members.{In, first, later}
use kafa.Ledger.{
  Db, TaskRow, TaskStatus, accepted, blocked, cancelled, is_accepted, Stamps, Result, ok, err,
  guard, invariant_failed, ◌>>=◌, ◌>>◌,
}
use kafa.Cycle.{require_active_cycle_for_mutation}
use kafa.Tasks.Defs.{
  task_scope_issues, accepted_issues, issues_of, transaction, non_empty, in_current_cycle,
}
use kafa.Tasks.Commands.{
  Command, add_task, execute, run, body, target_id, operation, argument_check, or_same,
}
use kafa.Tasks.Consistent.{IsConsistent}
use kafa.Tasks.Moves.{
  TaskStep, start, submit, accept, block_active, block_submitted, cancel_planned, cancel_active,
  cancel_submitted, Performed, body-Performed, IsNew, execute-eq-ok,
}
use kafa.Tasks.Rows.{In-update_row_kept, require_task-In}
use kafa.Tasks.ChangeKeeps.{Performed-IsConsistent}
use kafa.Tasks.CreateKeeps.{create_task-IsConsistent, create_task-In}

-- A body that succeeds keeps the tables consistent.
body-IsConsistent :
    (stamps : Stamps) (command : Command) (db : Db) {db' : Db}
    → argument_check command ≡ ok tt
    → body stamps command db ≡ ok db'
    → IsConsistent db
    → IsConsistent db'
body-IsConsistent stamps (add_task new) db a h c = create_task-IsConsistent stamps new db h c
body-IsConsistent stamps command db {db'} a h c =
    Performed-IsConsistent stamps command db db' c (body-Performed stamps command db (λ e. e) h)
      (λ e. e) a

execute-IsConsistent :
    (stamps : Stamps) (command : Command) (db : Db) {db' : Db}
    → execute stamps command db ≡ ok db'
    → IsConsistent db
    → IsConsistent db'
execute-IsConsistent stamps command db h c =
    let e = execute-eq-ok stamps command db h in
    body-IsConsistent stamps command db e.arguments e.done c

or_same_cases : (db : Db) (r : Result Db) → (r ≡ ok (or_same db r)) ⊎ (or_same db r ≡ db)
or_same_cases db (ok db') = inl refl
or_same_cases db (err e) = inr refl

-- Whatever task operations are run, successful or not, consistent tables stay consistent: rows stay
-- unique by `uid` and by id within a cycle, what a task depends on exists, the dependencies of each
-- cycle are free of cycles, a task that is active, submitted or accepted depends on accepted tasks
-- only, an accepted task has evidence and its actor, and the events are numbered with no gap.
pub run-IsConsistent :
    (history : List (Stamps × Command)) (db : Db) → IsConsistent db → IsConsistent (run history db)
unfolding run
run-IsConsistent [] db c = c
run-IsConsistent ((stamps, command) ∷ rest) db c =
    run-IsConsistent rest (or_same db (execute stamps command db))
      (elim (or_same_cases db (execute stamps command db)) [
        | inl e ↦ execute-IsConsistent stamps command db e c
        | inr e ↦ rw e c
      ])

abbrev pub is_final : TaskStatus → Bool
is_final accepted = true
is_final blocked = true
is_final cancelled = true
is_final _ = false

no_step_from_final : {s s' : TaskStatus} → TaskStep s s' → is_final s ≡ true → ⊥
no_step_from_final start h = cc
no_step_from_final submit h = cc
no_step_from_final accept h = cc
no_step_from_final block_active h = cc
no_step_from_final block_submitted h = cc
no_step_from_final cancel_planned h = cc
no_step_from_final cancel_active h = cc
no_step_from_final cancel_submitted h = cc

Performed-final :
    (stamps : Stamps) (command : Command) (db db' : Db) (t : TaskRow)
    → Performed stamps command db db'
    → IsConsistent db
    → In t db.tasks
    → is_final t.status ≡ true
    → In t db'.tasks
Performed-final stamps command db db' t p c m f = rw p.changed.result (
    In-update_row_kept p.row.uid _ db.tasks m (λ e.
      let q = c.unique_uid t p.row m (require_task-In db (target_id command) p.found).0 e in
      no_step_from_final p.step (rw (ap (λ (x : TaskRow). x.status) q) at f)))

execute-final :
    (stamps : Stamps) (command : Command) (db : Db) {db' : Db} (t : TaskRow)
    → body stamps command db ≡ ok db'
    → IsConsistent db
    → In t db.tasks
    → is_final t.status ≡ true
    → In t db'.tasks
execute-final stamps (add_task new) db t h c m f = create_task-In stamps new db t h m
execute-final stamps command db {db'} t h c m f =
    Performed-final stamps command db db' t (body-Performed stamps command db (λ e. e) h) c m f

-- In consistent tables the row of an accepted, blocked or cancelled task is never changed or taken
-- away again, whatever task operations are run.
pub run-final :
    (history : List (Stamps × Command)) (db : Db) (t : TaskRow)
    → IsConsistent db
    → In t db.tasks
    → is_final t.status ≡ true
    → In t (run history db).tasks
unfolding run
run-final [] db t c m f = m
run-final ((stamps, command) ∷ rest) db t c m f =
    elim (or_same_cases db (execute stamps command db)) [
      | inl e ↦
          let d = execute-eq-ok stamps command db e in
          run-final rest (or_same db (execute stamps command db)) t
            (execute-IsConsistent stamps command db e c)
            (execute-final stamps command db t d.done c m f) f
      | inr e ↦ subst (λ x. In t (run rest x).tasks) (sym e) (run-final rest db t c m f)
    ]

text_non_empty : (s : String) → s ≢ "" → non_empty s ≡ true
text_non_empty s h = elim (Bool-cases (s == "")) [
  | inl e ↦ absurd (h ((eq_iff s "").0 e))
  | inr e ↦ rw e refl
]

signed_issues :
    (db : Db) (t : TaskRow)
    → (t.evidence ≢ "") × (t.accepted_by ≡ "root-controller")
    → accepted_issues db t ≡ []
unfolding accepted_issues
signed_issues db t (e, a) = rw (text_non_empty t.evidence e, ap non_empty a) refl

issues_of-nil :
    (db : Db) (p : TaskRow → Bool) (ts : List TaskRow)
    → ((t : TaskRow) → In t ts → p t ≡ true → accepted_issues db t ≡ [])
    → issues_of db (select p ts) ≡ []
unfolding issues_of
issues_of-nil db p [] h = refl
issues_of-nil db p (t ∷ ts) h = elim (Bool-cases (p t)) [
  | inl e ↦ rw (e, h t first e) (issues_of-nil db p ts (λ u m q. h u (later m) q))
  | inr e ↦ rw e (issues_of-nil db p ts (λ u m q. h u (later m) q))
]

signed-accepted : (c t a : Bool) → (c && t && a) ≡ true → a ≡ true
signed-accepted c t a h = ground arith

task_scope_issues-nil : (db : Db) (id : String) → IsConsistent db → task_scope_issues db id ≡ []
unfolding task_scope_issues
task_scope_issues-nil db id c =
    rw
      (issues_of-nil db (λ t. in_current_cycle db t.cycle_id && t.id == id && is_accepted t.status)
        db.tasks
        (λ t m q.
          signed_issues db t
            (c.signed t m (signed-accepted (in_current_cycle db t.cycle_id) (t.id == id) _ q))))
      (ground (arith, c.waterline))

transaction_of_no_issues :
    (id : String) (b : Db → Result Db) (db : Db)
    → ((db' : Db) → b db ≡ ok db' → task_scope_issues db' id ≡ [])
    → transaction id b db ≡ b db
unfolding transaction
transaction_of_no_issues id b db h = by_result (b db) h
  where
    by_result :
        (r : Result Db)
        → ((db' : Db) → r ≡ ok db' → task_scope_issues db' id ≡ [])
        → (r >>= λ db'.
            guard
              (is_empty (task_scope_issues db' id))
              (invariant_failed (task_scope_issues db' id))
            >> ok db')
          ≡ r
    by_result (ok d) k = rw (k d refl) refl
    by_result (err e) k = refl

-- On consistent tables the checks before the commit never reject what a task operation has done:
-- for arguments that pass, the transaction returns what its body returns, an error or new tables.
pub transaction-eq-body :
    (stamps : Stamps) (command : Command) (db : Db)
    → IsConsistent db
    → argument_check command ≡ ok tt
    → transaction (target_id command) (body stamps command) db ≡ body stamps command db
transaction-eq-body stamps command db c a =
    transaction_of_no_issues (target_id command) (body stamps command) db (λ db' h.
      task_scope_issues-nil db' (target_id command) (body-IsConsistent stamps command db a h c))

-- A task operation on an existing task that succeeds ran in an active cycle, on the row that its id
-- names in that cycle; it moved that row along one of the allowed transitions (a start with all that
-- the row depends on accepted), wrote its assignments to no other row, and appended one event; every
-- other table is as it was.
pub execute-Performed :
    (stamps : Stamps) (command : Command) (db : Db) {db' : Db}
    → ¬ IsNew command
    → execute stamps command db ≡ ok db'
    → (require_active_cycle_for_mutation (operation command) db ≡ ok tt)
      × Performed stamps command db db'
execute-Performed stamps command db old h =
    let e = execute-eq-ok stamps command db h in
    (e.allowed, body-Performed stamps command db old e.done)
