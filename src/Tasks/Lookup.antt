-- ===== src/Tasks/Lookup.antt =====
-- What `require_task` of scripts/harness_db.py finds after a task was added.
use kafa.Base.{
  String, ◌≡◌, ◌≢◌, refl, sym, ap, ◌∙◌, subst, Bool, true, false, ◌&&◌, Option, some, List, ◌∷◌,
  ◌==◌, eq_iff, Bool-cases, inl, inr,
}
use kafa.Ledger.{Db, TaskRow, Stamps, Result, ok, err, ◌>>=◌, missing_task}
use kafa.Cycle.{or_raise, current_cycle_id, current_cycle_row, project_row}
use kafa.Tasks.Defs.{find_task, require_task}
use kafa.Tasks.Create.{NewTask, new_row, create_task}
use kafa.Tasks.Moves.{emit-eq-ok}
use kafa.Tasks.InsertKeeps.{insert-eq-ok}
use kafa.Tasks.CreateKeeps.{Created, create-eq-ok, stages}

-- The tables hold one task more, and the project and the cycles of before.
record OneMore (row : TaskRow) (db x : Db) : Type 0 where
  tasks : x.tasks ≡ row ∷ db.tasks
  project : x.project ≡ db.project
  cycles : x.cycles ≡ db.cycles

create_task-OneMore :
    (stamps : Stamps) (new : NewTask) (db : Db) {db' : Db} (s : Created stamps new db db')
    → OneMore (new_row stamps s.cycle_id new) db db'
create_task-OneMore stamps new db s =
    let row : TaskRow = new_row stamps s.cycle_id new in
    let (_, q) = insert-eq-ok row db s.insert_ok in
    let o : OneMore row db s.ordered =
      stages (OneMore row db) stamps new db s
        (λ x links modes p. record { tasks = p.tasks; project = p.project; cycles = p.cycles })
        (λ id x y d p.
          subst (OneMore row db) (sym d.result)
            (record { tasks = p.tasks; project = p.project; cycles = p.cycles }))
        (subst (OneMore row db) (sym q) (record { tasks = refl; project = refl; cycles = refl })) in
    subst (OneMore row db) (sym (emit-eq-ok stamps s.fields s.ordered s.event_ok))
      (record { tasks = o.tasks; project = o.project; cycles = o.cycles })

same_cycle :
    (x y : Db)
    → x.project ≡ y.project
    → x.cycles ≡ y.cycles
    → current_cycle_id x ≡ current_cycle_id y
unfolding current_cycle_id current_cycle_row project_row
same_cycle x y p c = rw (p, c) refl

find-new :
    (row : TaskRow) (tasks : List TaskRow) → find_task row.cycle_id row.id (row ∷ tasks) ≡ some row
unfolding find_task
find-new row tasks =
    rw ((eq_iff row.cycle_id row.cycle_id).1 refl, (eq_iff row.id row.id).1 refl) refl

find-other :
    (row : TaskRow) (tasks : List TaskRow) (cycle_id id : String)
    → id ≢ row.id
    → find_task cycle_id id (row ∷ tasks) ≡ find_task cycle_id id tasks
unfolding find_task
find-other row tasks cycle_id id other = elim (Bool-cases (row.id == id)) [
  | inl e ↦ absurd (other (sym ((eq_iff row.id id).0 e)))
  | inr e ↦ rw (not_both (row.cycle_id == cycle_id) (row.id == id) e) refl
]
  where
    not_both : (a b : Bool) → b ≡ false → (a && b) ≡ false
    not_both true b e = e
    not_both false b e = refl

-- The lookup in a cycle, by what the current cycle is.
found_in :
    (db : Db) (id : String) {cycle_id : String} {o : Option TaskRow}
    → current_cycle_id db ≡ ok cycle_id
    → find_task cycle_id id db.tasks ≡ o
    → (row : TaskRow) → o ≡ some row
    → require_task db id ≡ ok row
unfolding require_task
found_in db id c f row e = rw (c, f, e) refl

unchanged :
    (x y : Db) (id : String)
    → current_cycle_id x ≡ current_cycle_id y
    → ((cycle_id : String) → find_task cycle_id id x.tasks ≡ find_task cycle_id id y.tasks)
    → require_task x id ≡ require_task y id
unfolding require_task
unchanged x y id c f = rw c (by_cycle (current_cycle_id y))
  where
    by_cycle :
        (r : Result String)
        → (r >>= λ k. or_raise (find_task k id x.tasks) (missing_task id))
          ≡ (r >>= λ k. or_raise (find_task k id y.tasks) (missing_task id))
    by_cycle (err e) = refl
    by_cycle (ok k) = rw (f k) refl

-- A task that was added is found under its id in the current cycle, planned and with the texts that
-- were given, and what is found under any other id is what was found before.
pub create_task-require_task :
    (stamps : Stamps) (new : NewTask) (db db' : Db)
    → create_task stamps new db ≡ ok db'
    → ((cycle_id : String) × (current_cycle_id db ≡ ok cycle_id)
        × (require_task db' new.id ≡ ok (new_row stamps cycle_id new)))
      × ((id : String) → id ≢ new.id → require_task db' id ≡ require_task db id)
create_task-require_task stamps new db db' h =
    let s : Created stamps new db db' = create-eq-ok stamps new db h in
    let row : TaskRow = new_row stamps s.cycle_id new in
    let o : OneMore row db db' = create_task-OneMore stamps new db s in
    let same : current_cycle_id db' ≡ current_cycle_id db = same_cycle db' db o.project o.cycles in
    (
      (
        s.cycle_id,
        s.current,
        found_in db' new.id (same ∙ s.current) (ap (find_task s.cycle_id new.id) o.tasks) row
            (find-new row db.tasks),
      ),
      λ id other.
          unchanged db' db id same
            (λ k. ap (find_task k id) o.tasks ∙ find-other row db.tasks k id other),
    )
