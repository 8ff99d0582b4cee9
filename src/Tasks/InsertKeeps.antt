-- ===== src/Tasks/InsertKeeps.antt =====
-- The insert of a new task's row keeps the tables consistent.
use kafa.Base.{
  ◌≡◌, ◌≢◌, sym, ap, ◌∙◌, true, false, ◌∷◌, ◌==◌, ◌⊎◌, inl, inr, eq_iff, arith, any, is_some,
}
use kafa.Base.Members.{In, first, later, In-cons, any-false}
use kafa.Ledger.{Db, TaskRow, DependencyRow, planned, is_accepted, ok}
use kafa.Cycle.{current_cycle_id, current_cycle_row, project_row}
use kafa.Tasks.Defs.{find_task}
use kafa.Tasks.Create.{insert_task}
use kafa.Tasks.Consistent.{IsConsistent, has_begun, Awaited, Waits, SameKey}
use kafa.Tasks.Rows.{find_task-none}

-- The tables between the insert and the event: the new row stands in them.
pub record Inserted (n : TaskRow) (db : Db) : Type 0 where
  pub consistent : IsConsistent db
  pub member : In n db.tasks
  pub is_planned : n.status ≡ planned
  pub current : current_cycle_id db ≡ ok n.cycle_id

pub insert-eq-ok :
    (row : TaskRow) (db : Db) {db' : Db}
    → insert_task row db ≡ ok db'
    → (any (λ t. t.uid == row.uid) db.tasks ≡ false) × (db' ≡ record db { tasks = row ∷ db.tasks })
unfolding insert_task
insert-eq-ok row db h = (ground arith, ground arith)

module _ (row : TaskRow) (db : Db) (c : IsConsistent db) (fresh : row.status ≡ planned)
    (new_uid : any (λ t. t.uid == row.uid) db.tasks ≡ false)
    (new_key : is_some (find_task row.cycle_id row.id db.tasks) ≡ false) where
  other_uid : (t : TaskRow) → In t db.tasks → t.uid ≢ row.uid
  other_uid t m e =
      cc ((eq_iff t.uid row.uid).1 e, any-false (λ t. t.uid == row.uid) db.tasks new_uid m)

  other_key : (t : TaskRow) → In t db.tasks → t.cycle_id ≡ row.cycle_id → t.id ≢ row.id
  other_key t m k = find_task-none row.cycle_id row.id db.tasks new_key m k

  unique_uid_rows :
      (t u : TaskRow) → In t (row ∷ db.tasks) → In u (row ∷ db.tasks) → t.uid ≡ u.uid → t ≡ u
  unique_uid_rows t u m n e = both (In-cons m) (In-cons n)
    where
      both : (t ≡ row) ⊎ In t db.tasks → (u ≡ row) ⊎ In u db.tasks → t ≡ u
      both (inl p) (inl q) = p ∙ sym q
      both (inl p) (inr q) = absurd (other_uid u q (sym e ∙ ap (λ (x : TaskRow). x.uid) p))
      both (inr p) (inl q) = absurd (other_uid t p (e ∙ ap (λ (x : TaskRow). x.uid) q))
      both (inr p) (inr q) = c.unique_uid t u p q e

  unique_key_rows :
      (t u : TaskRow) → In t (row ∷ db.tasks) → In u (row ∷ db.tasks) → SameKey t u → t ≡ u
  unique_key_rows t u m n (k, i) = both (In-cons m) (In-cons n)
    where
      both : (t ≡ row) ⊎ In t db.tasks → (u ≡ row) ⊎ In u db.tasks → t ≡ u
      both (inl p) (inl q) = p ∙ sym q
      both (inl p) (inr q) = absurd (
          other_key u q (sym k ∙ ap (λ (x : TaskRow). x.cycle_id) p)
            (sym i ∙ ap (λ (x : TaskRow). x.id) p))
      both (inr p) (inl q) = absurd (
          other_key t p (k ∙ ap (λ (x : TaskRow). x.cycle_id) q) (i ∙ ap (λ (x : TaskRow). x.id) q))
      both (inr p) (inr q) = c.unique_key t u p q (k, i)

  -- No dependency waits for the new row: what it waits for was there.
  not-Awaited :
      (d : DependencyRow) (u : TaskRow) → In d db.task_dependencies → u ≡ row → ¬ Awaited d u
  not-Awaited d u m q (k, i) =
      let (v, n, (vk, vi)) = c.awaited d m in
      other_key v n (vk ∙ sym k ∙ ap (λ (x : TaskRow). x.cycle_id) q)
        (vi ∙ sym i ∙ ap (λ (x : TaskRow). x.id) q)

  ready_tasks :
      (d : DependencyRow) (t u : TaskRow)
      → In d db.task_dependencies
      → In t (row ∷ db.tasks)
      → In u (row ∷ db.tasks)
      → Waits d t
      → Awaited d u
      → has_begun t.status ≡ true
      → is_accepted u.status ≡ true
  ready_tasks d t u m mt mu w a h = both (In-cons mt) (In-cons mu)
    where
      both : (t ≡ row) ⊎ In t db.tasks → (u ≡ row) ⊎ In u db.tasks → is_accepted u.status ≡ true
      both (inl p) _ =
          absurd (cc (h, ap (λ (x : TaskRow). has_begun x.status) p, ap has_begun fresh))
      both (inr p) (inl q) = absurd (not-Awaited d u m q a)
      both (inr p) (inr q) = c.ready d t u m p q w a h

  signed_tasks :
      (t : TaskRow)
      → In t (row ∷ db.tasks)
      → is_accepted t.status ≡ true
      → (t.evidence ≢ "") × (t.accepted_by ≡ "root-controller")
  signed_tasks t m h = elim (In-cons m) [
    | inl p ↦ absurd (cc (h, ap (λ (x : TaskRow). is_accepted x.status) p, ap is_accepted fresh))
    | inr o ↦ c.signed t o h
  ]

  Inserted-IsConsistent : IsConsistent (record db { tasks = row ∷ db.tasks })
  Inserted-IsConsistent = record {
    unique_uid = unique_uid_rows;
    unique_key = unique_key_rows;
    awaited = λ d m. let (u, n, a) = c.awaited d m in (u, later n, a);
    acyclic = c.acyclic;
    ready = ready_tasks;
    signed = signed_tasks;
    waterline = c.waterline;
  }

pub insert_keeps :
    (row : TaskRow) (db : Db) {db' : Db}
    → insert_task row db ≡ ok db'
    → IsConsistent db
    → row.status ≡ planned
    → current_cycle_id db ≡ ok row.cycle_id
    → is_some (find_task row.cycle_id row.id db.tasks) ≡ false
    → Inserted row db'
unfolding current_cycle_id current_cycle_row project_row
insert_keeps row db h c s k f =
    let (u, q) = insert-eq-ok row db h in
    rw q (record {
      consistent = Inserted-IsConsistent row db c s u f;
      member = first;
      is_planned = s;
      current = k;
    })
