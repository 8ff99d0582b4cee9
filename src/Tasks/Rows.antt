-- ===== src/Tasks/Rows.antt =====
-- Rows after an update of the row with one `uid`, and what the lookups return.
use kafa.Base.{
  String, ◌≡◌, ◌≢◌, refl, sym, true, false, ◌&&◌, List, [], ◌∷◌, ◌==◌, inl, inr, eq_iff, eq_refl,
  Bool-cases, if◌then◌else◌, Option, none, some, and-eq-true_iff, is_some,
}
use kafa.Base.Members.{In, first, later, find-In, find-none}
use kafa.Ledger.{Db, TaskRow, ok, >>=-eq-ok, Error}
use kafa.Cycle.{current_cycle_id, or_raise}
use kafa.Tasks.Defs.{update_row, find_task, require_task}

-- Where a row of the updated table comes from.
pub data Origin (uid : String) (f : TaskRow → TaskRow) (ts : List TaskRow) (t : TaskRow)
    : Type 0 where
  kept : In t ts → t.uid ≢ uid → Origin uid f ts t
  changed : (u : TaskRow) → In u ts → u.uid ≡ uid → t ≡ f u → Origin uid f ts t

later_Origin :
    {uid : String} {f : TaskRow → TaskRow} {ts : List TaskRow} {t : TaskRow} (u : TaskRow)
    → Origin uid f ts t
    → Origin uid f (u ∷ ts) t
later_Origin u (kept m n) = kept (later m) n
later_Origin u (changed v m e q) = changed v (later m) e q

head_Origin :
    (uid : String) (f : TaskRow → TaskRow) (t : TaskRow) (ts : List TaskRow)
    → Origin uid f (t ∷ ts) (if t.uid == uid then f t else t)
head_Origin uid f t ts = elim (Bool-cases (t.uid == uid)) [
  | inl e ↦ rw e (changed t first ((eq_iff t.uid uid).0 e) refl)
  | inr e ↦ rw e (kept first (λ p. cc ((eq_iff t.uid uid).1 p, e)))
]

pub In-update_row :
    (uid : String) (f : TaskRow → TaskRow) (ts : List TaskRow) {t : TaskRow}
    → In t (update_row uid f ts)
    → Origin uid f ts t
unfolding update_row
In-update_row uid f [] m = elim m [ ]
In-update_row uid f (u ∷ ts) first = head_Origin uid f u ts
In-update_row uid f (u ∷ ts) (later m) = later_Origin u (In-update_row uid f ts m)

-- A row that the update passes by is still there, and so is the changed one.
pub In-update_row_kept :
    (uid : String) (f : TaskRow → TaskRow) (ts : List TaskRow) {t : TaskRow}
    → In t ts
    → t.uid ≢ uid
    → In t (update_row uid f ts)
unfolding update_row
In-update_row_kept uid f [] m h = elim m [ ]
In-update_row_kept uid f (u ∷ ts) first h = elim (Bool-cases (u.uid == uid)) [
  | inl e ↦ absurd (h ((eq_iff u.uid uid).0 e))
  | inr e ↦ rw e first
]
In-update_row_kept uid f (u ∷ ts) (later m) h = later (In-update_row_kept uid f ts m h)

pub In-update_row_changed :
    (f : TaskRow → TaskRow) (ts : List TaskRow) {t : TaskRow}
    → In t ts
    → In (f t) (update_row t.uid f ts)
unfolding update_row
In-update_row_changed f [] m = elim m [ ]
In-update_row_changed f (u ∷ ts) first = rw (eq_refl u.uid) first
In-update_row_changed f (u ∷ ts) (later m) = later (In-update_row_changed f ts m)

or_raise-eq-ok {ℓ} :
    {A : Type ℓ} (o : Option A) (e : Error) {a : A} → or_raise o e ≡ ok a → o ≡ some a
or_raise-eq-ok none e h = cc
or_raise-eq-ok (some b) e h = cc

-- A task that is found stands in the table, under its id and the current cycle.
pub require_task-In :
    (db : Db) (id : String) {row : TaskRow}
    → require_task db id ≡ ok row
    → In row db.tasks × (row.id ≡ id) × (current_cycle_id db ≡ ok row.cycle_id)
unfolding require_task find_task
require_task-In db id {row} h =
    let (cycle_id, current, h₁) = >>=-eq-ok (current_cycle_id db) _ h in
    let (m, t) = find-In _ db.tasks (or_raise-eq-ok _ _ h₁) in
    let (c, i) = (and-eq-true_iff _ _).0 t in
    (m, (eq_iff row.id id).0 i, rw (sym ((eq_iff row.cycle_id cycle_id).0 c)) at current)

-- An id that is not found is not in use.
pub find_task-none :
    (cycle_id id : String) (tasks : List TaskRow) {t : TaskRow}
    → is_some (find_task cycle_id id tasks) ≡ false
    → In t tasks
    → t.cycle_id ≡ cycle_id
    → t.id ≢ id
unfolding find_task
find_task-none cycle_id id tasks {t} h m c i = cc (find-none _ tasks (absent _ h) m, eq_both)
  where
    absent : {A : Type 0} (o : Option A) → is_some o ≡ false → o ≡ none
    absent none q = refl
    absent (some a) q = cc

    eq_both : (t.cycle_id == cycle_id && t.id == id) ≡ true
    eq_both = rw ((eq_iff t.cycle_id cycle_id).1 c) ((eq_iff t.id id).1 i)
