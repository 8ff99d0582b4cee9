-- ===== src/Tasks/ChangeKeeps.antt =====
-- An operation on an existing task keeps the tables consistent.
use kafa.Base.{
  ◌+◌, String, ◌≡◌, ◌≢◌, refl, sym, ap, subst, ◌∙◌, true, List, ◌∷◌, ◌==◌, ◌⊎◌, inl, inr, eq_iff,
  arith, Bool-cases, length,
}
use kafa.Base.Text.{strip}
use kafa.Base.Members.{In}
use kafa.Ledger.{
  Db, TaskRow, TaskStatus, DependencyRow, EventRow, submitted, accepted, is_accepted, Stamps, ok,
  guard_test,
}
use kafa.Events.{max_sequence}
use kafa.Scheduler.Blockers.{AllAccepted, require_task_runnable_iff}
use kafa.Tasks.Defs.{update_row, require_text}
use kafa.Tasks.Commands.{
  Command, add_task, start_task, submit_task, accept_task, block_task, cancel_task, argument_check,
  target_id,
}
use kafa.Tasks.Consistent.{IsConsistent, has_begun, Awaited, Waits}
use kafa.Tasks.Moves.{
  TaskStep, start, submit, accept, block_active, block_submitted, cancel_planned, cancel_active,
  cancel_submitted, Performed, IsNew, assignments, StartCheck,
}
use kafa.Tasks.Rows.{
  kept, changed, In-update_row, In-update_row_kept, In-update_row_changed, require_task-In,
}

-- What an update leaves of a row.
abbrev pub SameIdentity : TaskRow → TaskRow → Type 0
SameIdentity t u = (t.uid ≡ u.uid) × (t.cycle_id ≡ u.cycle_id) × (t.id ≡ u.id)

assignments_identity :
    (stamps : Stamps) (command : Command) (t : TaskRow)
    → SameIdentity (assignments stamps command t) t
assignments_identity stamps (add_task new) t = (refl, refl, refl)
assignments_identity stamps _ t = (refl, refl, refl)

accepted_is_final : {s s' : TaskStatus} → TaskStep s s' → is_accepted s ≡ true → ⊥
accepted_is_final start h = cc
accepted_is_final submit h = cc
accepted_is_final accept h = cc
accepted_is_final block_active h = cc
accepted_is_final block_submitted h = cc
accepted_is_final cancel_planned h = cc
accepted_is_final cancel_active h = cc
accepted_is_final cancel_submitted h = cc

begun_before_submit : {s : TaskStatus} → TaskStep s submitted → has_begun s ≡ true
begun_before_submit submit = refl

begun_before_accept : {s : TaskStatus} → TaskStep s accepted → has_begun s ≡ true
begun_before_accept accept = refl

-- A task that has begun had begun before, or was tested now.
begun_step :
    (stamps : Stamps) (command : Command) (db : Db) (row : TaskRow)
    → ¬ IsNew command
    → TaskStep row.status (assignments stamps command row).status
    → StartCheck command db row
    → has_begun (assignments stamps command row).status ≡ true
    → (has_begun row.status ≡ true) ⊎ AllAccepted db.tasks db.task_dependencies row
begun_step stamps (add_task new) db row old s c h = absurd (old tt)
begun_step stamps (start_task id) db row old s c h =
    inr ((require_task_runnable_iff db.tasks db.task_dependencies row).0 c).1
begun_step stamps (submit_task id e k) db row old s c h = inl (begun_before_submit s)
begun_step stamps (accept_task id e) db row old s c h = inl (begun_before_accept s)
begun_step stamps (block_task id r) db row old s c h = cc
begun_step stamps (cancel_task id r) db row old s c h = cc

text_is_given : (label s : String) → require_text label s ≡ ok tt → strip s ≢ ""
unfolding require_text
text_is_given label s h e = cc (rw e at (guard_test _ _ h))

signed_step :
    (stamps : Stamps) (command : Command) (row : TaskRow)
    → ¬ IsNew command
    → argument_check command ≡ ok tt
    → is_accepted (assignments stamps command row).status ≡ true
    → ((assignments stamps command row).evidence ≢ "")
      × ((assignments stamps command row).accepted_by ≡ "root-controller")
signed_step stamps (add_task new) row old a h = absurd (old tt)
signed_step stamps (accept_task id e) row old a h = (text_is_given _ e a, refl)
signed_step stamps (start_task id) row old a h = cc
signed_step stamps (submit_task id e k) row old a h = cc
signed_step stamps (block_task id r) row old a h = cc
signed_step stamps (cancel_task id r) row old a h = cc

-- The next number keeps the events in step.
pub waterline-cons :
    (e : EventRow) (es : List EventRow)
    → e.sequence ≡ max_sequence es + 1
    → length es ≡ max_sequence es
    → length (e ∷ es) ≡ max_sequence (e ∷ es)
unfolding max_sequence
waterline-cons e es q h = ground arith

module _ (stamps : Stamps) (command : Command) (db db' : Db) (c : IsConsistent db)
    (p : Performed stamps command db db') (old : ¬ IsNew command)
    (arguments : argument_check command ≡ ok tt) where
  abbrev f : TaskRow → TaskRow
  f = assignments stamps command

  abbrev tasks' : List TaskRow
  tasks' = update_row p.row.uid f db.tasks

  row-In : In p.row db.tasks
  row-In = (require_task-In db (target_id command) p.found).0

  record Source (t : TaskRow) : Type 0 where
    before : TaskRow
    member : In before db.tasks
    same : SameIdentity t before
    how : (t ≡ before) × (before.uid ≢ p.row.uid) ⊎ (t ≡ f p.row) × (before ≡ p.row)

  source : (t : TaskRow) → In t tasks' → Source t
  source t m = elim (In-update_row p.row.uid f db.tasks m) [
    | kept n e ↦ record { before = t; member = n; same = (refl, refl, refl); how = inl (refl, e) }
    | changed u n e q ↦
        let u≡row = c.unique_uid u p.row n row-In e in
        record {
          before = u;
          member = n;
          same = rw q (assignments_identity stamps command u);
          how = inr (q ∙ ap f u≡row, u≡row);
        }
  ]

  same-Source : (t u : TaskRow) (s : Source t) (r : Source u) → s.before ≡ r.before → t ≡ u
  same-Source t u s r e = both s.how r.how
    where
      both :
          (t ≡ s.before) × (s.before.uid ≢ p.row.uid) ⊎ (t ≡ f p.row) × (s.before ≡ p.row)
          → (u ≡ r.before) × (r.before.uid ≢ p.row.uid) ⊎ (u ≡ f p.row) × (r.before ≡ p.row)
          → t ≡ u
      both (inl (a, _)) (inl (b, _)) = cc
      both (inl (_, n)) (inr (_, b)) = absurd (n (ap (λ (x : TaskRow). x.uid) (e ∙ b)))
      both (inr (_, a)) (inl (_, n)) = absurd (n (ap (λ (x : TaskRow). x.uid) (sym e ∙ a)))
      both (inr (a, _)) (inr (b, _)) = cc

  keeps_Awaited :
      (d : DependencyRow) → In d db.task_dependencies → (u : TaskRow) × In u tasks' × Awaited d u
  keeps_Awaited d m =
      let (u, n, a) = c.awaited d m in
      elim (Bool-cases (u.uid == p.row.uid)) [
        | inl e ↦
            let (_, k, i) = assignments_identity stamps command u in
            (
              f u,
              subst (λ k. In (f u) (update_row k f db.tasks)) ((eq_iff u.uid p.row.uid).0 e)
                  (In-update_row_changed f db.tasks n),
              (k ∙ a.0, i ∙ a.1),
            )
        | inr e ↦ (
          u,
          In-update_row_kept p.row.uid f db.tasks n (λ q. cc ((eq_iff u.uid p.row.uid).1 q, e)),
          a,
        )
      ]

  still_accepted :
      (u : TaskRow) (s : Source u)
      → is_accepted s.before.status ≡ true
      → is_accepted u.status ≡ true
  still_accepted u s h = elim s.how [
    | inl (q, _) ↦ rw q h
    | inr (_, b) ↦ absurd (accepted_is_final p.step (rw b at h))
  ]

  was_ready :
      (d : DependencyRow) (t u : TaskRow) (s : Source t)
      → In d db.task_dependencies
      → In u db.tasks
      → Waits d s.before
      → Awaited d u
      → has_begun t.status ≡ true
      → is_accepted u.status ≡ true
  was_ready d t u s m n w a h = elim s.how [
    | inl (q, _) ↦ c.ready d s.before u m s.member n w a (rw q at h)
    | inr (q, b) ↦ elim (begun_step stamps command db p.row old p.step p.runnable (rw q at h)) [
      | inl begun ↦ c.ready d p.row u m row-In n (rw b at w) a begun
      | inr all ↦ all d u m n (
        sym w.0 ∙ ap (λ (x : TaskRow). x.cycle_id) b,
        sym w.1 ∙ ap (λ (x : TaskRow). x.id) b,
        a.0 ∙ sym w.0 ∙ ap (λ (x : TaskRow). x.cycle_id) b,
        a.1,
      )
    ]
  ]

  was_signed :
      (t : TaskRow) (s : Source t)
      → is_accepted t.status ≡ true
      → (t.evidence ≢ "") × (t.accepted_by ≡ "root-controller")
  was_signed t s h = elim s.how [
    | inl (q, _) ↦ rw q (c.signed s.before s.member (rw q at h))
    | inr (q, _) ↦ rw q (signed_step stamps command p.row old arguments (rw q at h))
  ]

  pub Performed-IsConsistent : IsConsistent db'
  Performed-IsConsistent = rw p.changed.result (record {
    unique_uid = λ t u m n e.
        let s = source t m in
        let r = source u n in
        same-Source t u s r
          (c.unique_uid s.before r.before s.member r.member (sym s.same.0 ∙ e ∙ r.same.0));
    unique_key = λ t u m n (k, i).
        let s = source t m in
        let r = source u n in
        same-Source t u s r (
          c.unique_key s.before r.before s.member r.member
            (sym s.same.1 ∙ k ∙ r.same.1, sym s.same.2 ∙ i ∙ r.same.2));
    awaited = keeps_Awaited;
    acyclic = c.acyclic;
    ready = λ d t u m n o (wk, wi) (ak, ai) h.
        let s = source t n in
        let r = source u o in
        still_accepted u r (
          was_ready d t r.before s m r.member (sym s.same.1 ∙ wk, sym s.same.2 ∙ wi)
            (sym r.same.1 ∙ ak, sym r.same.2 ∙ ai) h);
    signed = λ t m h. was_signed t (source t m) h;
    waterline = waterline-cons p.changed.event db.events p.changed.sequence c.waterline;
  })
