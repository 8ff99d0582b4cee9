-- ===== src/Phases/Orderly.antt =====
-- The invariant of projects and delivery cycles, and that every operation on them keeps it.
use kafa.Base.{
  String, ◌≡◌, ◌≢◌, sym, ap, ◌∙◌, true, false, some, List, [], ◌∷◌, ◌==◌, ◌⊎◌, inl, inr, eq_iff,
  Bool-cases, if◌then◌else◌,
}
use kafa.Base.Members.{In, first, later, In-cons}
use kafa.Ledger.{Db, ProjectRow, CycleRow, is_active}
use kafa.Phases.Rows.{update_cycle}

-- Cycles are known by their ids; of the project's cycle the phase is the project's, and no other
-- cycle is active.
pub record Orderly (p : ProjectRow) (cycles : List CycleRow) : Type 0 where
  pub unique : (c d : CycleRow) → In c cycles → In d cycles → c.id ≡ d.id → c ≡ d
  pub current : CycleRow
  pub current_in : In current cycles
  pub current_id : current.id ≡ p.current_cycle_id
  pub same_phase : current.phase ≡ p.phase
  pub others_closed :
      (c : CycleRow) → In c cycles → c.id ≢ p.current_cycle_id → is_active c.status ≡ false

abbrev pub IsOrderly : Db → Type 0
IsOrderly db = (p : ProjectRow) × (db.project ≡ some p) × Orderly p db.cycles

In-update_cycle :
    (id : String) (f : CycleRow → CycleRow) (cs : List CycleRow) {c : CycleRow}
    → In c (update_cycle id f cs)
    → (o : CycleRow) × In o cs × ((o.id ≡ id) × (c ≡ f o) ⊎ (o.id ≢ id) × (c ≡ o))
unfolding update_cycle
In-update_cycle id f [] m = elim m [ ]
In-update_cycle id f (d ∷ ds) {c} m = elim (In-cons m) [
  | inl e ↦ (d, first, by_test (Bool-cases (d.id == id)) e)
  | inr n ↦ let (o, k, w) = In-update_cycle id f ds n in (o, later k, w)
]
  where
    by_test :
        (d.id == id) ≡ true ⊎ (d.id == id) ≡ false
        → c ≡ (if d.id == id then f d else d)
        → (d.id ≡ id) × (c ≡ f d) ⊎ (d.id ≢ id) × (c ≡ d)
    by_test (inl t) e = inl ((eq_iff d.id id).0 t, rw t at e)
    by_test (inr t) e = inr ((λ q. cc (t, (eq_iff d.id id).1 q)), rw t at e)

update_cycle-In :
    (id : String) (f : CycleRow → CycleRow) (cs : List CycleRow) {c : CycleRow}
    → In c cs
    → c.id ≡ id
    → In (f c) (update_cycle id f cs)
unfolding update_cycle
update_cycle-In id f [] m e = elim m [ ]
update_cycle-In id f (d ∷ ds) first e = rw ((eq_iff _ _).1 e) first
update_cycle-In id f (d ∷ ds) (later m) e = later (update_cycle-In id f ds m e)

-- An update of the current cycle that keeps the id, with the project's phase.
pub updated-Orderly :
    (p p' : ProjectRow) (cs : List CycleRow) (id : String) (f : CycleRow → CycleRow)
    → Orderly p cs
    → id ≡ p.current_cycle_id
    → p'.current_cycle_id ≡ p.current_cycle_id
    → ((c : CycleRow) → (f c).id ≡ c.id)
    → ((c : CycleRow) → (f c).phase ≡ p'.phase)
    → Orderly p' (update_cycle id f cs)
updated-Orderly p p' cs id f o at same keeps phase = record {
  unique = λ c d m n e.
      let (c₀, i, v) = In-update_cycle id f cs m in
      let (d₀, j, w) = In-update_cycle id f cs n in unique c c₀ d d₀ i j v w e;
  current = f o.current;
  current_in = update_cycle-In id f cs o.current_in (o.current_id ∙ sym at);
  current_id = keeps o.current ∙ o.current_id ∙ sym same;
  same_phase = phase o.current;
  others_closed = λ c m ne. let (c₀, i, v) = In-update_cycle id f cs m in closed c c₀ i v ne;
}
  where
    id_of : (c c₀ : CycleRow) → ((c₀.id ≡ id) × (c ≡ f c₀) ⊎ (c₀.id ≢ id) × (c ≡ c₀)) → c.id ≡ c₀.id
    id_of c c₀ (inl (_, e)) = ap (λ (x : CycleRow). x.id) e ∙ keeps c₀
    id_of c c₀ (inr (_, e)) = ap (λ (x : CycleRow). x.id) e

    unique :
        (c c₀ d d₀ : CycleRow)
        → In c₀ cs
        → In d₀ cs
        → ((c₀.id ≡ id) × (c ≡ f c₀) ⊎ (c₀.id ≢ id) × (c ≡ c₀))
        → ((d₀.id ≡ id) × (d ≡ f d₀) ⊎ (d₀.id ≢ id) × (d ≡ d₀))
        → c.id ≡ d.id
        → c ≡ d
    unique c c₀ d d₀ i j v w e =
        let same_row = o.unique c₀ d₀ i j (sym (id_of c c₀ v) ∙ e ∙ id_of d d₀ w) in
        both v w same_row
      where
        both :
            ((c₀.id ≡ id) × (c ≡ f c₀) ⊎ (c₀.id ≢ id) × (c ≡ c₀))
            → ((d₀.id ≡ id) × (d ≡ f d₀) ⊎ (d₀.id ≢ id) × (d ≡ d₀))
            → c₀ ≡ d₀
            → c ≡ d
        both (inl (_, a)) (inl (_, b)) q = a ∙ ap f q ∙ sym b
        both (inr (_, a)) (inr (_, b)) q = a ∙ q ∙ sym b
        both (inl (a, _)) (inr (b, _)) q = absurd (b (sym (ap (λ (x : CycleRow). x.id) q) ∙ a))
        both (inr (a, _)) (inl (b, _)) q = absurd (a (ap (λ (x : CycleRow). x.id) q ∙ b))

    closed :
        (c c₀ : CycleRow)
        → In c₀ cs
        → ((c₀.id ≡ id) × (c ≡ f c₀) ⊎ (c₀.id ≢ id) × (c ≡ c₀))
        → c.id ≢ p'.current_cycle_id
        → is_active c.status ≡ false
    closed c c₀ i (inl (a, e)) ne = absurd (ne (id_of c c₀ (inl (a, e)) ∙ a ∙ at ∙ sym same))
    closed c c₀ i (inr (a, e)) ne = rw e (o.others_closed c₀ i (λ q. a (q ∙ sym at)))
