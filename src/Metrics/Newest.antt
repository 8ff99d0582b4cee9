-- ===== src/Metrics/Newest.antt =====
-- When `_qualification_coverage_metric` of core/outcome_metrics.py takes an acceptance as covered.
use kafa.Base.{
  ℕ, String, ◌≡◌, refl, sym, ap, ◌∙◌, subst, Bool, true, false, ◌==◌, Option, none, some, List, [],
  ◌∷◌, ◌⊎◌, inl, inr, ◌↔◌, Bool-cases, arith, nat_eq, find, select, ◌&&◌, and-eq-true_iff, eq_iff,
}
use kafa.Base.Sets.{contains}
use kafa.Base.Last.{IsLast, find-reverse_iff, IsLast-select}
use kafa.Base.Members.{In, first, later, In-cons, any-some, any-true}
use kafa.Delivery.Facts.{QualificationRow}
use kafa.Metrics.Coverage.{
  ActiveAcceptance, TargetRow, latest_by_target, qualification_rows, matches, is_match, is_covered,
}

-- The first of the rows with its target.
abbrev IsFirst : List QualificationRow → QualificationRow → Type 0
IsFirst rows q = find (λ (r : QualificationRow). r.target_id == q.target_id) rows ≡ some q

none_seen : (t : String) → contains [] t ≡ false
unfolding contains
none_seen t = refl

seen_cons :
    (u t : String) (seen : List String)
    → (contains (u ∷ seen) t ≡ false) ↔ ((u == t) ≡ false) × (contains seen t ≡ false)
unfolding contains
seen_cons u t seen = ground arith

latest-In :
    (seen : List String) (rows : List QualificationRow) (q : QualificationRow)
    → In q (latest_by_target seen rows) ↔ ((contains seen q.target_id ≡ false) × IsFirst rows q)
unfolding latest_by_target
latest-In seen [] q = (λ m. elim m [ ], λ (_, h). cc)
latest-In seen (r ∷ rows) q = elim (Bool-cases (contains seen r.target_id)) [
  | inl k ↦
      let (to, from) = latest-In seen rows q in
      rw k
        (λ m. let (c, n) = to m in (c, rw (other k c) n), λ (c, n). from (c, rw (other k c) at n))
  | inr k ↦
      let (to, from) = latest-In (r.target_id ∷ seen) rows q in
      rw k (
        λ m. fresh k (In-cons m) to,
        λ (c, n). found c n from (Bool-cases (r.target_id == q.target_id)),
      )
]
  where
    both : (b : Bool) → b ≡ true → b ≡ false → ⊥
    both b x y = cc

    other :
        contains seen r.target_id ≡ true
        → contains seen q.target_id ≡ false
        → (r.target_id == q.target_id) ≡ false
    other k c = elim (Bool-cases (r.target_id == q.target_id)) [
      | inr e ↦ e
      | inl e ↦
          absurd (
            both _ (subst (λ t. contains seen t ≡ true) ((eq_iff r.target_id q.target_id).0 e) k) c)
    ]

    some_same : {a b : QualificationRow} → some a ≡ some b → a ≡ b
    some_same e = cc

    fresh :
        contains seen r.target_id ≡ false
        → (q ≡ r) ⊎ In q (latest_by_target (r.target_id ∷ seen) rows)
        → (In q (latest_by_target (r.target_id ∷ seen) rows)
            → (contains (r.target_id ∷ seen) q.target_id ≡ false) × IsFirst rows q)
        → (contains seen q.target_id ≡ false) × IsFirst (r ∷ rows) q
    fresh k (inl e) to =
        subst (λ (x : QualificationRow). (contains seen x.target_id ≡ false) × IsFirst (r ∷ rows) x)
          (sym e) (k, rw ((eq_iff r.target_id r.target_id).1 refl) refl)
    fresh k (inr m) to =
        let (c, n) = to m in
        let (d, s) = (seen_cons r.target_id q.target_id seen).0 c in (s, rw d n)

    found :
        contains seen q.target_id ≡ false
        → IsFirst (r ∷ rows) q
        → ((contains (r.target_id ∷ seen) q.target_id ≡ false) × IsFirst rows q
            → In q (latest_by_target (r.target_id ∷ seen) rows))
        → ((r.target_id == q.target_id) ≡ true) ⊎ ((r.target_id == q.target_id) ≡ false)
        → In q (r ∷ latest_by_target (r.target_id ∷ seen) rows)
    found c n from (inl e) =
        subst (λ x. In x (r ∷ latest_by_target (r.target_id ∷ seen) rows)) (some_same (rw e at n))
          first
    found c n from (inr e) =
        later (from ((seen_cons r.target_id q.target_id seen).1 (e, c), rw e at n))

-- Of the qualifications of the cycle and the acceptance on its target, which the table has in the
-- order in which they were made, it is the one that nothing follows.
abbrev pub IsNewest :
    List QualificationRow → (cycle_id acceptance_id : String) → QualificationRow → Type 0
IsNewest rows cycle_id acceptance_id q =
    IsLast
      (λ (r : QualificationRow).
        (r.cycle_id == cycle_id && r.acceptance_id == acceptance_id) && r.target_id == q.target_id)
      q rows

IsNewest-iff :
    (rows : List QualificationRow) (cycle_id acceptance_id : String) (q : QualificationRow)
    → IsFirst (qualification_rows rows cycle_id acceptance_id) q
      ↔ IsNewest rows cycle_id acceptance_id q
unfolding qualification_rows
IsNewest-iff rows cycle_id acceptance_id q =
    let mine : QualificationRow → Bool =
      λ r. r.cycle_id == cycle_id && r.acceptance_id == acceptance_id in
    let (f, g) =
      find-reverse_iff (λ (r : QualificationRow). r.target_id == q.target_id) (select mine rows)
        q in
    let (h, k) = IsLast-select mine (λ r. r.target_id == q.target_id) rows q in
    (λ e. h (f e), λ l. g (k l))

module _ (digest : TargetRow → String) (targets : List TargetRow) where
  -- The qualification is of the acceptance's revision and of the live definition of its target.
  abbrev pub IsCurrent : ActiveAcceptance → QualificationRow → Type 0
  IsCurrent a q =
      (t : TargetRow) × (find (λ (t : TargetRow). t.id == q.target_id) targets ≡ some t)
      × (q.acceptance_revision ≡ a.revision)
      × (q.target_definition_sha256 ≡ digest t)

  IsCurrent-iff :
      (a : ActiveAcceptance) (q : QualificationRow)
      → (is_match digest targets a q ≡ true) ↔ IsCurrent a q
  IsCurrent-iff a q = by_target (find (λ (t : TargetRow). t.id == q.target_id) targets)
    where
      nat_eq_iff : (m n : ℕ) → (nat_eq m n ≡ true) ↔ (m ≡ n)
      nat_eq_iff m n = (λ h. ground arith, λ h. ground arith)

      by_target :
          (o : Option TargetRow)
          → (matches digest targets a q o ≡ true) ↔ (
              (t : TargetRow) × (o ≡ some t)
              × (q.acceptance_revision ≡ a.revision)
              × (q.target_definition_sha256 ≡ digest t))
      by_target none = (λ h. cc, λ (t, e, _, _). cc)
      by_target (some t) = (
        λ h.
            let (r, d) = (and-eq-true_iff _ _).0 h in
            (t, refl, (nat_eq_iff _ _).0 r, (eq_iff _ _).0 d),
        λ (u, e, r, d).
            (and-eq-true_iff _ _).1
              ((nat_eq_iff _ _).1 r, (eq_iff _ _).1 (d ∙ ap digest (sym (same e)))),
      )
        where
          same : {u : TargetRow} → some t ≡ some u → t ≡ u
          same e = cc

  -- An acceptance is covered exactly if, for some target, the newest qualification of the acceptance
  -- on that target is of its current revision and of the live definition of the target. Newest is
  -- the one that no other of the cycle, the acceptance and the target follows in the table.
  pub is_covered_iff :
      (rows : List QualificationRow) (cycle_id : String) (a : ActiveAcceptance)
      → (is_covered digest targets rows cycle_id a ≡ true)
        ↔ ((q : QualificationRow) × IsNewest rows cycle_id a.id q × IsCurrent a q)
  unfolding is_covered
  is_covered_iff rows cycle_id a =
      let newest = qualification_rows rows cycle_id a.id in
      (
        λ h.
            let (q, m, t) = any-some (is_match digest targets a) (latest_by_target [] newest) h in
            (
              q,
              (IsNewest-iff rows cycle_id a.id q).0 ((latest-In [] newest q).0 m).1,
              (IsCurrent-iff a q).0 t,
            ),
        λ (q, n, c).
            any-true (is_match digest targets a) (latest_by_target [] newest)
              ((latest-In [] newest q).1
                (none_seen q.target_id, (IsNewest-iff rows cycle_id a.id q).1 n))
              ((IsCurrent-iff a q).1 c),
      )
