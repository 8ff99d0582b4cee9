-- ===== src/Metrics/Earliest.antt =====
-- The earliest of the time stamps that can be read, in core/outcome_metrics.py.
use kafa.Base.{
  ℕ, suc, ◌≤◌, ◌≡◌, refl, sym, ap, ◌∙◌, subst, true, false, Option, none, some, List, [], ◌∷◌, ◌⊎◌,
  inl, inr, Bool-cases, Option-cases, arith, ltb, length,
}
use kafa.Base.Members.{In-cons, not-In-nil, In, first, later}
use kafa.Metrics.Times.{earlier, valid_times, least}

-- The time stamps that can be read are those of rows, and they are as many as the rows only if each
-- can be read.
module _ {Row : Type 0} (at : Row → Option ℕ) where
  pub length-valid_times : (rows : List Row) → length (valid_times at rows) ≤ length rows
  unfolding valid_times
  length-valid_times [] = omega arith
  length-valid_times (r ∷ rows) = elim (Option-cases (at r)) [
    | inl e ↦ rw e (omega (arith, length-valid_times rows))
    | inr (t, e) ↦ rw e (omega (arith, length-valid_times rows))
  ]

  pub all_readable :
      (rows : List Row) {r : Row}
      → length (valid_times at rows) ≡ length rows
      → In r rows
      → (t : ℕ) × (at r ≡ some t) × In t (valid_times at rows)
  unfolding valid_times
  all_readable [] h m = elim m [ ]
  all_readable (y ∷ rows) {r} h m = elim (Option-cases (at y)) [
    | inl e ↦ absurd (too_short (rw e at h))
    | inr (t, e) ↦ rw e (here t e (In-cons m) (all_readable rows (rest (rw e at h))))
  ]
    where
      too_short : length (valid_times at rows) ≡ suc (length rows) → ⊥
      too_short q = omega (arith, length-valid_times rows, q)

      rest :
          suc (length (valid_times at rows)) ≡ suc (length rows)
          → length (valid_times at rows) ≡ length rows
      rest q = omega arith

      here :
          (t : ℕ)
          → at y ≡ some t
          → (r ≡ y) ⊎ In r rows
          → (In r rows → (u : ℕ) × (at r ≡ some u) × In u (valid_times at rows))
          → (u : ℕ) × (at r ≡ some u) × In u (t ∷ valid_times at rows)
      here t e (inl q) rec = (t, ap at q ∙ e, first)
      here t e (inr k) rec = let (u, f, n) = rec k in (u, f, later n)

  pub valid_times-row :
      (rows : List Row) {t : ℕ}
      → In t (valid_times at rows)
      → (r : Row) × In r rows × (at r ≡ some t)
  unfolding valid_times
  valid_times-row [] m = elim m [ ]
  valid_times-row (y ∷ rows) {t} m = elim (Option-cases (at y)) [
    | inl e ↦ let (r, n, f) = valid_times-row rows (rw e at m) in (r, later n, f)
    | inr (u, e) ↦ here u e (In-cons (rw e at m)) (valid_times-row rows)
  ]
    where
      here :
          (u : ℕ)
          → at y ≡ some u
          → (t ≡ u) ⊎ In t (valid_times at rows)
          → (In t (valid_times at rows) → (r : Row) × In r rows × (at r ≡ some t))
          → (r : Row) × In r (y ∷ rows) × (at r ≡ some t)
      here u e (inl q) rec = (y, first, e ∙ ap some (sym q))
      here u e (inr k) rec = let (r, n, f) = rec k in (r, later n, f)

least-nil : (ts : List ℕ) → least ts ≡ none → ts ≡ []
unfolding least
least-nil [] h = refl
least-nil (t ∷ ts) h = cc

pub least-In : (ts : List ℕ) {l : ℕ} → least ts ≡ some l → In l ts × ((t : ℕ) → In t ts → l ≤ t)
unfolding least
least-In [] h = cc
least-In (t ∷ ts) {l} h = elim (Option-cases (least ts)) [
  | inl e ↦ alone (some_same (rw e at h)) (least-nil ts e)
  | inr (u, e) ↦ compared u (some_same (rw e at h)) (least-In ts e) (Bool-cases (ltb u t))
]
  where
    some_same : {m n : ℕ} → some m ≡ some n → m ≡ n
    some_same q = cc

    less : (a b : ℕ) → ltb a b ≡ true → a ≤ b
    less a b p = ground arith

    not_less : (a b : ℕ) → ltb a b ≡ false → b ≤ a
    not_less a b p = ground arith

    before : (a b c s : ℕ) → a ≤ b → a ≡ c → s ≡ b → c ≤ s
    before a b c s p v w = omega arith

    through : (a b c s : ℕ) → b ≤ a → b ≡ c → a ≤ s → c ≤ s
    through a b c s p v w = omega arith

    alone : t ≡ l → ts ≡ [] → In l (t ∷ ts) × ((s : ℕ) → In s (t ∷ ts) → l ≤ s)
    alone q n = (
      subst (λ k. In k (t ∷ ts)) q first,
      λ s m. elim (In-cons m) [ inl p ↦ omega (arith, p, q) | inr k ↦ absurd (not-In-nil ts n k) ],
    )

    compared :
        (u : ℕ)
        → earlier t (some u) ≡ l
        → In u ts × ((s : ℕ) → In s ts → u ≤ s)
        → (ltb u t ≡ true) ⊎ (ltb u t ≡ false)
        → In l (t ∷ ts) × ((s : ℕ) → In s (t ∷ ts) → l ≤ s)
    compared u q (m, low) (inl e) =
        let v : u ≡ l = rw e at q in
        (
          subst (λ k. In k (t ∷ ts)) v (later m),
          λ s n. elim (In-cons n) [
            | inl p ↦ before u t l s (less u t e) v p
            | inr k ↦ subst (λ w. w ≤ s) v (low s k)
          ],
        )
    compared u q (m, low) (inr e) =
        let v : t ≡ l = rw e at q in
        (
          subst (λ k. In k (t ∷ ts)) v first,
          λ s n. elim (In-cons n) [
            | inl p ↦ omega (arith, p, v)
            | inr k ↦ through u t l s (not_less u t e) v (low s k)
          ],
        )
