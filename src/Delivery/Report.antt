-- ===== src/Delivery/Report.antt =====
-- What `_ordered_blockers` of core/delivery.py reports.
use kafa.Base.{
  ℕ, ◌≤◌, ◌≡◌, sym, subst, Bool, true, false, not, List, [], ◌∷◌, ◌⊎◌, inl, inr, ◌↔◌, arith,
  Bool-cases, if◌then◌else◌, ltb, nat_eq, any,
}
use kafa.Base.Members.{In, first, later, In-cons}
use kafa.Delivery.Blockers.{
  DeliveryBlocker, rank, precedes, same_blocker, unique, insert, sort, ordered_blockers, In-insert,
  In-sort, unique-sub, unique-all,
}

-- No element stands twice.
pub data Distinct : List DeliveryBlocker → Type 0 where
  none_left : Distinct []
  one_more :
      {b : DeliveryBlocker} {bs : List DeliveryBlocker}
      → ¬ In b bs
      → Distinct bs
      → Distinct (b ∷ bs)

-- No later element has a smaller rank.
pub data Ranked : List DeliveryBlocker → Type 0 where
  none_left : Ranked []
  one_more :
      {b : DeliveryBlocker} {bs : List DeliveryBlocker}
      → ((c : DeliveryBlocker) → In c bs → rank b ≤ rank c)
      → Ranked bs
      → Ranked (b ∷ bs)

unique-Distinct : (seen bs : List DeliveryBlocker) → Distinct (unique seen bs)
unfolding unique
unique-Distinct seen [] = Distinct.none_left
unique-Distinct seen (b ∷ bs) = elim (Bool-cases (any (same_blocker b) seen)) [
  | inl e ↦ rw e (unique-Distinct seen bs)
  | inr e ↦ rw e (
      Distinct.one_more (λ m. (unique-sub (b ∷ seen) bs m).1 first) (unique-Distinct (b ∷ seen) bs))
]

insert-Distinct :
    (b : DeliveryBlocker) (cs : List DeliveryBlocker)
    → Distinct cs
    → ¬ In b cs
    → Distinct (insert b cs)
unfolding insert
insert-Distinct b [] d n = Distinct.one_more n d
insert-Distinct b (c ∷ cs) (Distinct.one_more not_later d) n = elim (Bool-cases (precedes c b)) [
  | inl e ↦ rw e (
      Distinct.one_more
        (λ m. elim (In-cons ((In-insert b cs).0 m)) [
          | inl q ↦ n (subst (λ y. In y (c ∷ cs)) q first)
          | inr k ↦ not_later k
        ])
        (insert-Distinct b cs d (λ k. n (later k))))
  | inr e ↦ rw e (Distinct.one_more n (Distinct.one_more not_later d))
]

sort-Distinct : (bs : List DeliveryBlocker) → Distinct bs → Distinct (sort bs)
unfolding sort
sort-Distinct [] d = d
sort-Distinct (b ∷ bs) (Distinct.one_more n d) =
    insert-Distinct b (sort bs) (sort-Distinct bs d) (λ m. n ((In-sort bs).0 m))

precedes-rank : (a b : DeliveryBlocker) → precedes a b ≡ true → rank a ≤ rank b
unfolding precedes
precedes-rank a b h = by_rank (rank a) (rank b) _ (Bool-cases (nat_eq (rank a) (rank b))) h
  where
    by_rank :
        (m n : ℕ) (r : Bool)
        → (nat_eq m n ≡ true) ⊎ (nat_eq m n ≡ false)
        → (if not (nat_eq m n) then ltb m n else r) ≡ true
        → m ≤ n
    by_rank m n r (inl e) q = ground arith
    by_rank m n r (inr e) q = ground (arith, rw e at q)

not_precedes-rank : (a b : DeliveryBlocker) → precedes a b ≡ false → rank b ≤ rank a
unfolding precedes
not_precedes-rank a b h = by_rank (rank a) (rank b) _ (Bool-cases (nat_eq (rank a) (rank b))) h
  where
    by_rank :
        (m n : ℕ) (r : Bool)
        → (nat_eq m n ≡ true) ⊎ (nat_eq m n ≡ false)
        → (if not (nat_eq m n) then ltb m n else r) ≡ false
        → n ≤ m
    by_rank m n r (inl e) q = ground arith
    by_rank m n r (inr e) q = ground (arith, rw e at q)

insert-Ranked : (b : DeliveryBlocker) (cs : List DeliveryBlocker) → Ranked cs → Ranked (insert b cs)
unfolding insert
insert-Ranked b [] r = Ranked.one_more (λ c m. elim m [ ]) r
insert-Ranked b (c ∷ cs) (Ranked.one_more low r) = elim (Bool-cases (precedes c b)) [
  | inl e ↦ rw e (
      Ranked.one_more {b = c}
        (λ d m. elim (In-cons ((In-insert b cs).0 m)) [
          | inl q ↦ subst (λ y. rank c ≤ rank y) (sym q) (precedes-rank c b e)
          | inr k ↦ low d k
        ])
        (insert-Ranked b cs r))
  | inr e ↦ rw e (
      Ranked.one_more {b = b}
        (λ d m. elim (In-cons {y = c} {xs = cs} m) [
          | inl q ↦ subst (λ y. rank b ≤ rank y) (sym q) (not_precedes-rank c b e)
          | inr k ↦ le_trans (rank b) (rank c) (rank d) (not_precedes-rank c b e) (low d k)
        ])
        (Ranked.one_more low r))
]
  where
    le_trans : (m n o : ℕ) → m ≤ n → n ≤ o → m ≤ o
    le_trans m n o p q = omega arith

sort-Ranked : (bs : List DeliveryBlocker) → Ranked (sort bs)
unfolding sort
sort-Ranked [] = Ranked.none_left
sort-Ranked (b ∷ bs) = insert-Ranked b (sort bs) (sort-Ranked bs)

-- The report has the blockers that were found and no others, each once, and none before one whose
-- code comes earlier in the order of codes.
pub ordered_blockers-In :
    (blockers : List DeliveryBlocker)
    → ((b : DeliveryBlocker) → In b (ordered_blockers blockers) ↔ In b blockers)
      × Distinct (ordered_blockers blockers)
      × Ranked (ordered_blockers blockers)
unfolding ordered_blockers
ordered_blockers-In blockers = (
  λ b. (
    λ m. (unique-sub [] blockers ((In-sort (unique [] blockers)).0 m)).0,
    λ m. (In-sort (unique [] blockers)).1 (kept (unique-all [] blockers m)),
  ),
  sort-Distinct (unique [] blockers) (unique-Distinct [] blockers),
  sort-Ranked (unique [] blockers),
)
  where
    kept : {b : DeliveryBlocker} → In b [] ⊎ In b (unique [] blockers) → In b (unique [] blockers)
    kept (inl m) = elim m [ ]
    kept (inr m) = m
