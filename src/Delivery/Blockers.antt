-- ===== src/Delivery/Blockers.antt =====
-- `_ordered_blockers` of core/delivery.py.
use kafa.Base.{
  ℕ, suc, String, ◌≡◌, refl, sym, subst, Bool, true, false, not, ◌&&◌, List, [], ◌∷◌, ◌==◌, ◌⊎◌,
  inl, inr, ◌↔◌, eq_iff, Bool-cases, if◌then◌else◌, ltb, nat_eq, and-eq-true_iff, any,
}
use kafa.Base.Text.{text_lt}
use kafa.Base.Members.{In, first, later, In-cons, any-false}

pub record DeliveryBlocker : Type 0 where
  pub code : String
  pub message : String
  pub entity_type : String
  pub entity_id : String

-- The codes of `_BLOCKER_ORDER`, each with its index as its rank.
abbrev pub blocker_order : List String
blocker_order =
    "candidate-snapshot-changed" ∷ "requirement-missing" ∷ "acceptance-missing"
    ∷ "requirement-acceptance-link-missing" ∷ "acceptance-orphaned" ∷ "baseline-missing"
    ∷ "baseline-stale" ∷ "scope-unconfirmed" ∷ "accepted-task-missing" ∷ "qualification-missing"
    ∷ "qualification-stale" ∷ "qualification-unreviewed" ∷ "current-validation-missing"
    ∷ "current-execution-missing" ∷ "delivery-acceptance-set-mismatch"
    ∷ "delivery-decision-trust-mismatch" ∷ "medium-failure-mode-uncovered" ∷ "medium-finding-open"
    ∷ "risk-acceptance-invalid" ∷ "degraded-residual-risk-missing" ∷ "quality-gate-invalid"
    ∷ "quality-gate-missing" ∷ "phase-not-ready" ∷ "cycle-not-active" ∷ "delivery-row-missing"
    ∷ "delivery-row-count-invalid" ∷ "delivered-candidate-inconsistent"
    ∷ "delivered-phase-inconsistent" ∷ "delivered-cycle-not-closed"
    ∷ "historical-event-chain-invalid" ∷ []

-- `order.get(code, len(order))`
unfoldable pub index_of : String → List String → ℕ
index_of code [] = 0
index_of code (c ∷ cs) = let later = index_of code cs in if c == code then 0 else suc later

abbrev pub rank : DeliveryBlocker → ℕ
rank b = index_of b.code blocker_order

-- Whether the sort key of `a` is less than that of `b`.
unfoldable pub precedes : DeliveryBlocker → DeliveryBlocker → Bool
unfolding index_of text_lt
precedes a b =
    if not (nat_eq (rank a) (rank b))
    then ltb (rank a) (rank b)
    else if not (a.entity_type == b.entity_type)
    then text_lt a.entity_type b.entity_type
    else if not (a.entity_id == b.entity_id)
    then text_lt a.entity_id b.entity_id
    else text_lt a.message b.message

abbrev pub same_blocker : DeliveryBlocker → DeliveryBlocker → Bool
same_blocker a b =
    a.code == b.code
    && (a.entity_type == b.entity_type && (a.entity_id == b.entity_id && a.message == b.message))

-- `unique.setdefault` for each blocker: the first of equal ones is kept, in its place.
unfoldable pub unique : List DeliveryBlocker → List DeliveryBlocker → List DeliveryBlocker
unique seen [] = []
unique seen (b ∷ bs) =
    let known = unique seen bs in
    let new = unique (b ∷ seen) bs in if any (same_blocker b) seen then known else b ∷ new

unfoldable pub insert : DeliveryBlocker → List DeliveryBlocker → List DeliveryBlocker
unfolding precedes
insert b [] = b ∷ []
insert b (c ∷ cs) = let rest = insert b cs in if precedes c b then c ∷ rest else b ∷ c ∷ cs

unfoldable pub sort : List DeliveryBlocker → List DeliveryBlocker
unfolding insert
sort [] = []
sort (b ∷ bs) = insert b (sort bs)

unfoldable pub ordered_blockers : List DeliveryBlocker → List DeliveryBlocker
unfolding unique sort
ordered_blockers blockers = sort (unique [] blockers)

same_blocker-eq : (a b : DeliveryBlocker) → same_blocker a b ≡ true → a ≡ b
same_blocker-eq a b h =
    let (c, h₁) =
      (and-eq-true_iff (a.code == b.code) (
          a.entity_type == b.entity_type
          && (a.entity_id == b.entity_id && a.message == b.message))).0
        h in
    let (t, h₂) =
      (and-eq-true_iff (a.entity_type == b.entity_type)
          (a.entity_id == b.entity_id && a.message == b.message)).0
        h₁ in
    let (i, m) = (and-eq-true_iff (a.entity_id == b.entity_id) (a.message == b.message)).0 h₂ in
    cc (
      (eq_iff a.code b.code).0 c,
      (eq_iff a.entity_type b.entity_type).0 t,
      (eq_iff a.entity_id b.entity_id).0 i,
      (eq_iff a.message b.message).0 m,
    )

pub same_blocker_refl : (a : DeliveryBlocker) → same_blocker a a ≡ true
same_blocker_refl a =
    rw
      (
        (eq_iff a.code a.code).1 refl,
        (eq_iff a.entity_type a.entity_type).1 refl,
        (eq_iff a.entity_id a.entity_id).1 refl,
        (eq_iff a.message a.message).1 refl,
      )
      refl

pub any-In :
    (b : DeliveryBlocker) (seen : List DeliveryBlocker)
    → any (same_blocker b) seen ≡ true
    → In b seen
any-In b [] h = cc
any-In b (s ∷ seen) h = elim (Bool-cases (same_blocker b s)) [
  | inl e ↦ subst (λ x. In b (x ∷ seen)) (same_blocker-eq b s e) first
  | inr e ↦ later (any-In b seen (rw e at h))
]

pub unique-sub :
    (seen bs : List DeliveryBlocker) {x : DeliveryBlocker}
    → In x (unique seen bs)
    → In x bs × (¬ In x seen)
unfolding unique
unique-sub seen [] m = elim m [ ]
unique-sub seen (b ∷ bs) {x} m = elim (Bool-cases (any (same_blocker b) seen)) [
  | inl e ↦ let (k, n) = unique-sub seen bs (rw e at m) in (later k, n)
  | inr e ↦ at_new (In-cons (rw e at m)) e (λ n. unique-sub (b ∷ seen) bs n)
]
  where
    at_new :
        (x ≡ b) ⊎ In x (unique (b ∷ seen) bs)
        → any (same_blocker b) seen ≡ false
        → (In x (unique (b ∷ seen) bs) → In x bs × (¬ In x (b ∷ seen)))
        → In x (b ∷ bs) × (¬ In x seen)
    at_new (inl q) e rec = (
      subst (λ y. In y (b ∷ bs)) (sym q) first,
      λ k. cc (any-false (same_blocker b) seen e (subst (λ y. In y seen) q k), same_blocker_refl b),
    )
    at_new (inr n) e rec = let (k, not_seen) = rec n in (later k, λ i. not_seen (later i))

pub unique-all :
    (seen bs : List DeliveryBlocker) {x : DeliveryBlocker}
    → In x bs
    → (In x seen) ⊎ In x (unique seen bs)
unfolding unique
unique-all seen [] m = elim m [ ]
unique-all seen (b ∷ bs) {x} m = elim (Bool-cases (any (same_blocker b) seen)) [
  | inl e ↦ rw e (known (In-cons m) e (λ n. unique-all seen bs n))
  | inr e ↦ rw e (new (In-cons m) (λ n. unique-all (b ∷ seen) bs n))
]
  where
    known :
        (x ≡ b) ⊎ In x bs
        → any (same_blocker b) seen ≡ true
        → (In x bs → (In x seen) ⊎ In x (unique seen bs))
        → (In x seen) ⊎ In x (unique seen bs)
    known (inl q) e rec = inl (subst (λ y. In y seen) (sym q) (any-In b seen e))
    known (inr n) e rec = rec n

    new :
        (x ≡ b) ⊎ In x bs
        → (In x bs → In x (b ∷ seen) ⊎ In x (unique (b ∷ seen) bs))
        → (In x seen) ⊎ In x (b ∷ unique (b ∷ seen) bs)
    new (inl q) rec = inr (subst (λ y. In y (b ∷ unique (b ∷ seen) bs)) (sym q) first)
    new (inr n) rec = later_new (rec n)
      where
        later_new :
            In x (b ∷ seen) ⊎ In x (unique (b ∷ seen) bs)
            → (In x seen) ⊎ In x (b ∷ unique (b ∷ seen) bs)
        later_new (inr k) = inr (later k)
        later_new (inl k) = elim (In-cons k) [
          | inl q ↦ inr (subst (λ y. In y (b ∷ unique (b ∷ seen) bs)) (sym q) first)
          | inr i ↦ inl i
        ]

pub In-insert :
    (b : DeliveryBlocker) (cs : List DeliveryBlocker) {x : DeliveryBlocker}
    → In x (insert b cs) ↔ In x (b ∷ cs)
unfolding insert
In-insert b [] = (λ m. m, λ m. m)
In-insert b (c ∷ cs) {x} = elim (Bool-cases (precedes c b)) [
  | inl e ↦ rw e (there (In-insert b cs))
  | inr e ↦ rw e (λ m. m, λ m. m)
]
  where
    there : In x (insert b cs) ↔ In x (b ∷ cs) → In x (c ∷ insert b cs) ↔ In x (b ∷ c ∷ cs)
    there (f, g) = (λ m. to (In-cons m), λ m. from (In-cons m))
      where
        at_b : x ≡ b → In x (b ∷ c ∷ cs)
        at_b q = subst (λ y. In y (b ∷ c ∷ cs)) (sym q) first

        at_c : (ys : List DeliveryBlocker) → x ≡ c → In x (c ∷ ys)
        at_c ys q = subst (λ y. In y (c ∷ ys)) (sym q) first

        to : (x ≡ c) ⊎ In x (insert b cs) → In x (b ∷ c ∷ cs)
        to (inl q) = later (at_c cs q)
        to (inr n) = elim (In-cons (f n)) [ inl q ↦ at_b q | inr k ↦ later (later k) ]

        from : (x ≡ b) ⊎ In x (c ∷ cs) → In x (c ∷ insert b cs)
        from (inl q) = later (g (subst (λ y. In y (b ∷ cs)) (sym q) first))
        from (inr n) = elim (In-cons n) [
          | inl q ↦ at_c (insert b cs) q
          | inr k ↦ later (g (later k))
        ]

pub In-sort : (bs : List DeliveryBlocker) {x : DeliveryBlocker} → In x (sort bs) ↔ In x bs
unfolding sort
In-sort [] = (λ m. m, λ m. m)
In-sort (b ∷ bs) {x} =
    let (f, g) = In-insert b (sort bs) {x = x} in
    let (h, k) = In-sort bs {x = x} in (λ m. push h (In-cons (f m)), λ m. g (push k (In-cons m)))
  where
    push : {xs ys : List DeliveryBlocker} → (In x xs → In x ys) → (x ≡ b) ⊎ In x xs → In x (b ∷ ys)
    push {xs} {ys} h (inl q) = subst (λ y. In y (b ∷ ys)) (sym q) first
    push h (inr n) = later (h n)
