-- ===== src/Base/Members.antt =====
-- Membership of a list, as a family that can be matched.
use kafa.Base.Tests.{Bool-cases}
use kafa.Base.Lists.{find, select, any, when, collect}
use mathlib.Core.Path.{◌≡◌, refl, sym, subst}
use mathlib.Core.Bool.{Bool, true, false}
use mathlib.Core.Option.{none, some}
use mathlib.Core.Logic.{◌⊎◌, ◌↔◌, inl, inr}
use mathlib.Core.List.{List, [], ◌∷◌, ◌++◌, map}
use native.Mathlib.Omega.{arith}

pub data In {ℓ} {A : Type ℓ} (x : A) : List A → Type ℓ where
  first : {xs : List A} → In x (x ∷ xs)
  later : {y : A} {xs : List A} → In x xs → In x (y ∷ xs)

module _ {ℓ} {A : Type ℓ} where
  pub In-cons : {x y : A} {xs : List A} → In x (y ∷ xs) → (x ≡ y) ⊎ In x xs
  In-cons first = inl refl
  In-cons (later m) = inr m

  -- What `find` returns is an element that passes the test.
  pub find-In : (p : A → Bool) (xs : List A) {x : A} → find p xs ≡ some x → In x xs × (p x ≡ true)
  find-In p [] h = cc
  find-In p (y ∷ ys) {x} h = elim (Bool-cases (p y)) [
    | inl e ↦ rw (← some_inj (rw e at h)) (first, e)
    | inr e ↦ let (m, t) = find-In p ys (rw e at h) in (later m, t)
  ]
    where
      some_inj : {a b : A} → some a ≡ some b → a ≡ b
      some_inj q = cc

  -- What `find` misses fails the test.
  pub find-none : (p : A → Bool) (xs : List A) {x : A} → find p xs ≡ none → In x xs → p x ≡ false
  find-none p [] h m = elim m [ ]
  find-none p (y ∷ ys) h first = elim (Bool-cases (p y)) [
    | inl e ↦ absurd (cc (rw e at h))
    | inr e ↦ e
  ]
  find-none p (y ∷ ys) h (later m) = elim (Bool-cases (p y)) [
    | inl e ↦ absurd (cc (rw e at h))
    | inr e ↦ find-none p ys (rw e at h) m
  ]

  pub any-false : (p : A → Bool) (xs : List A) {x : A} → any p xs ≡ false → In x xs → p x ≡ false
  any-false p [] h m = elim m [ ]
  any-false p (y ∷ ys) h first = ground arith
  any-false p (y ∷ ys) h (later m) = any-false p ys (ground arith) m

  pub In-select : (p : A → Bool) (xs : List A) {x : A} → In x xs → p x ≡ true → In x (select p xs)
  In-select p [] m e = elim m [ ]
  In-select p (y ∷ ys) first e = rw e first
  In-select p (y ∷ ys) (later m) e = elim (Bool-cases (p y)) [
    | inl q ↦ rw q (later (In-select p ys m e))
    | inr q ↦ rw q (In-select p ys m e)
  ]

  pub In-append_left : (xs ys : List A) {x : A} → In x xs → In x (xs ++ ys)
  In-append_left [] ys m = elim m [ ]
  In-append_left (y ∷ xs) ys first = first
  In-append_left (y ∷ xs) ys (later m) = later (In-append_left xs ys m)

  pub In-append_right : (xs ys : List A) {x : A} → In x ys → In x (xs ++ ys)
  In-append_right [] ys m = m
  In-append_right (y ∷ xs) ys m = later (In-append_right xs ys m)

  pub In-append : (xs : List A) {ys : List A} {x : A} → In x (xs ++ ys) → In x xs ⊎ In x ys
  In-append [] m = inr m
  In-append (y ∷ xs) m = elim (In-cons m) [
    | inl e ↦ inl (subst (λ z. In z (y ∷ xs)) (sym e) first)
    | inr k ↦ elim (In-append xs k) [ inl n ↦ inl (later n) | inr n ↦ inr n ]
  ]

  pub not-In-nil : (xs : List A) {x : A} → xs ≡ [] → ¬ In x xs
  not-In-nil [] e m = elim m [ ]
  not-In-nil (y ∷ ys) e m = cc

  pub In-map {κ} : {B : Type κ} (f : A → B) (xs : List A) {x : A} → In x xs → In (f x) (map f xs)
  In-map f [] m = elim m [ ]
  In-map f (y ∷ xs) first = first
  In-map f (y ∷ xs) (later m) = later (In-map f xs m)

  pub select-nil :
      (p : A → Bool) (xs : List A) → ((x : A) → In x xs → p x ≡ false) → select p xs ≡ []
  select-nil p [] h = refl
  select-nil p (y ∷ ys) h = rw (h y first) (select-nil p ys (λ x m. h x (later m)))

pub append-eq-nil {ℓ} : {A : Type ℓ} (xs ys : List A) → xs ++ ys ≡ [] → (xs ≡ []) × (ys ≡ [])
append-eq-nil [] ys h = (refl, h)
append-eq-nil (x ∷ xs) ys h = cc

pub nil-append {ℓ} : {A : Type ℓ} {xs ys : List A} → xs ≡ [] → ys ≡ [] → xs ++ ys ≡ []
nil-append p q = rw (p, q) refl

pub map-eq-nil {ℓ κ} : {A : Type ℓ} {B : Type κ} (f : A → B) (xs : List A) → map f xs ≡ [] → xs ≡ []
map-eq-nil f [] h = refl
map-eq-nil f (x ∷ xs) h = cc

pub when-eq-nil {ℓ} : {A : Type ℓ} (c : Bool) (x : A) → when c (x ∷ []) ≡ [] → c ≡ false
when-eq-nil true x h = cc
when-eq-nil false x h = refl

module _ {ℓ} {A : Type ℓ} where
  -- What `select` keeps is an element that passes the test.
  pub select-In : (p : A → Bool) (xs : List A) {x : A} → In x (select p xs) → In x xs × (p x ≡ true)
  select-In p [] m = elim m [ ]
  select-In p (y ∷ ys) {x} m = elim (Bool-cases (p y)) [
    | inl e ↦ at_y e (In-cons (rw e at m)) (λ k. select-In p ys k)
    | inr e ↦ let (k, t) = select-In p ys (rw e at m) in (later k, t)
  ]
    where
      at_y :
          p y ≡ true
          → (x ≡ y) ⊎ In x (select p ys)
          → (In x (select p ys) → In x ys × (p x ≡ true))
          → In x (y ∷ ys) × (p x ≡ true)
      at_y e (inl q) rec =
          (subst (λ z. In z (y ∷ ys)) (sym q) first, subst (λ z. p z ≡ true) (sym q) e)
      at_y e (inr k) rec = let (n, t) = rec k in (later n, t)

  pub collect-nil_iff {κ} :
      {B : Type κ} (f : A → List B) (xs : List A)
      → (collect f xs ≡ []) ↔ ((x : A) → In x xs → f x ≡ [])
  collect-nil_iff f [] = (λ _ x m. elim m [ ], λ _. refl)
  collect-nil_iff f (y ∷ ys) =
      let (to, from) = collect-nil_iff f ys in
      (
        λ h x m.
            let (a, b) = append-eq-nil (f y) (collect f ys) h in
            elim (In-cons m) [ inl q ↦ subst (λ z. f z ≡ []) (sym q) a | inr k ↦ to b x k ],
        λ h. nil-append (h y first) (from (λ x m. h x (later m))),
      )

  pub any-true : (p : A → Bool) (xs : List A) {x : A} → In x xs → p x ≡ true → any p xs ≡ true
  any-true p [] m e = elim m [ ]
  any-true p (y ∷ ys) first e = ground (arith, e)
  any-true p (y ∷ ys) (later m) e = ground (arith, any-true p ys m e)

  pub any-some : (p : A → Bool) (xs : List A) → any p xs ≡ true → (x : A) × In x xs × (p x ≡ true)
  any-some p [] h = cc
  any-some p (y ∷ ys) h = elim (Bool-cases (p y)) [
    | inl e ↦ (y, first, e)
    | inr e ↦ let (x, m, t) = any-some p ys (rw e at h) in (x, later m, t)
  ]

pub when-nil_iff {ℓ} : {A : Type ℓ} (c : Bool) (x : A) → (when c (x ∷ []) ≡ []) ↔ (c ≡ false)
when-nil_iff true x = (λ h. cc, λ h. cc)
when-nil_iff false x = (λ _. refl, λ _. refl)

pub map-nil_iff {ℓ κ} :
    {A : Type ℓ} {B : Type κ} (f : A → B) (xs : List A) → (map f xs ≡ []) ↔ (xs ≡ [])
map-nil_iff f [] = (λ _. refl, λ _. refl)
map-nil_iff f (x ∷ xs) = (λ h. cc, λ h. cc)

-- Two lists that are empty exactly if `P` and `Q` hold.
pub append-nil_iff {ℓ κ μ} :
    {A : Type ℓ} {P : Type κ} {Q : Type μ} (xs : List A) {ys : List A}
    → (xs ≡ []) ↔ P
    → (ys ≡ []) ↔ Q
    → (xs ++ ys ≡ []) ↔ (P × Q)
append-nil_iff xs (f, g) (h, k) =
    (λ e. let (a, b) = append-eq-nil xs _ e in (f a, h b), λ (p, q). nil-append (g p) (k q))

-- A list of issues per element is empty exactly if `P` holds of each.
pub collect_iff {ℓ κ μ} :
    {A : Type ℓ} {B : Type κ} {P : A → Type μ} (f : A → List B) (xs : List A)
    → ((x : A) → (f x ≡ []) ↔ P x)
    → (collect f xs ≡ []) ↔ ((x : A) → In x xs → P x)
collect_iff f xs each =
    let (to, from) = collect-nil_iff f xs in
    (λ h x m. (each x).0 (to h x m), λ h. from (λ x m. (each x).1 (h x m)))
