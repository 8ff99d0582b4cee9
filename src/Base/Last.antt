-- ===== src/Base/Last.antt =====
-- The last element of a list that passes a test, as `order by ... desc limit 1` finds it.
use kafa.Base.Tests.{Bool-cases, and-eq-true_iff}
use kafa.Base.Lists.{find, select}
use kafa.Base.Members.{In, first, later, In-cons, In-select, select-In}
use mathlib.Core.Path.{◌≡◌, refl, sym, subst}
use mathlib.Core.Bool.{Bool, true, false, ◌&&◌}
use mathlib.Core.Option.{none, some}
use mathlib.Core.Logic.{◌⊎◌, ◌↔◌, inl, inr}
use mathlib.Core.List.{List, [], ◌∷◌, ◌++◌, reverse, reverse-cons}
use native.Mathlib.Omega.{arith}

and_false : (a b : Bool) → a ≡ false → (a && b) ≡ false
and_false a b h = ground arith

module _ {ℓ} {A : Type ℓ} where
  -- The element passes the test, and nothing after it does.
  pub data IsLast (p : A → Bool) (q : A) : List A → Type ℓ where
    here : {xs : List A} → p q ≡ true → ((x : A) → In x xs → p x ≡ false) → IsLast p q (q ∷ xs)
    there : {x : A} {xs : List A} → IsLast p q xs → IsLast p q (x ∷ xs)

  abbrev Ends : (p : A → Bool) (q x : A) (xs : List A) → Type ℓ
  Ends p q x xs = (q ≡ x) × (p q ≡ true) × ((y : A) → In y xs → p y ≡ false)

  IsLast-of_cons :
      {p : A → Bool} {q x : A} {xs : List A} → IsLast p q (x ∷ xs) → Ends p q x xs ⊎ IsLast p q xs
  IsLast-of_cons (here t n) = inl (refl, t, n)
  IsLast-of_cons (there l) = inr l

  IsLast-cons :
      (p : A → Bool) (q x : A) (xs : List A) → IsLast p q (x ∷ xs) ↔ (Ends p q x xs ⊎ IsLast p q xs)
  IsLast-cons p q x xs = (IsLast-of_cons, from)
    where
      from : Ends p q x xs ⊎ IsLast p q xs → IsLast p q (x ∷ xs)
      from (inl (e, t, n)) = subst (λ z. IsLast p q (z ∷ xs)) e (here t n)
      from (inr l) = there l

  find_last_none :
      (p : A → Bool) (ys : List A) (x : A)
      → (find p (ys ++ (x ∷ [])) ≡ none) ↔ ((find p ys ≡ none) × (p x ≡ false))
  find_last_none p [] x = elim (Bool-cases (p x)) [
    | inl t ↦ rw t (λ h. cc, λ h. cc)
    | inr f ↦ rw f (λ _. (refl, refl), λ _. refl)
  ]
  find_last_none p (y ∷ ys) x = elim (Bool-cases (p y)) [
    | inl t ↦ rw t (λ h. cc, λ h. cc)
    | inr f ↦ rw f (find_last_none p ys x)
  ]

  find_last_some :
      (p : A → Bool) (ys : List A) (x q : A)
      → (find p (ys ++ (x ∷ [])) ≡ some q)
        ↔ ((find p ys ≡ some q) ⊎ (find p ys ≡ none) × (q ≡ x) × (p x ≡ true))
  find_last_some p [] x q = elim (Bool-cases (p x)) [
    | inl t ↦ rw t (λ h. inr (refl, cc, refl), λ h. elim h [ inl k ↦ cc | inr (_, e, _) ↦ cc ])
    | inr f ↦ rw f (λ h. cc, λ h. elim h [ inl k ↦ cc | inr (_, _, k) ↦ cc ])
  ]
  find_last_some p (y ∷ ys) x q = elim (Bool-cases (p y)) [
    | inl t ↦ rw t (λ h. inl h, λ h. elim h [ inl k ↦ k | inr (k, _, _) ↦ cc ])
    | inr f ↦ rw f (find_last_some p ys x q)
  ]

  find-reverse-none :
      (p : A → Bool) (xs : List A)
      → (find p (reverse xs) ≡ none) ↔ ((x : A) → In x xs → p x ≡ false)
  find-reverse-none p [] = (λ _ x m. elim m [ ], λ _. refl)
  find-reverse-none p (x ∷ xs) =
      let (f, g) = find-reverse-none p xs in
      let (h, k) = find_last_none p (reverse xs) x in
      rw (reverse-cons x xs)
        (λ n y m. each (h n) f (In-cons m), λ a. k (g (λ y m. a y (later m)), a x first))
    where
      each :
          {y : A}
          → (find p (reverse xs) ≡ none) × (p x ≡ false)
          → (find p (reverse xs) ≡ none → (z : A) → In z xs → p z ≡ false)
          → (y ≡ x) ⊎ In y xs
          → p y ≡ false
      each (_, e) f (inl q) = subst (λ z. p z ≡ false) (sym q) e
      each (n, _) f (inr m) = f n _ m

  -- The first match in the reversed list is the last in the list.
  pub find-reverse_iff :
      (p : A → Bool) (xs : List A) (q : A) → (find p (reverse xs) ≡ some q) ↔ IsLast p q xs
  find-reverse_iff p [] q = (λ h. cc, λ l. elim l [ ])
  find-reverse_iff p (x ∷ xs) q =
      let (f, g) = find-reverse_iff p xs q in
      let (h, k) = find_last_some p (reverse xs) x q in
      let (n, m) = find-reverse-none p xs in
      let (s, t) = IsLast-cons p q x xs in
      rw (reverse-cons x xs) (
        λ e. t (elim (h e) [
          | inl a ↦ inr (f a)
          | inr (b, c, d) ↦ inl (c, subst (λ z. p z ≡ true) (sym c) d, n b)
        ]),
        λ l. k (elim (s l) [
          | inl (c, d, a) ↦ inr (m a, c, subst (λ z. p z ≡ true) c d)
          | inr a ↦ inl (g a)
        ]),
      )

  -- The last match of those that a query selects is the last that passes both tests.
  pub IsLast-select :
      (k p : A → Bool) (xs : List A) (q : A)
      → IsLast p q (select k xs) ↔ IsLast (λ x. k x && p x) q xs
  IsLast-select k p [] q = (λ l. elim l [ ], λ l. elim l [ ])
  IsLast-select k p (x ∷ xs) q =
      let (f, g) = IsLast-select k p xs q in
      let (s, t) = IsLast-cons (λ x. k x && p x) q x xs in
      elim (Bool-cases (k x)) [
        | inr n ↦ rw n (
          λ l. there (f l),
          λ l. elim (s l) [ inl (e, b, _) ↦ absurd (dropped n e b) | inr r ↦ g r ],
        )
        | inl y ↦
            let (u, v) = IsLast-cons p q x (select k xs) in
            rw y (
              λ l. elim (u l) [ inl (e, b, a) ↦ t (inl (kept y e b a)) | inr r ↦ there (f r) ],
              λ l. elim (s l) [
                | inl (e, b, a) ↦ v (inl (e, passed b, others a))
                | inr r ↦ there (g r)
              ],
            )
      ]
    where
      dropped : k x ≡ false → q ≡ x → (k q && p q) ≡ true → ⊥
      dropped n e b = ground (arith, subst (λ z. k z ≡ false) (sym e) n)

      passed : (k q && p q) ≡ true → p q ≡ true
      passed b = ((and-eq-true_iff (k q) (p q)).0 b).1

      others :
          ((y : A) → In y xs → (k y && p y) ≡ false) → (y : A) → In y (select k xs) → p y ≡ false
      others a y m = let (n, b) = select-In k xs m in ground (arith, a y n, b)

      kept :
          k x ≡ true
          → q ≡ x
          → p q ≡ true
          → ((y : A) → In y (select k xs) → p y ≡ false)
          → Ends (λ x. k x && p x) q x xs
      kept y e b a = (
        e,
        (and-eq-true_iff (k q) (p q)).1 (subst (λ z. k z ≡ true) (sym e) y, b),
        λ z m. elim (Bool-cases (k z)) [
          | inl t ↦ ground (arith, a z (In-select k xs m t))
          | inr n ↦ and_false _ _ n
        ],
      )
