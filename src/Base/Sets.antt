-- ===== src/Base/Sets.antt =====
-- Python sets of texts, as lists in the order of `sorted` with no element twice.
use kafa.Base.Text.{text_lt}
use kafa.Base.Tests.{if◌then◌else◌}
use Prim.Native.String.{String}
use mathlib.Core.Path.{◌≡◌, refl}
use mathlib.Core.Bool.{Bool, false, ◌||◌}
use mathlib.Core.List.{List, [], ◌∷◌, ◌++◌, reverse, reverse-cons}
use native.Mathlib.Omega.{arith}
use text.Mathlib.Text.{◌==◌}
use text.Mathlib.TextEquality.{eq_iff}

-- `x in xs`
unfoldable pub contains : List String → String → Bool
contains [] k = false
contains (x ∷ xs) k = x == k || contains xs k

unfoldable pub add : String → List String → List String
add k [] = k ∷ []
add k (x ∷ xs) =
    let rest = add k xs in if x == k then x ∷ xs else if text_lt k x then k ∷ x ∷ xs else x ∷ rest

-- `sorted(set(xs))`
unfoldable pub to_set : List String → List String
to_set [] = []
to_set (x ∷ xs) = add x (to_set xs)

insert : String → List String → List String
insert k [] = k ∷ []
insert k (x ∷ xs) = let rest = insert k xs in if text_lt x k then x ∷ rest else k ∷ x ∷ xs

-- `sorted(xs)`, and `order by`
unfoldable pub sorted : List String → List String
unfolding insert
sorted [] = []
sorted (x ∷ xs) = insert x (sorted xs)

pub contains-add :
    (k : String) (xs : List String) (j : String) → contains (add k xs) j ≡ (k == j || contains xs j)
unfolding contains add
contains-add k [] j = refl
contains-add k (x ∷ xs) j = ground (arith, contains-add k xs j, eq_iff x k, eq_iff k j, eq_iff x j)

pub contains-to_set : (xs : List String) (j : String) → contains (to_set xs) j ≡ contains xs j
unfolding contains to_set
contains-to_set [] j = refl
contains-to_set (x ∷ xs) j = ground (arith, contains-add x (to_set xs) j, contains-to_set xs j)

pub contains-append :
    (xs ys : List String) (j : String) → contains (xs ++ ys) j ≡ (contains xs j || contains ys j)
unfolding contains
contains-append [] ys j = refl
contains-append (x ∷ xs) ys j = ground (arith, contains-append xs ys j)

contains-insert :
    (k : String) (xs : List String) (j : String)
    → contains (insert k xs) j ≡ (k == j || contains xs j)
unfolding contains insert
contains-insert k [] j = refl
contains-insert k (x ∷ xs) j = ground (arith, contains-insert k xs j)

pub contains-sorted : (xs : List String) (j : String) → contains (sorted xs) j ≡ contains xs j
unfolding contains sorted
contains-sorted [] j = refl
contains-sorted (x ∷ xs) j = ground (arith, contains-insert x (sorted xs) j, contains-sorted xs j)

pub contains-reverse : (xs : List String) (j : String) → contains (reverse xs) j ≡ contains xs j
unfolding contains
contains-reverse [] j = refl
contains-reverse (x ∷ xs) j =
    rw (reverse-cons, contains-append (reverse xs) (x ∷ []) j, contains-reverse xs j) (ground arith)

to_set_test : to_set ("b" ∷ "a" ∷ "b" ∷ []) ≡ "a" ∷ "b" ∷ []
unfolding to_set add text_lt
to_set_test = refl
