-- ===== src/Events/Bounds.antt =====
-- What the summaries of an audit event hold: which keys, and how much text.
use kafa.Base.{
  ℕ, zero, suc, ◌≤◌, String, ◌≡◌, sym, ap, subst, Option, none, some, List, [], ◌∷◌, ◌⊎◌, inl, inr,
  ◌↔◌, arith,
}
use kafa.Base.Text.{take_text}
use kafa.Base.Members.{In, first, later, In-cons}
use kafa.Base.Values.{Value, null, flag, integer, str, moment, real, other}
use kafa.Ledger.{Summary}
use kafa.Events.{summary_fields, lookup, bounded, put, summarise, compact_summary}

-- The number of characters.
pub text_length : String → ℕ
text_length String.[] = 0
text_length (String.◌∷◌ c s) = suc (text_length s)

text_length-take_text : (n : ℕ) (s : String) → text_length (take_text n s) ≤ n
unfolding take_text text_length
text_length-take_text zero s = omega arith
text_length-take_text (suc n) String.[] = omega arith
text_length-take_text (suc n) (String.◌∷◌ c s) = omega (arith, text_length-take_text n s)

-- A value that a summary may hold: nothing composite, and no more than 512 characters of text.
abbrev pub IsSmall : Value → Type 0
IsSmall (str s) = text_length s ≤ 512
IsSmall (moment _ _) = ⊥
IsSmall (other _ _) = ⊥
IsSmall _ = Unit

some-injective : {a b : Value} → some a ≡ some b → a ≡ b
some-injective q = cc

bounded-IsSmall : (o : Option Value) (v : Value) → bounded o ≡ some v → IsSmall v
unfolding bounded
bounded-IsSmall none v h = cc
bounded-IsSmall (some null) v h = subst IsSmall (some-injective h) tt
bounded-IsSmall (some (flag b)) v h = subst IsSmall (some-injective h) tt
bounded-IsSmall (some (integer n)) v h = subst IsSmall (some-injective h) tt
bounded-IsSmall (some (str s)) v h = subst IsSmall (some-injective h) (text_length-take_text 512 s)
bounded-IsSmall (some (moment t r)) v h = cc
bounded-IsSmall (some (real b r)) v h = subst IsSmall (some-injective h) tt
bounded-IsSmall (some (other b r)) v h = cc

In-put :
    (field : String) (o : Option Value) (rest : Summary) (k : String) (v : Value)
    → In (k, v) (put field o rest) ↔ ((k ≡ field) × (o ≡ some v) ⊎ In (k, v) rest)
In-put field none rest k v = (λ m. inr m, to)
  where
    to : (k ≡ field) × (none ≡ some v) ⊎ In (k, v) rest → In (k, v) rest
    to (inl (_, e)) = cc
    to (inr m) = m
In-put field (some w) rest k v = (λ m. from (In-cons m), to)
  where
    from :
        ◌≡◌ {A = String × Value} (k, v) (field, w) ⊎ In (k, v) rest
        → (k ≡ field) × (some w ≡ some v) ⊎ In (k, v) rest
    from (inl e) =
        inl (ap (λ (p : String × Value). p.0) e, ap (λ (p : String × Value). some p.1) (sym e))
    from (inr m) = inr m

    to : (k ≡ field) × (some w ≡ some v) ⊎ In (k, v) rest → In (k, v) ((field, w) ∷ rest)
    to (inl (e, q)) =
        subst (λ x. In (k, x) ((field, w) ∷ rest)) (some-injective q)
          (subst (λ x. In (x, w) ((field, w) ∷ rest)) (sym e) first)
    to (inr m) = later m

In-summarise :
    (fields : List String) (value : Summary) (k : String) (v : Value)
    → In (k, v) (summarise fields value) ↔ (In k fields × (bounded (lookup k value) ≡ some v))
unfolding summarise
In-summarise [] value k v = (λ m. elim m [ ], λ (m, _). elim m [ ])
In-summarise (field ∷ fields) value k v =
    let (f, g) = In-summarise fields value k v in
    let (p, q) = In-put field (bounded (lookup field value)) (summarise fields value) k v in
    (λ m. from f (p m), λ (m, e). q (to g (In-cons m) e))
  where
    from :
        (In (k, v) (summarise fields value) → In k fields × (bounded (lookup k value) ≡ some v))
        → (k ≡ field) × (bounded (lookup field value) ≡ some v) ⊎ In (k, v) (summarise fields value)
        → In k (field ∷ fields) × (bounded (lookup k value) ≡ some v)
    from f (inl (e, b)) = (
      subst (λ x. In x (field ∷ fields)) (sym e) first,
      subst (λ x. bounded (lookup x value) ≡ some v) (sym e) b,
    )
    from f (inr m) = let (i, b) = f m in (later i, b)

    to :
        (In k fields × (bounded (lookup k value) ≡ some v) → In (k, v) (summarise fields value))
        → (k ≡ field) ⊎ In k fields
        → bounded (lookup k value) ≡ some v
        → (k ≡ field) × (bounded (lookup field value) ≡ some v) ⊎ In (k, v) (summarise fields value)
    to g (inl e) b = inl (e, subst (λ x. bounded (lookup x value) ≡ some v) e b)
    to g (inr m) b = inr (g (m, b))

-- A summary holds exactly the listed fields whose value is no moment and nothing composite, with
-- that value, a text cut to its first 512 characters; so that each of its values is small.
pub compact_summary-In :
    (value : Summary) (k : String) (v : Value)
    → (In (k, v) (compact_summary (some value))
        ↔ (In k summary_fields × (bounded (lookup k value) ≡ some v)))
      × (In (k, v) (compact_summary (some value)) → IsSmall v)
unfolding compact_summary
compact_summary-In value k v =
    let (f, g) = In-summarise summary_fields value k v in
    ((f, g), λ m. bounded-IsSmall (lookup k value) v (f m).1)
