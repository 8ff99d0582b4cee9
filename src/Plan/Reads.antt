-- ===== src/Plan/Reads.antt =====
-- Which JSON values are closed objects, and which are texts of a plan.
use kafa.Base.{
  ℕ, ◌≤◌, String, ◌≡◌, ◌≢◌, refl, sym, ap, ◌∙◌, subst, true, false, not, ◌&&◌, Option, none, some,
  List, [], ◌∷◌, ◌==◌, inl, inr, ◌↔◌, arith, eq_iff, Bool-cases, leb, is_empty, and-eq-true_iff,
  not-eq-true,
}
use kafa.Base.Text.{strip}
use kafa.Base.Sets.{contains}
use kafa.Ledger.{ok, err, guard-eq-ok, ok-injective, key_error}
use kafa.Plan.Defs.{
  Json, absent, truth, whole, decimal_number, quoted, array, object, JsonMembers, keys, value_at,
  require_key, without, closed_object, utf8_length, plan_text,
}

-- The members have the expected keys and no others.
abbrev pub HasKeys : List String → JsonMembers → Type 0
HasKeys expected members =
    (k : String) → (contains expected k ≡ true) ↔ (contains (keys members) k ≡ true)

without-nil :
    (xs ys : List String)
    → is_empty (without xs ys) ≡ true
    → (k : String) → contains xs k ≡ true
    → contains ys k ≡ true
unfolding contains
without-nil [] ys e k c = cc
without-nil (x ∷ xs) ys e k c = elim (Bool-cases (contains ys x)) [
  | inr n ↦ absurd (cc (rw n at e))
  | inl p ↦ elim (Bool-cases (x == k)) [
    | inl q ↦ subst (λ z. contains ys z ≡ true) ((eq_iff x k).0 q) p
    | inr q ↦ without-nil xs ys (rw p at e) k (rw q at c)
  ]
]

nil-without :
    (xs ys : List String)
    → ((k : String) → contains xs k ≡ true → contains ys k ≡ true)
    → is_empty (without xs ys) ≡ true
unfolding contains
nil-without [] ys h = refl
nil-without (x ∷ xs) ys h =
    rw (h x (rw ((eq_iff x x).1 refl) refl)) (nil-without xs ys (λ k c. h k (rw c (ground arith))))

pub closed_object_iff :
    (value : Json) (expected : List String) (label : String) (members : JsonMembers)
    → (closed_object value expected label ≡ ok members)
      ↔ ((value ≡ object members) × HasKeys expected members)
unfolding closed_object
closed_object_iff (object ms) expected label members = (to, from)
  where
    to :
        closed_object (object ms) expected label ≡ ok members
        → (object ms ≡ object members) × HasKeys expected members
    to h =
        let (tests, same) =
          guard-eq-ok
            (is_empty (without expected (keys ms)) && is_empty (without (keys ms) expected)) _ _
            h in
        let (a, b) = (and-eq-true_iff _ _).0 tests in
        let e = ok-injective same in
        (
          ap object e,
          subst (HasKeys expected) e
              (λ k. (without-nil expected (keys ms) a k, without-nil (keys ms) expected b k)),
        )

    from :
        (object ms ≡ object members) × HasKeys expected members
        → closed_object (object ms) expected label ≡ ok members
    from (e, same) =
        let q : members ≡ ms = cc e in
        let f : HasKeys expected ms = subst (HasKeys expected) q same in
        rw
          (
            nil-without expected (keys ms) (λ k. (f k).0),
            nil-without (keys ms) expected (λ k. (f k).1),
          )
          (cc q)
closed_object_iff absent expected label members = (λ h. cc, λ (e, _). cc)
closed_object_iff (truth b) expected label members = (λ h. cc, λ (e, _). cc)
closed_object_iff (whole n) expected label members = (λ h. cc, λ (e, _). cc)
closed_object_iff (decimal_number n) expected label members = (λ h. cc, λ (e, _). cc)
closed_object_iff (quoted s) expected label members = (λ h. cc, λ (e, _). cc)
closed_object_iff (array xs) expected label members = (λ h. cc, λ (e, _). cc)

pub require_key_iff :
    (key : String) (members : JsonMembers) (value : Json)
    → (require_key key members ≡ ok value) ↔ (value_at key members ≡ some value)
unfolding require_key
require_key_iff key members value = by_lookup (value_at key members)
  where
    by_lookup :
        (o : Option Json)
        → ((elim o [ none ↦ err (key_error key) | some v ↦ ok v ]) ≡ ok value) ↔ (o ≡ some value)
    by_lookup none = (λ h. cc, λ h. cc)
    by_lookup (some v) = (λ h. ap some (ok-injective h), λ h. cc)

-- A text of the plan: what is quoted, less the white space around it, not empty and not too long.
abbrev pub TextIn : Json → String → Type 0
TextIn value t =
    (raw : String) × (value ≡ quoted raw) × (t ≡ strip raw) × (t ≢ "") × (utf8_length t ≤ 8192)

pub plan_text_iff :
    (value : Json) (label t : String) → (plan_text value label ≡ ok t) ↔ TextIn value t
unfolding plan_text
plan_text_iff (quoted s) label t = (to, from)
  where
    to : plan_text (quoted s) label ≡ ok t → TextIn (quoted s) t
    to h =
        let (given, h₁) = guard-eq-ok (not (strip s == "")) _ _ h in
        let (short, same) = guard-eq-ok (leb (utf8_length (strip s)) 8192) _ _ h₁ in
        let e = sym (ok-injective same) in
        (
          s,
          refl,
          e,
          (λ q. cc ((eq_iff (strip s) "").1 (sym e ∙ q), not-eq-true _ given)),
          subst (λ x. utf8_length x ≤ 8192) (sym e) (le_of (utf8_length (strip s)) short),
        )
      where
        le_of : (n : ℕ) → leb n 8192 ≡ true → n ≤ 8192
        le_of n q = ground arith

    from : TextIn (quoted s) t → plan_text (quoted s) label ≡ ok t
    from (raw, e, trimmed, given, short) =
        let q : raw ≡ s = cc e in
        let at : t ≡ strip s = trimmed ∙ ap strip q in
        subst (λ x. plan_text (quoted s) label ≡ ok x) (sym at)
          (rw
            (
              not_empty (λ z. given (at ∙ z)),
              leb_of (utf8_length (strip s)) (subst (λ x. utf8_length x ≤ 8192) at short),
            )
            refl)
      where
        leb_of : (n : ℕ) → n ≤ 8192 → leb n 8192 ≡ true
        leb_of n q = ground arith

        not_empty : strip s ≢ "" → (strip s == "") ≡ false
        not_empty ne = elim (Bool-cases (strip s == "")) [
          | inl q ↦ absurd (ne ((eq_iff (strip s) "").0 q))
          | inr q ↦ q
        ]
plan_text_iff absent label t = (λ h. cc, λ (r, e, a, b, c). cc)
plan_text_iff (truth b) label t = (λ h. cc, λ (r, e, a, b, c). cc)
plan_text_iff (whole n) label t = (λ h. cc, λ (r, e, a, b, c). cc)
plan_text_iff (decimal_number n) label t = (λ h. cc, λ (r, e, a, b, c). cc)
plan_text_iff (array xs) label t = (λ h. cc, λ (r, e, a, b, c). cc)
plan_text_iff (object ms) label t = (λ h. cc, λ (r, e, a, b, c). cc)
