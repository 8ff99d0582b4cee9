-- ===== src/Delivery/Levels.antt =====
-- What the trust policy of core/delivery.py sees of the levels and of the required ids that it is
-- given.
use kafa.Base.{
  String, ◌≡◌, refl, subst, Bool, true, false, ◌||◌, some, List, [], ◌∷◌, ◌==◌, inl, inr,
  Bool-cases, eq_iff, arith, All, find, map,
}
use kafa.Base.Text.{strip, lower}
use kafa.Base.Sets.{contains, contains-to_set}
use kafa.Base.Members.{In, first, later, In-map}
use kafa.Trust.Defs.{IsoParser, RiskAcceptance, by_id, is_high}
use kafa.Trust.Policy.{TrustInput, levels, required, high_risk, non_blank}
use kafa.Trust.Acceptances.{Counts, RisksCount}
use kafa.Trust.Approval.{HighApproval}

In-contains : (xs : List String) (x : String) → In x xs → contains xs x ≡ true
unfolding contains
In-contains [] x m = elim m [ ]
In-contains (y ∷ ys) x first = rw ((eq_iff y y).1 refl) refl
In-contains (y ∷ ys) x (later m) = ground (arith, In-contains ys x m)

contains-In : (xs : List String) (x : String) → contains xs x ≡ true → In x xs
unfolding contains
contains-In [] x h = cc
contains-In (y ∷ ys) x h = elim (Bool-cases (y == x)) [
  | inl e ↦ subst (λ z. In z (y ∷ ys)) ((eq_iff y x).0 e) first
  | inr e ↦ later (contains-In ys x (rw e at h))
]

In-non_blank :
    (xs : List String) (x : String)
    → In x xs
    → (strip x == "") ≡ false
    → In (strip x) (non_blank xs)
In-non_blank [] x m e = elim m [ ]
In-non_blank (y ∷ ys) x first e = rw e first
In-non_blank (y ∷ ys) x (later m) e = elim (Bool-cases (strip y == "")) [
  | inl q ↦ rw q (In-non_blank ys x m e)
  | inr q ↦ rw q (later (In-non_blank ys x m e))
]

All-In {ℓ κ} : {A : Type ℓ} (P : A → Type κ) (xs : List A) {x : A} → All P xs → In x xs → P x
All-In P [] a m = elim m [ ]
All-In P (y ∷ ys) (p, a) first = p
All-In P (y ∷ ys) (p, a) (later m) = All-In P ys a m

-- A level or an id that is given is one that the trust policy sees.
level-contains :
    (i : TrustInput) (s : String)
    → In s i.risk_levels
    → (strip s == "") ≡ false
    → contains (levels i) (lower (strip s)) ≡ true
unfolding levels
level-contains i s m e =
    rw (contains-to_set (map lower (non_blank i.risk_levels)) (lower (strip s)))
      (In-contains _ _ (In-map lower (non_blank i.risk_levels) (In-non_blank i.risk_levels s m e)))

pub required-contains :
    (i : TrustInput) (s : String)
    → In s i.required_risk_ids
    → (strip s == "") ≡ false
    → contains (required i) (strip s) ≡ true
unfolding required
required-contains i s m e =
    rw (contains-to_set (non_blank i.required_risk_ids) (strip s))
      (In-contains _ _ (In-non_blank i.required_risk_ids s m e))

pub high_level-high_risk :
    (i : TrustInput) (s : String) → In s i.risk_levels → is_high s ≡ true → high_risk i ≡ true
unfolding high_risk strip lower
high_level-high_risk i s m h = elim (Bool-cases (s == "critical")) [
  | inl e ↦
      rw (level-contains i "critical" (subst (λ x. In x i.risk_levels) ((eq_iff _ _).0 e) m) refl)
        refl
  | inr e ↦ or_right (contains (levels i) "critical") _ (
      level-contains i "high"
        (subst (λ x. In x i.risk_levels) ((eq_iff _ _).0 (right_of _ _ e h)) m) refl)
]
  where
    right_of : (a b : Bool) → a ≡ false → (a || b) ≡ true → b ≡ true
    right_of a b e h = ground arith

    or_right : (a b : Bool) → b ≡ true → (a || b) ≡ true
    or_right a b e = ground arith

none_held : (key : String) → contains [] key ≡ true → ⊥
unfolding contains
none_held key h = cc

-- At high or critical risk, each required id has an acceptance that counts.
pub required-Counts :
    (parse : IsoParser) (i : TrustInput) (a : HighApproval parse i) (key : String)
    → contains (required i) key ≡ true
    → (r : RiskAcceptance) × (find (by_id key) i.risk_acceptances ≡ some r)
      × Counts parse a.now (some a.revision) r
required-Counts parse i a key c = by_required (required i) a.risks c
  where
    by_required :
        (ids : List String)
        → RisksCount parse (levels i) i.risk_acceptances ids a.now (some a.revision)
        → contains ids key ≡ true
        → (r : RiskAcceptance) × (find (by_id key) i.risk_acceptances ≡ some r)
          × Counts parse a.now (some a.revision) r
    by_required [] r c = absurd (none_held key c)
    by_required (k ∷ ks) r c = All-In _ (k ∷ ks) r (contains-In (k ∷ ks) key c)
