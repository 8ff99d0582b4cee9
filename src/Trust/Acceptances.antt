-- ===== src/Trust/Acceptances.antt =====
-- When a risk acceptance has no issue.
use kafa.Base.{
  ℕ, ◌<◌, String, ◌≡◌, refl, subst, Bool, true, false, Option, none, some, List, [], ◌∷◌,
  if◌then◌else◌, find, is_empty, is_empty-eq_true, ◌↔◌, arith, All, Bool-cases, inl, inr, ◌⊎◌,
}
use kafa.Base.Text.{strip, lower}
use kafa.Base.Members.{append-eq-nil, when-eq-nil}
use kafa.Base.Values.{Value, text_or_empty, is_absent}
use kafa.Trust.Defs.{
  IsoParser, positive_integer, timestamp, RiskAcceptance, Issue, is_accepted_status, status_issues,
  stale_issues, expiry_issues, dated_issues, missing_fields, absent_field, requirement_issues,
  each_requirement, acceptance_issues, by_id, by_risk, high_levels,
}

-- A risk acceptance that still counts: accepted or exempt, complete, of the current revision (where
-- there is one), and not expired.
pub record Counts (parse : IsoParser) (now : ℕ) (current : Option ℕ) (a : RiskAcceptance)
    : Type 0 where
  pub approved : is_accepted_status (lower (strip (text_or_empty a.status))) ≡ true
  pub actor : is_absent a.actor ≡ false
  pub reason : is_absent a.reason ≡ false
  pub scope : is_absent a.scope ≡ false
  pub revision_given : is_absent a.revision ≡ false
  pub expiry_given : is_absent a.expires_at ≡ false
  pub revision : ℕ
  pub revision_at : positive_integer a.revision ≡ some revision
  pub fresh : (c : ℕ) → current ≡ some c → revision ≡ c
  pub expiry : ℕ
  pub expiry_at : timestamp parse a.expires_at ≡ some expiry
  pub not_expired : now < expiry

nil_stale :
    (key : String) (r : ℕ) (current : Option ℕ)
    → ((c : ℕ) → current ≡ some c → r ≡ c)
    → stale_issues key r current ≡ []
nil_stale key r none h = refl
nil_stale key r (some c) h = ground (arith, h c refl)

module _ (parse : IsoParser) (now : ℕ) (current : Option ℕ) (key : String) where
  missing_nil :
      (a : RiskAcceptance)
      → missing_fields a ≡ []
      → (is_absent a.actor ≡ false)
        × (is_absent a.reason ≡ false)
        × (is_absent a.scope ≡ false)
        × (is_absent a.revision ≡ false)
        × (is_absent a.expires_at ≡ false)
  unfolding missing_fields
  missing_nil a h =
      let (h₁, r₁) = append-eq-nil (absent_field "actor" a.actor) _ h in
      let (h₂, r₂) = append-eq-nil (absent_field "reason" a.reason) _ r₁ in
      let (h₃, r₃) = append-eq-nil (absent_field "scope" a.scope) _ r₂ in
      let (h₄, h₅) =
        append-eq-nil (absent_field "revision" a.revision) (absent_field "expires_at" a.expires_at)
          r₃ in
      (
        when-eq-nil _ _ h₁,
        when-eq-nil _ _ h₂,
        when-eq-nil _ _ h₃,
        when-eq-nil _ _ h₄,
        when-eq-nil _ _ h₅,
      )

  stale_nil :
      (revision : ℕ)
      → stale_issues key revision current ≡ []
      → (c : ℕ) → current ≡ some c
      → revision ≡ c
  stale_nil revision h c e = ground arith

  expiry_nil :
      (v : Value) (o : Option ℕ)
      → expiry_issues key now v o ≡ []
      → (t : ℕ) × (o ≡ some t) × (now < t)
  expiry_nil v none h = cc
  expiry_nil v (some t) h = (t, refl, ground arith)

  dated_nil :
      (a : RiskAcceptance) (o : Option ℕ)
      → dated_issues parse key now current a o ≡ []
      → (r : ℕ) × (o ≡ some r)
        × (stale_issues key r current ≡ [])
        × (expiry_issues key now a.expires_at (timestamp parse a.expires_at) ≡ [])
  dated_nil a none h = cc
  dated_nil a (some r) h =
      let (s, e) = append-eq-nil (stale_issues key r current) _ h in (r, refl, s, e)

  Counts-of_nil :
      (a : RiskAcceptance)
      → requirement_issues parse now current key (some a) ≡ []
      → Counts parse now current a
  unfolding requirement_issues
  Counts-of_nil a h =
      let (s, m) = append-eq-nil (status_issues key a) _ h in
      complete s (Bool-cases (is_empty (missing_fields a))) m
    where
      complete :
          status_issues key a ≡ []
          → (is_empty (missing_fields a) ≡ true) ⊎ (is_empty (missing_fields a) ≡ false)
          → (if is_empty (missing_fields a)
              then dated_issues parse key now current a (positive_integer a.revision)
              else Issue.incomplete key (missing_fields a) ∷ [])
            ≡ []
          → Counts parse now current a
      complete s (inr e) m = absurd (cc (rw e at m))
      complete s (inl e) m =
          let (actor, reason, scope, given, expires) = missing_nil a (is_empty-eq_true _ e) in
          let (r, ra, st, ex) = dated_nil a (positive_integer a.revision) (rw e at m) in
          let (t, ta, lt) = expiry_nil a.expires_at (timestamp parse a.expires_at) ex in
          record {
            approved = ground (arith, s);
            actor = actor;
            reason = reason;
            scope = scope;
            revision_given = given;
            expiry_given = expires;
            revision = r;
            revision_at = ra;
            fresh = stale_nil r st;
            expiry = t;
            expiry_at = ta;
            not_expired = lt;
          }

  nil_of_Counts :
      (a : RiskAcceptance)
      → Counts parse now current a
      → requirement_issues parse now current key (some a) ≡ []
  unfolding requirement_issues missing_fields
  nil_of_Counts a c =
      rw
        (
          c.approved, c.actor, c.reason, c.scope, c.revision_given, c.expiry_given, c.revision_at,
          c.expiry_at,
        )
        (rw (nil_stale key c.revision current c.fresh) (ground (arith, c.not_expired)))

  none_issue : requirement_issues parse now current key none ≡ [] → ⊥
  unfolding requirement_issues
  none_issue h = cc

  pub requirement_issues-nil_iff :
      (o : Option RiskAcceptance)
      → (requirement_issues parse now current key o ≡ [])
        ↔ ((a : RiskAcceptance) × (o ≡ some a) × Counts parse now current a)
  requirement_issues-nil_iff none = (λ h. absurd (none_issue h), λ (a, e, _). absurd (cc e))
  requirement_issues-nil_iff (some a) = (
    λ h. (a, refl, Counts-of_nil a h),
    λ (b, e, c). nil_of_Counts a (subst (Counts parse now current) (cc e) c),
  )

-- Every key has its acceptance, the first that the test finds, and it counts.
abbrev pub AllCount :
    IsoParser
    → ℕ
    → Option ℕ
    → (String → RiskAcceptance → Bool)
    → List RiskAcceptance
    → List String
    → Type 0
AllCount parse now current test acceptances keys =
    All
      (λ key.
        (a : RiskAcceptance) × (find (test key) acceptances ≡ some a) × Counts parse now current a)
      keys

each_requirement-nil_iff :
    (parse : IsoParser) (now : ℕ) (current : Option ℕ) (test : String → RiskAcceptance → Bool)
    (acceptances : List RiskAcceptance) (keys : List String)
    → (each_requirement parse now current test acceptances keys ≡ [])
      ↔ AllCount parse now current test acceptances keys
unfolding each_requirement
each_requirement-nil_iff parse now current test acceptances [] = (λ _. tt, λ _. refl)
each_requirement-nil_iff parse now current test acceptances (key ∷ keys) =
    let one = requirement_issues-nil_iff parse now current key (find (test key) acceptances) in
    let rest = each_requirement-nil_iff parse now current test acceptances keys in
    (
      λ h.
          let (a, b) =
            append-eq-nil (requirement_issues parse now current key (find (test key) acceptances)) _
              h in
          (one.0 a, rest.0 b),
      λ (a, b). rw (one.1 a, rest.1 b) refl,
    )

-- What the policy asks acceptances for: the required ids, or else the high levels.
abbrev pub RisksCount :
    IsoParser
    → (levels : List String) → List RiskAcceptance
    → (required : List String) → ℕ
    → Option ℕ
    → Type 0
RisksCount parse levels acceptances required now current =
    if is_empty required
    then AllCount parse now current by_risk acceptances (high_levels levels)
    else AllCount parse now current by_id acceptances required

-- The acceptances have no issue exactly if each required id, or with no required id each high or
-- critical level at hand, has an acceptance, the first for it, that is accepted or exempt, complete,
-- of the current project revision and not expired.
pub acceptance_issues-nil_iff :
    (parse : IsoParser) (levels : List String) (acceptances : List RiskAcceptance)
    (required : List String) (now : ℕ) (current : Option ℕ)
    → (acceptance_issues parse levels acceptances required now current ≡ [])
      ↔ RisksCount parse levels acceptances required now current
unfolding acceptance_issues
acceptance_issues-nil_iff parse levels acceptances [] now current =
    each_requirement-nil_iff parse now current by_risk acceptances (high_levels levels)
acceptance_issues-nil_iff parse levels acceptances (key ∷ keys) now current =
    each_requirement-nil_iff parse now current by_id acceptances (key ∷ keys)
