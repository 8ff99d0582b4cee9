-- ===== src/Trust/Defs.antt =====
-- Time stamps, risk acceptances and the issues that they have.
use kafa.Base.{
  ℕ, String, Bool, not, ◌||◌, Option, none, some, List, [], ◌∷◌, ◌++◌, ◌==◌, if◌then◌else◌, leb,
  nat_eq, find, is_empty, when,
}
use kafa.Base.Text.{strip, lower, replace_z}
use kafa.Base.Sets.{contains}
use kafa.Base.Values.{Value, integer, str, moment, pos, text_or_empty, is_absent}

-- `datetime.fromisoformat`, read in UTC; `none` is a `ValueError`.
abbrev pub IsoParser : Type 0
IsoParser = String → Option ℕ

-- `_positive_integer`; a Boolean is no integer here
unfoldable pub positive_integer : Value → Option ℕ
positive_integer (integer (pos n)) = if nat_eq n 0 then none else some n
positive_integer _ = none

-- `_timestamp`
unfoldable pub timestamp : IsoParser → Value → Option ℕ
timestamp parse (moment utc _) = some utc
timestamp parse (str s) = if strip s == "" then none else parse (replace_z (strip s))
timestamp parse _ = none

-- The keys that the policy reads from the mapping of a risk acceptance; a missing key is `null`.
pub record RiskAcceptance : Type 0 where
  pub risk_id : Value
  pub failure_mode_id : Value
  pub id : Value
  pub risk : Value
  pub status : Value
  pub actor : Value
  pub reason : Value
  pub scope : Value
  pub revision : Value
  pub expires_at : Value

abbrev first_text : Value → String → String
first_text v later = let s = strip (text_or_empty v) in if s == "" then later else s

-- `_risk_key`
unfoldable pub risk_key : RiskAcceptance → String
risk_key a = first_text a.risk_id (first_text a.failure_mode_id (first_text a.id ""))

pub data Issue : Type 0 where
  record_missing : (key : String) → Issue
  not_accepted : (key status : String) → Issue
  incomplete : (key : String) (missing : List String) → Issue
  revision_invalid : (key : String) → Issue
  revision_stale : (key : String) (accepted current : ℕ) → Issue
  expiry_invalid : (key : String) → Issue
  expired : (key : String) (expires_at : Value) → Issue

abbrev pub absent_field : String → Value → List String
absent_field name v = when (is_absent v) (name ∷ [])

-- the fields that are required and missing
unfoldable pub missing_fields : RiskAcceptance → List String
missing_fields a =
    absent_field "actor" a.actor
    ++ (absent_field "reason" a.reason
        ++ (absent_field "scope" a.scope
            ++ (absent_field "revision" a.revision ++ absent_field "expires_at" a.expires_at)))

-- `{"accepted", "exempt"}`
abbrev pub is_accepted_status : String → Bool
is_accepted_status s = s == "accepted" || s == "exempt"

abbrev pub status_issues : String → RiskAcceptance → List Issue
status_issues key a =
    let status = lower (strip (text_or_empty a.status)) in
    when (not (is_accepted_status status)) (not_accepted key status ∷ [])

abbrev pub stale_issues : String → ℕ → Option ℕ → List Issue
stale_issues key revision none = []
stale_issues key revision (some current) =
    when (not (nat_eq revision current)) (revision_stale key revision current ∷ [])

abbrev pub expiry_issues : String → ℕ → Value → Option ℕ → List Issue
expiry_issues key now v none = expiry_invalid key ∷ []
expiry_issues key now v (some expiry) = when (leb expiry now) (expired key v ∷ [])

abbrev pub dated_issues : IsoParser → String → ℕ → Option ℕ → RiskAcceptance → Option ℕ → List Issue
dated_issues parse key now current a none = revision_invalid key ∷ []
dated_issues parse key now current a (some revision) =
    stale_issues key revision current
    ++ expiry_issues key now a.expires_at (timestamp parse a.expires_at)

-- one round of the loop of `_acceptance_issues`
unfoldable pub requirement_issues :
    IsoParser → ℕ → Option ℕ → String → Option RiskAcceptance → List Issue
unfolding missing_fields
requirement_issues parse now current key none = record_missing key ∷ []
requirement_issues parse now current key (some a) =
    status_issues key a
    ++ (if is_empty (missing_fields a)
        then dated_issues parse key now current a (positive_integer a.revision)
        else incomplete key (missing_fields a) ∷ [])

abbrev pub by_id : String → RiskAcceptance → Bool
by_id key a = risk_key a == key

abbrev pub by_risk : String → RiskAcceptance → Bool
by_risk key a = lower (strip (text_or_empty a.risk)) == key

-- `HIGH_RISK_LEVELS`, in the order of `sorted`
abbrev pub is_high : String → Bool
is_high s = s == "critical" || s == "high"

abbrev pub high_levels : List String → List String
high_levels levels =
    when (contains levels "critical") ("critical" ∷ [])
    ++ when (contains levels "high") ("high" ∷ [])

unfoldable pub each_requirement :
    IsoParser
    → ℕ
    → Option ℕ
    → (String → RiskAcceptance → Bool)
    → List RiskAcceptance
    → List String
    → List Issue
unfolding requirement_issues
each_requirement parse now current test acceptances [] = []
each_requirement parse now current test acceptances (key ∷ keys) =
    requirement_issues parse now current key (find (test key) acceptances)
    ++ each_requirement parse now current test acceptances keys

-- `_acceptance_issues`: `required` is a sorted set. With no required id the levels are the keys.
unfoldable pub acceptance_issues :
    IsoParser
    → (levels : List String) → List RiskAcceptance
    → (required : List String) → ℕ
    → Option ℕ
    → List Issue
unfolding each_requirement risk_key
acceptance_issues parse levels acceptances required now current =
    if is_empty required
    then each_requirement parse now current by_risk acceptances (high_levels levels)
    else each_requirement parse now current by_id acceptances required
