-- ===== src/Plan/Contract.antt =====
-- Exactly which JSON values are read as a delivery plan, and as which.
use kafa.Base.{
  ℕ, ◌≤◌, String, ◌≡◌, ◌≢◌, refl, sym, ap, ◌∙◌, subst, true, false, not, Option, none, some, ◌==◌,
  ◌↔◌, arith, eq_iff, Bool-cases, leb, nat_eq, not-eq-true, inl, inr,
}
use kafa.Base.Values.{pos, negsuc}
use kafa.Ledger.{ok, >>=-eq-ok, guard-eq-ok, ok-injective}
use kafa.Plan.Defs.{
  Json, absent, truth, whole, decimal_number, quoted, array, object, JsonMembers, DeliveryPlan,
  DeliveryPlanFailureMode, plan_keys, value_at, require_key, closed_object, utf8_length, plan_text,
  id_token, normalize_plan_id,
}
use kafa.Plan.Parse.{text_at, is_version_1, parse_test, parse_failure_mode, parse_delivery_plan}
use kafa.Plan.Reads.{HasKeys, TextIn, closed_object_iff, require_key_iff, plan_text_iff}
use kafa.Plan.Accepts.{
  TextAt, text_at_iff, IsTest, parse_test_iff, IsFailure, IsFailure-of_ok, parsed_failure,
}

parse_failure_mode_iff :
    (value : Json) (o : Option DeliveryPlanFailureMode)
    → (parse_failure_mode value ≡ ok o) ↔ IsFailure value o
unfolding parse_failure_mode closed_object
parse_failure_mode_iff absent none = (λ _. refl, λ _. refl)
parse_failure_mode_iff absent (some f) = (λ h. cc, λ i. cc (i.is_object))
parse_failure_mode_iff (object ms) none = (λ h. IsFailure-of_ok ms none h, λ e. cc)
parse_failure_mode_iff (object ms) (some f) =
    (λ h. IsFailure-of_ok ms (some f) h, λ i. parsed_failure ms f i)
parse_failure_mode_iff (truth b) none = (λ h. cc, λ e. cc)
parse_failure_mode_iff (whole n) none = (λ h. cc, λ e. cc)
parse_failure_mode_iff (decimal_number n) none = (λ h. cc, λ e. cc)
parse_failure_mode_iff (quoted s) none = (λ h. cc, λ e. cc)
parse_failure_mode_iff (array xs) none = (λ h. cc, λ e. cc)
parse_failure_mode_iff (truth b) (some f) = (λ h. cc, λ i. cc (i.is_object))
parse_failure_mode_iff (whole n) (some f) = (λ h. cc, λ i. cc (i.is_object))
parse_failure_mode_iff (decimal_number n) (some f) = (λ h. cc, λ i. cc (i.is_object))
parse_failure_mode_iff (quoted s) (some f) = (λ h. cc, λ i. cc (i.is_object))
parse_failure_mode_iff (array xs) (some f) = (λ h. cc, λ i. cc (i.is_object))

-- An id: the token of a text of the plan, not empty and not too long.
abbrev pub IdIn : Json → String → Type 0
IdIn value id =
    (raw : String) × TextIn value raw × (id ≡ id_token raw) × (id ≢ "") × (utf8_length id ≤ 128)

normalize_plan_id_iff :
    (value : Json) (id : String) → (normalize_plan_id value ≡ ok id) ↔ IdIn value id
unfolding normalize_plan_id
normalize_plan_id_iff value id = (to, from)
  where
    le_of : (n : ℕ) → leb n 128 ≡ true → n ≤ 128
    le_of n q = ground arith

    leb_of : (n : ℕ) → n ≤ 128 → leb n 128 ≡ true
    leb_of n q = ground arith

    not_empty : (s : String) → s ≢ "" → (s == "") ≡ false
    not_empty s ne = elim (Bool-cases (s == "")) [
      | inl q ↦ absurd (ne ((eq_iff s "").0 q))
      | inr q ↦ q
    ]

    to : normalize_plan_id value ≡ ok id → IdIn value id
    to h =
        let (raw, t, h₁) = >>=-eq-ok (plan_text value "delivery-plan id") _ h in
        let (usable, h₂) = guard-eq-ok (not (id_token raw == "")) _ _ h₁ in
        let (short, same) = guard-eq-ok (leb (utf8_length (id_token raw)) 128) _ _ h₂ in
        let e = sym (ok-injective same) in
        (
          raw,
          (plan_text_iff value "delivery-plan id" raw).0 t,
          e,
          (λ q. cc ((eq_iff (id_token raw) "").1 (sym e ∙ q), not-eq-true _ usable)),
          subst (λ x. utf8_length x ≤ 128) (sym e) (le_of (utf8_length (id_token raw)) short),
        )

    from : IdIn value id → normalize_plan_id value ≡ ok id
    from (raw, t, e, given, short) =
        subst (λ x. normalize_plan_id value ≡ ok x) (sym e)
          (rw
            (
              (plan_text_iff value "delivery-plan id" raw).1 t,
              not_empty (id_token raw) (λ z. given (e ∙ z)),
              leb_of (utf8_length (id_token raw)) (subst (λ x. utf8_length x ≤ 128) e short),
            )
            refl)

is_version_1_iff : (value : Json) → (is_version_1 value ≡ true) ↔ (value ≡ whole (pos 1))
is_version_1_iff (whole (pos n)) = (λ h. ap (λ x. whole (pos x)) (same n h), λ e. back n (cc e))
  where
    same : (n : ℕ) → nat_eq n 1 ≡ true → n ≡ 1
    same n h = ground arith

    back : (n : ℕ) → n ≡ 1 → nat_eq n 1 ≡ true
    back n e = ground arith
is_version_1_iff (whole (negsuc n)) = (λ h. cc, λ e. cc)
is_version_1_iff absent = (λ h. cc, λ e. cc)
is_version_1_iff (truth b) = (λ h. cc, λ e. cc)
is_version_1_iff (decimal_number n) = (λ h. cc, λ e. cc)
is_version_1_iff (quoted s) = (λ h. cc, λ e. cc)
is_version_1_iff (array xs) = (λ h. cc, λ e. cc)
is_version_1_iff (object ms) = (λ h. cc, λ e. cc)

-- The JSON value `value` is a version-1 plan with these parts.
pub record IsPlan (value : Json) (plan : DeliveryPlan) : Type 0 where
  pub members : JsonMembers
  pub is_object : value ≡ object members
  pub closed : HasKeys plan_keys members
  pub version : value_at "version" members ≡ some (whole (pos 1))
  pub test_value : Json
  pub test_at : value_at "test" members ≡ some test_value
  pub test : IsTest test_value plan.test
  pub failure_value : Json
  pub failure_at : value_at "failure_mode" members ≡ some failure_value
  pub failure : IsFailure failure_value plan.failure_mode
  pub id_value : Json
  pub id_at : value_at "id" members ≡ some id_value
  pub id : IdIn id_value plan.id
  pub goal : TextAt "goal" members plan.goal
  pub acceptance : TextAt "acceptance" members plan.acceptance
  pub task : TextAt "task" members plan.task

IsPlan-of_ok :
    (value : Json) (plan : DeliveryPlan) → parse_delivery_plan value ≡ ok plan → IsPlan value plan
unfolding parse_delivery_plan
IsPlan-of_ok value plan h =
    let (ms, c, h₁) = >>=-eq-ok (closed_object value plan_keys "delivery-plan") _ h in
    let (version, v, h₂) = >>=-eq-ok (require_key "version" ms) _ h₁ in
    let (one, h₃) = guard-eq-ok (is_version_1 version) _ _ h₂ in
    let (test_value, ta, h₄) = >>=-eq-ok (require_key "test" ms) _ h₃ in
    let (test, t, h₅) = >>=-eq-ok (parse_test test_value) _ h₄ in
    let (failure_value, fa, h₆) = >>=-eq-ok (require_key "failure_mode" ms) _ h₅ in
    let (failure_mode, f, h₇) = >>=-eq-ok (parse_failure_mode failure_value) _ h₆ in
    let (id_value, ia, h₈) = >>=-eq-ok (require_key "id" ms) _ h₇ in
    let (id, i, h₉) = >>=-eq-ok (normalize_plan_id id_value) _ h₈ in
    let (goal, g, k₁) = >>=-eq-ok (text_at "goal" "delivery-plan goal" ms) _ h₉ in
    let (acceptance, a, k₂) = >>=-eq-ok (text_at "acceptance" "delivery-plan acceptance" ms) _ k₁ in
    let (task, w, k₃) = >>=-eq-ok (text_at "task" "delivery-plan task" ms) _ k₂ in
    let (is_object, closed) = (closed_object_iff value plan_keys "delivery-plan" ms).0 c in
    subst (IsPlan value) (ok-injective k₃) (record {
      members = ms;
      is_object = is_object;
      closed = closed;
      version =
          (require_key_iff "version" ms version).0 v ∙ ap some ((is_version_1_iff version).0 one);
      test_value = test_value;
      test_at = (require_key_iff "test" ms test_value).0 ta;
      test = (parse_test_iff test_value test).0 t;
      failure_value = failure_value;
      failure_at = (require_key_iff "failure_mode" ms failure_value).0 fa;
      failure = (parse_failure_mode_iff failure_value failure_mode).0 f;
      id_value = id_value;
      id_at = (require_key_iff "id" ms id_value).0 ia;
      id = (normalize_plan_id_iff id_value id).0 i;
      goal = (text_at_iff "goal" "delivery-plan goal" ms goal).0 g;
      acceptance = (text_at_iff "acceptance" "delivery-plan acceptance" ms acceptance).0 a;
      task = (text_at_iff "task" "delivery-plan task" ms task).0 w;
    })

parsed_plan :
    (value : Json) (plan : DeliveryPlan) → IsPlan value plan → parse_delivery_plan value ≡ ok plan
unfolding parse_delivery_plan
parsed_plan value plan p =
    rw
      (
        (closed_object_iff value plan_keys "delivery-plan" p.members).1 (p.is_object, p.closed),
        (require_key_iff "version" p.members (whole (pos 1))).1 p.version,
        (require_key_iff "test" p.members p.test_value).1 p.test_at,
        (parse_test_iff p.test_value plan.test).1 p.test,
        (require_key_iff "failure_mode" p.members p.failure_value).1 p.failure_at,
        (parse_failure_mode_iff p.failure_value plan.failure_mode).1 p.failure,
        (require_key_iff "id" p.members p.id_value).1 p.id_at,
        (normalize_plan_id_iff p.id_value plan.id).1 p.id,
        (text_at_iff "goal" "delivery-plan goal" p.members plan.goal).1 p.goal,
        (text_at_iff "acceptance" "delivery-plan acceptance" p.members plan.acceptance).1
            p.acceptance,
        (text_at_iff "task" "delivery-plan task" p.members plan.task).1 p.task,
      )
      refl

-- A JSON value is read as a plan exactly if it is an object with the seven keys of a plan and no
-- others, with the integer 1 as its version, a test with its two keys and no others, no failure mode
-- or one with its seven keys and no others and a known risk, and an id that has usable characters and
-- at most 128 bytes; each text in it is quoted, and taken without the white space around it has at
-- least one character and at most 8192 bytes. The plan then has these texts.
pub parse_delivery_plan_iff :
    (value : Json) (plan : DeliveryPlan) → (parse_delivery_plan value ≡ ok plan) ↔ IsPlan value plan
parse_delivery_plan_iff value plan = (IsPlan-of_ok value plan, parsed_plan value plan)
