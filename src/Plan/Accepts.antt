-- ===== src/Plan/Accepts.antt =====
-- Which JSON values are read as the test and as the failure mode of a plan.
use kafa.Base.{String, ◌≡◌, refl, subst, true, Option, none, some, ◌↔◌}
use kafa.Base.Sets.{contains}
use kafa.Ledger.{ok, >>=-eq-ok, guard-eq-ok, ok-injective}
use kafa.Plan.Defs.{
  Json, absent, object, JsonMembers, DeliveryPlanTest, DeliveryPlanFailureMode, test_keys,
  failure_mode_keys, risk_values, value_at, require_key, closed_object,
}
use kafa.Plan.Parse.{text_at, parse_test, parse_failure_mode}
use kafa.Plan.Reads.{HasKeys, TextIn, closed_object_iff, require_key_iff, plan_text_iff}

abbrev pub TextAt : String → JsonMembers → String → Type 0
TextAt key members t = (value : Json) × (value_at key members ≡ some value) × TextIn value t

pub text_at_iff :
    (key label : String) (members : JsonMembers) (t : String)
    → (text_at key label members ≡ ok t) ↔ TextAt key members t
text_at_iff key label members t = (
  λ h.
      let (v, e, h₁) = >>=-eq-ok (require_key key members) _ h in
      (v, (require_key_iff key members v).0 e, (plan_text_iff v label t).0 h₁),
  λ (v, e, i). rw ((require_key_iff key members v).1 e) ((plan_text_iff v label t).1 i),
)

pub record IsTest (value : Json) (test : DeliveryPlanTest) : Type 0 where
  pub members : JsonMembers
  pub is_object : value ≡ object members
  pub closed : HasKeys test_keys members
  pub kind : TextAt "kind" members test.kind
  pub command : TextAt "command" members test.command

pub parse_test_iff :
    (value : Json) (test : DeliveryPlanTest) → (parse_test value ≡ ok test) ↔ IsTest value test
unfolding parse_test
parse_test_iff value test = (to, from)
  where
    to : parse_test value ≡ ok test → IsTest value test
    to h =
        let (ms, c, h₁) = >>=-eq-ok (closed_object value test_keys "delivery-plan test") _ h in
        let (kind, k, h₂) = >>=-eq-ok (text_at "kind" "delivery-plan test.kind" ms) _ h₁ in
        let (command, m, h₃) = >>=-eq-ok (text_at "command" "delivery-plan test.command" ms) _ h₂ in
        let (o, closed) = (closed_object_iff value test_keys "delivery-plan test" ms).0 c in
        subst (IsTest value) (ok-injective h₃) (record {
          members = ms;
          is_object = o;
          closed = closed;
          kind = (text_at_iff "kind" "delivery-plan test.kind" ms kind).0 k;
          command = (text_at_iff "command" "delivery-plan test.command" ms command).0 m;
        })

    from : IsTest value test → parse_test value ≡ ok test
    from i =
        rw
          (
            (closed_object_iff value test_keys "delivery-plan test" i.members).1
                (i.is_object, i.closed),
            (text_at_iff "kind" "delivery-plan test.kind" i.members test.kind).1 i.kind,
            (text_at_iff "command" "delivery-plan test.command" i.members test.command).1 i.command,
          )
          refl

pub record IsFailureMode (value : Json) (f : DeliveryPlanFailureMode) : Type 0 where
  pub members : JsonMembers
  pub is_object : value ≡ object members
  pub closed : HasKeys failure_mode_keys members
  pub risk : TextAt "risk" members f.risk
  pub risk_known : contains risk_values f.risk ≡ true
  pub feature : TextAt "feature" members f.feature
  pub scenario : TextAt "scenario" members f.scenario
  pub trigger : TextAt "trigger" members f.trigger
  pub expected : TextAt "expected" members f.expected
  pub recovery : TextAt "recovery" members f.recovery
  pub data_safety : TextAt "data_safety" members f.data_safety

-- No failure mode, or one.
abbrev pub IsFailure : Json → Option DeliveryPlanFailureMode → Type 0
IsFailure value none = value ≡ absent
IsFailure value (some f) = IsFailureMode value f

pub IsFailure-of_ok :
    (members : JsonMembers) (o : Option DeliveryPlanFailureMode)
    → parse_failure_mode (object members) ≡ ok o
    → IsFailure (object members) o
unfolding parse_failure_mode
IsFailure-of_ok members o h =
    let (ms, c, h₁) =
      >>=-eq-ok (closed_object (object members) failure_mode_keys "delivery-plan failure_mode") _
        h in
    let (risk, r, h₂) = >>=-eq-ok (text_at "risk" "delivery-plan failure_mode.risk" ms) _ h₁ in
    let (known, h₃) = guard-eq-ok (contains risk_values risk) _ _ h₂ in
    let (feature, f, h₄) =
      >>=-eq-ok (text_at "feature" "delivery-plan failure_mode.feature" ms) _ h₃ in
    let (scenario, s, h₅) =
      >>=-eq-ok (text_at "scenario" "delivery-plan failure_mode.scenario" ms) _ h₄ in
    let (trigger, t, h₆) =
      >>=-eq-ok (text_at "trigger" "delivery-plan failure_mode.trigger" ms) _ h₅ in
    let (expected, e, h₇) =
      >>=-eq-ok (text_at "expected" "delivery-plan failure_mode.expected" ms) _ h₆ in
    let (recovery, y, h₈) =
      >>=-eq-ok (text_at "recovery" "delivery-plan failure_mode.recovery" ms) _ h₇ in
    let (data_safety, d, h₉) =
      >>=-eq-ok (text_at "data_safety" "delivery-plan failure_mode.data_safety" ms) _ h₈ in
    let (is_object, closed) =
      (closed_object_iff (object members) failure_mode_keys "delivery-plan failure_mode" ms).0 c in
    subst (IsFailure (object members)) (ok-injective h₉) (record {
      members = ms;
      is_object = is_object;
      closed = closed;
      risk = (text_at_iff "risk" "delivery-plan failure_mode.risk" ms risk).0 r;
      risk_known = known;
      feature = (text_at_iff "feature" "delivery-plan failure_mode.feature" ms feature).0 f;
      scenario = (text_at_iff "scenario" "delivery-plan failure_mode.scenario" ms scenario).0 s;
      trigger = (text_at_iff "trigger" "delivery-plan failure_mode.trigger" ms trigger).0 t;
      expected = (text_at_iff "expected" "delivery-plan failure_mode.expected" ms expected).0 e;
      recovery = (text_at_iff "recovery" "delivery-plan failure_mode.recovery" ms recovery).0 y;
      data_safety =
          (text_at_iff "data_safety" "delivery-plan failure_mode.data_safety" ms data_safety).0 d;
    })

pub parsed_failure :
    (members : JsonMembers) (f : DeliveryPlanFailureMode)
    → IsFailureMode (object members) f
    → parse_failure_mode (object members) ≡ ok (some f)
unfolding parse_failure_mode
parsed_failure members f i =
    rw
      (
        (closed_object_iff (object members) failure_mode_keys "delivery-plan failure_mode"
              i.members).1
            (i.is_object, i.closed),
        (text_at_iff "risk" "delivery-plan failure_mode.risk" i.members f.risk).1 i.risk,
        i.risk_known,
        (text_at_iff "feature" "delivery-plan failure_mode.feature" i.members f.feature).1
            i.feature,
        (text_at_iff "scenario" "delivery-plan failure_mode.scenario" i.members f.scenario).1
            i.scenario,
        (text_at_iff "trigger" "delivery-plan failure_mode.trigger" i.members f.trigger).1
            i.trigger,
        (text_at_iff "expected" "delivery-plan failure_mode.expected" i.members f.expected).1
            i.expected,
        (text_at_iff "recovery" "delivery-plan failure_mode.recovery" i.members f.recovery).1
            i.recovery,
        (text_at_iff "data_safety" "delivery-plan failure_mode.data_safety" i.members
              f.data_safety).1
            i.data_safety,
      )
      refl
