-- ===== src/Plan/Parse.antt =====
-- `parse_delivery_plan`, `derive_plan_ids`, `plan_ids` and `planned_mutations` of
-- core/delivery_plan.py.
use kafa.Base.{
  String, Bool, false, Option, none, some, List, [], ◌∷◌, ◌++◌, ◌==◌, if◌then◌else◌, nat_eq,
}
use kafa.Base.Sets.{contains}
use kafa.Base.Values.{pos}
use kafa.Ledger.{Result, ok, guard, ◌>>=◌, ◌>>◌, plan_version_invalid, plan_risk_invalid}
use kafa.Plan.Defs.{
  Json, absent, whole, quoted, JsonMembers, DeliveryPlan, DeliveryPlanTest, DeliveryPlanFailureMode,
  plan_keys, test_keys, failure_mode_keys, risk_values, require_key, closed_object, plan_text,
  normalize_plan_id, id_token,
}

-- `_text(members[key], label)`
abbrev pub text_at : String → (label : String) → JsonMembers → Result String
text_at key label members = do value ← require_key key members; plan_text value label

abbrev pub is_version_1 : Json → Bool
is_version_1 (whole (pos n)) = nat_eq n 1
is_version_1 _ = false

unfoldable pub parse_test : Json → Result DeliveryPlanTest
parse_test value = do
  members ← closed_object value test_keys "delivery-plan test"
  kind ← text_at "kind" "delivery-plan test.kind" members
  command ← text_at "command" "delivery-plan test.command" members
  ok (record { kind = kind; command = command })

unfoldable pub parse_failure_mode : Json → Result (Option DeliveryPlanFailureMode)
parse_failure_mode absent = ok none
parse_failure_mode value = do
  failure ← closed_object value failure_mode_keys "delivery-plan failure_mode"
  risk ← text_at "risk" "delivery-plan failure_mode.risk" failure
  guard (contains risk_values risk) plan_risk_invalid
  feature ← text_at "feature" "delivery-plan failure_mode.feature" failure
  scenario ← text_at "scenario" "delivery-plan failure_mode.scenario" failure
  trigger ← text_at "trigger" "delivery-plan failure_mode.trigger" failure
  expected ← text_at "expected" "delivery-plan failure_mode.expected" failure
  recovery ← text_at "recovery" "delivery-plan failure_mode.recovery" failure
  data_safety ← text_at "data_safety" "delivery-plan failure_mode.data_safety" failure
  ok (
      some (record {
        feature = feature;
        scenario = scenario;
        trigger = trigger;
        expected = expected;
        risk = risk;
        recovery = recovery;
        data_safety = data_safety;
      }))

unfoldable pub parse_delivery_plan : Json → Result DeliveryPlan
parse_delivery_plan value = do
  document ← closed_object value plan_keys "delivery-plan"
  version ← require_key "version" document
  guard (is_version_1 version) plan_version_invalid
  test_value ← require_key "test" document
  test ← parse_test test_value
  failure_value ← require_key "failure_mode" document
  failure_mode ← parse_failure_mode failure_value
  id_value ← require_key "id" document
  id ← normalize_plan_id id_value
  goal ← text_at "goal" "delivery-plan goal" document
  acceptance ← text_at "acceptance" "delivery-plan acceptance" document
  task ← text_at "task" "delivery-plan task" document
  ok (record {
    id = id;
    goal = goal;
    acceptance = acceptance;
    task = task;
    test = test;
    failure_mode = failure_mode;
  })

-- The ids by the keys of the source's mapping.
pub record PlanIds : Type 0 where
  pub requirement_id : String
  pub acceptance_id : String
  pub task_id : String
  pub target_id : String
  pub qualification_id : String
  pub failure_mode_id : Option String

infixr 5 ◌⋯◌
abbrev ◌⋯◌ : String → String → String
s ⋯ t = Prim.Native.String.◌++◌ s t

abbrev or_cycle : String → String
or_cycle token = if token == "" then "CYCLE" else token

unfoldable pub derive_plan_ids : (plan_id cycle_id : String) → Result PlanIds
derive_plan_ids plan_id cycle_id = do
  normalized ← normalize_plan_id (quoted plan_id)
  let stem =
      if cycle_id == "CYCLE-current"
      then normalized
      else normalized ⋯ "-" ⋯ or_cycle (id_token cycle_id)
  ok (record {
    requirement_id = normalized ⋯ "-REQ1";
    acceptance_id = normalized ⋯ "-AC1";
    task_id = normalized ⋯ "-T1";
    target_id = stem ⋯ "-UNIT";
    qualification_id = stem ⋯ "-Q1";
    failure_mode_id = none;
  })

abbrev pub failure_id : String → Option DeliveryPlanFailureMode → Option String
failure_id id none = none
failure_id id (some _) = some (id ⋯ "-FM1")

unfoldable pub plan_ids : DeliveryPlan → (cycle_id : String) → Result PlanIds
plan_ids plan cycle_id = do
  ids ← derive_plan_ids plan.id cycle_id
  ok (record ids { failure_mode_id = failure_id plan.id plan.failure_mode })

abbrev failure_mutations : Option DeliveryPlanFailureMode → List String
failure_mutations none = []
failure_mutations (some _) = "failure_mode" ∷ "failure_mode_acceptance" ∷ "task_failure_mode" ∷ []

unfoldable pub planned_mutations : DeliveryPlan → List String
planned_mutations plan =
    ("requirement" ∷ "acceptance" ∷ "requirement_acceptance" ∷ [])
    ++ (failure_mutations plan.failure_mode
        ++ ("task" ∷ "task_acceptance" ∷ "test_target" ∷ "task_test_target"
            ∷ "acceptance_target_qualification" ∷ "project_revision" ∷ "audit_events"
            ∷ "projections" ∷ []))
