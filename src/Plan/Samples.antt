-- ===== src/Plan/Samples.antt =====
-- A small plan, read and refused, and the theorem on it.
use kafa.Base.{String, ◌≡◌, refl, Option, none, some, [], ◌∷◌, ◌↔◌}
use kafa.Base.Text.{strip, upper, text_lt}
use kafa.Base.Sets.{contains, to_set, add}
use kafa.Base.Values.{pos}
use kafa.Ledger.{Result, ok, err, plan_keys_mismatch, plan_version_invalid}
use kafa.Plan.Defs.{
  Json, absent, whole, quoted, object, member, empty_object, DeliveryPlan, closed_object, keys,
  value_at, require_key, plan_text, utf8_length, normalize_plan_id, id_token, replace_unusable,
  strip_marks_left, strip_marks_right,
}
use kafa.Plan.Parse.{
  parse_delivery_plan, parse_test, parse_failure_mode, plan_ids, derive_plan_ids, PlanIds,
}
use kafa.Plan.Contract.{IsPlan, parse_delivery_plan_iff}

-- Names what a reading computes with.
program : Unit {0}
unfolding parse_delivery_plan parse_test parse_failure_mode closed_object keys contains require_key
    value_at plan_text utf8_length normalize_plan_id id_token replace_unusable strip_marks_left
    strip_marks_right upper strip plan_ids derive_plan_ids to_set add text_lt
program = tt

abbrev document : Json → Json
document version = object (
    member "version" version (
      member "id" (quoted "my plan: 7.") (
        member "goal" (quoted " ship ") (
          member "acceptance" (quoted "works") (
            member "task" (quoted "build") (
              member "test"
                (object
                  (member "kind" (quoted "unit") (member "command" (quoted "pytest") empty_object)))
                (member "failure_mode" absent empty_object)))))))

abbrev plan : DeliveryPlan
plan = record {
  id = "MY-PLAN-7";
  goal = "ship";
  acceptance = "works";
  task = "build";
  test = record { kind = "unit"; command = "pytest" };
  failure_mode = none;
}

reads : parse_delivery_plan (document (whole (pos 1))) ≡ ok plan
unfolding program
reads = refl

other_version : parse_delivery_plan (document (whole (pos 2))) ≡ err plan_version_invalid
unfolding program
other_version = refl

other_keys :
    parse_delivery_plan
      (object (member "version" (whole (pos 1)) (member "name" absent empty_object)))
    ≡ err (
        plan_keys_mismatch "delivery-plan"
          ("acceptance" ∷ "failure_mode" ∷ "goal" ∷ "id" ∷ "task" ∷ "test" ∷ [])
          ("name" ∷ []))
unfolding program
other_keys = refl

target_of : Result PlanIds → Option String
target_of (ok ids) = some ids.target_id
target_of (err _) = none

target : target_of (plan_ids plan "cycle 2") ≡ some "MY-PLAN-7-CYCLE-2-UNIT"
unfolding program target_of
target = refl

parse_delivery_plan_iff_example :
    (parse_delivery_plan (document (whole (pos 1))) ≡ ok plan)
    ↔ IsPlan (document (whole (pos 1))) plan
parse_delivery_plan_iff_example = parse_delivery_plan_iff (document (whole (pos 1))) plan
