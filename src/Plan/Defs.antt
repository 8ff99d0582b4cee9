-- ===== src/Plan/Defs.antt =====
-- `DeliveryPlan`, JSON values, `_closed_object`, `_text` and `normalize_plan_id` of
-- core/delivery_plan.py. A JSON object has texts as keys, each once, as `load_delivery_plan` has seen
-- to.
use Prim.Native.Char.{Char, code}
use kafa.Base.{
  ℕ, ◌+◌, String, Bool, true, false, not, ◌&&◌, ◌||◌, Option, none, some, List, [], ◌∷◌, ◌==◌,
  if◌then◌else◌, ltb, leb, nat_eq, select, is_empty,
}
use kafa.Base.Text.{strip, upper}
use kafa.Base.Sets.{contains, to_set}
use kafa.Base.Values.{ℤ}
use kafa.Ledger.{
  Result, ok, err, guard, ◌>>=◌, ◌>>◌, key_error, plan_not_object, plan_not_text, plan_text_empty,
  plan_text_too_long, plan_keys_mismatch, plan_id_unusable, plan_id_too_long,
}

mutual
  -- What `json.loads` gives.
  pub data Json : Type 0 where
    absent : Json
    truth : Bool → Json
    whole : ℤ → Json
    decimal_number : (written : String) → Json
    quoted : String → Json
    array : JsonItems → Json
    object : JsonMembers → Json

  pub data JsonItems : Type 0 where
    empty_array : JsonItems
    item : Json → JsonItems → JsonItems

  pub data JsonMembers : Type 0 where
    empty_object : JsonMembers
    member : (key : String) → Json → JsonMembers → JsonMembers

pub record DeliveryPlanTest : Type 0 where
  pub kind : String
  pub command : String

pub record DeliveryPlanFailureMode : Type 0 where
  pub feature : String
  pub scenario : String
  pub trigger : String
  pub expected : String
  pub risk : String
  pub recovery : String
  pub data_safety : String

-- The version is always 1.
pub record DeliveryPlan : Type 0 where
  pub id : String
  pub goal : String
  pub acceptance : String
  pub task : String
  pub test : DeliveryPlanTest
  pub failure_mode : Option DeliveryPlanFailureMode

abbrev pub max_plan_text : ℕ
max_plan_text = 8192

abbrev pub plan_keys : List String
plan_keys = "version" ∷ "id" ∷ "goal" ∷ "acceptance" ∷ "task" ∷ "test" ∷ "failure_mode" ∷ []

abbrev pub test_keys : List String
test_keys = "kind" ∷ "command" ∷ []

abbrev pub failure_mode_keys : List String
failure_mode_keys =
    "feature" ∷ "scenario" ∷ "trigger" ∷ "expected" ∷ "risk" ∷ "recovery" ∷ "data_safety" ∷ []

abbrev pub risk_values : List String
risk_values = "low" ∷ "medium" ∷ "high" ∷ "critical" ∷ []

unfoldable pub keys : JsonMembers → List String
keys empty_object = []
keys (member key value rest) = key ∷ keys rest

unfoldable pub value_at : String → JsonMembers → Option Json
value_at key empty_object = none
value_at key (member k value rest) =
    let later = value_at key rest in if k == key then some value else later

-- `document[key]`
unfoldable pub require_key : String → JsonMembers → Result Json
unfolding value_at
require_key key members = elim (value_at key members) [
  | none ↦ err (key_error key)
  | some value ↦ ok value
]

-- the elements of `xs` that are not in `ys`
abbrev pub without : List String → List String → List String
without xs ys = select (λ x. not (contains ys x)) xs

unfoldable pub closed_object :
    Json → (expected : List String) → (label : String) → Result JsonMembers
closed_object (object members) expected label = do
  guard (is_empty (without expected (keys members)) && is_empty (without (keys members) expected)) (
      plan_keys_mismatch label (to_set (without expected (keys members)))
        (to_set (without (keys members) expected)))
  ok members
closed_object _ expected label = err (plan_not_object label)

abbrev char_bytes : ℕ → ℕ
char_bytes n = if ltb n 128 then 1 else if ltb n 2048 then 2 else if ltb n 65536 then 3 else 4

-- `len(s.encode("utf-8"))`
unfoldable pub utf8_length : String → ℕ
utf8_length String.[] = 0
utf8_length (String.◌∷◌ c s) = char_bytes (code c) + utf8_length s

-- `_text`
unfoldable pub plan_text : Json → (label : String) → Result String
plan_text (quoted s) label = do
  guard (not (strip s == "")) (plan_text_empty label)
  guard (leb (utf8_length (strip s)) max_plan_text) (plan_text_too_long label)
  ok (strip s)
plan_text _ label = err (plan_not_text label)

-- `[A-Za-z0-9._-]`
abbrev is_usable : ℕ → Bool
is_usable n =
    (leb 65 n && leb n 90)
    || (leb 97 n && leb n 122)
    || (leb 48 n && leb n 57)
    || nat_eq n 46
    || nat_eq n 95
    || nat_eq n 45

-- `re.sub(r"[^A-Za-z0-9._-]+", "-", s)`; the flag says that the character before was replaced.
unfoldable pub replace_unusable : Bool → String → String
replace_unusable run String.[] = ""
replace_unusable run (String.◌∷◌ c s) =
    let plain = replace_unusable false s in
    let replaced = replace_unusable true s in
    if is_usable (code c)
    then String.◌∷◌ c plain
    else if run
    then replaced
    else Prim.Native.String.◌++◌ "-" replaced

abbrev is_mark : ℕ → Bool
is_mark n = nat_eq n 45 || nat_eq n 46 || nat_eq n 95

unfoldable pub strip_marks_left : String → String
strip_marks_left String.[] = ""
strip_marks_left (String.◌∷◌ c s) =
    let rest = strip_marks_left s in if is_mark (code c) then rest else String.◌∷◌ c s

abbrev drop_mark : Bool → Char → String → String
drop_mark b c String.[] = if b then "" else String.◌∷◌ c ""
drop_mark b c s = String.◌∷◌ c s

unfoldable pub strip_marks_right : String → String
strip_marks_right String.[] = ""
strip_marks_right (String.◌∷◌ c s) = drop_mark (is_mark (code c)) c (strip_marks_right s)

-- `re.sub(…).strip("-._").upper()`
unfoldable pub id_token : String → String
id_token s = upper (strip_marks_left (strip_marks_right (replace_unusable false s)))

unfoldable pub normalize_plan_id : Json → Result String
normalize_plan_id value = do
  raw ← plan_text value "delivery-plan id"
  guard (not (id_token raw == "")) plan_id_unusable
  guard (leb (utf8_length (id_token raw)) 128) plan_id_too_long
  ok (id_token raw)
