-- ===== src/Metrics/Times.antt =====
-- Time stamps, windows, rows and the record of a metric of core/outcome_metrics.py.
use Prim.Native.Char.{code}
use Prim.Native.Nat.{◌/◌}
use kafa.Base.{
  ℕ, String, Bool, false, ◌&&◌, ◌||◌, Option, none, some, List, [], ◌∷◌, ◌==◌, if◌then◌else◌, leb,
  ltb, nat_eq, is_some, select,
}
use kafa.Base.Text.{strip}
use kafa.Base.Values.{Value, null, str, text_or_empty}
use kafa.Ledger.{CycleRow}

-- A `datetime`: its instant in UTC, in microseconds, and whether it has a zone.
pub record Moment : Type 0 where
  pub micros : ℕ
  pub zoned : Bool

-- `datetime.fromisoformat`, where `none` is a `ValueError`, and
-- `strftime("%Y-%m-%dT%H:%M:%SZ")` of an instant in seconds.
pub record Clock : Type 0 where
  pub read : String → Option Moment
  pub render : ℕ → String

-- `text[:-1] + "+00:00" if text.endswith("Z") else text`
unfoldable pub utc_suffix : String → String
utc_suffix String.[] = ""
utc_suffix (String.◌∷◌ c s) =
    let rest = utc_suffix s in
    if s == "" && nat_eq (code c) b'Z' then "+00:00" else String.◌∷◌ c rest

abbrev pub in_seconds : Option Moment → Option ℕ
in_seconds none = none
in_seconds (some m) = if m.zoned then some (m.micros / 1000000) else none

-- `_parse_timestamp`, in seconds
unfoldable pub parse_timestamp : Clock → Value → Option ℕ
unfolding utc_suffix
parse_timestamp clock v =
    if strip (text_or_empty v) == ""
    then none
    else in_seconds (clock.read (utc_suffix (strip (text_or_empty v))))

-- `_format_timestamp`; `none` is `None`
abbrev pub format_timestamp : Clock → Option ℕ → Option String
format_timestamp clock none = none
format_timestamp clock (some t) = some (clock.render t)

abbrev pub or_null : Option String → Value
or_null none = null
or_null (some s) = str s

-- The keys of a window that are not constants of its kind.
pub record Window : Type 0 where
  pub kind : String
  pub cycle_id : Option String
  pub start_at : Option String
  pub end_at : Option String
  pub complete : Bool

-- `_snapshot_window`
unfoldable pub snapshot_window : Clock → (cycle_id generated_at : String) → Window
unfolding parse_timestamp
snapshot_window clock cycle_id generated_at = record {
  kind = "current-cycle-snapshot";
  cycle_id = some cycle_id;
  start_at = format_timestamp clock (parse_timestamp clock (str generated_at));
  end_at = format_timestamp clock (parse_timestamp clock (str generated_at));
  complete = is_some (parse_timestamp clock (str generated_at));
}

-- `start is not None and end is not None and end >= start`
abbrev pub in_order : Option ℕ → Option ℕ → Bool
in_order none last = false
in_order (some start) none = false
in_order (some start) (some last) = leb start last

-- `closed_text or generated_at`
abbrev pub closing : CycleRow → String → String
closing cycle generated_at =
    if strip cycle.closed_at == "" then generated_at else strip cycle.closed_at

-- `_cycle_as_of_window`
unfoldable pub cycle_as_of_window : Clock → CycleRow → (generated_at : String) → Window
unfolding parse_timestamp
cycle_as_of_window clock cycle generated_at = record {
  kind = "current-cycle-field-window";
  cycle_id = some cycle.id;
  start_at = format_timestamp clock (parse_timestamp clock (str cycle.started_at));
  end_at = format_timestamp clock (parse_timestamp clock (str (closing cycle generated_at)));
  complete =
      in_order (parse_timestamp clock (str cycle.started_at))
        (parse_timestamp clock (str (closing cycle generated_at)));
}

abbrev pub is_between : Option ℕ → Option ℕ → Option ℕ → Bool
is_between none start last = false
is_between (some t) none last = false
is_between (some t) (some start) none = false
is_between (some t) (some start) (some last) = leb start t && leb t last

-- `_within_window`, which reads the ends of the window again
unfoldable pub within_window : Clock → Value → Window → Bool
unfolding parse_timestamp
within_window clock v window =
    is_between (parse_timestamp clock v) (parse_timestamp clock (or_null window.start_at))
      (parse_timestamp clock (or_null window.end_at))

-- A row of `outcome_observations`.
pub record ObservationRow : Type 0 where
  pub kind : String
  pub value : ℕ
  pub observed_at : String

-- The columns of `deliveries` that are read.
pub record DeliveryRow : Type 0 where
  pub id : String
  pub cycle_id : String
  pub decision_status : String
  pub created_at : String

-- The columns of `migrations` that are read.
pub record MigrationRow : Type 0 where
  pub status : String
  pub applied_at : String

-- `VERIFIED_DELIVERY_STATUSES`
abbrev pub is_verified : String → Bool
is_verified s = s == "delivered" || s == "accepted-risk" || s == "same-context-degraded"

-- `_verified_delivery_rows`
unfoldable pub verified_delivery_rows : List DeliveryRow → (cycle_id : String) → List DeliveryRow
verified_delivery_rows rows cycle_id =
    select (λ (r : DeliveryRow). r.cycle_id == cycle_id && is_verified r.decision_status) rows

-- The time stamps that can be read: `[value for value in times if value is not None]`.
unfoldable pub valid_times : {Row : Type 0} → (Row → Option ℕ) → List Row → List ℕ
valid_times at [] = []
valid_times at (r ∷ rows) = with_time (at r) (valid_times at rows)
  where
    with_time : Option ℕ → List ℕ → List ℕ
    with_time none rest = rest
    with_time (some t) rest = t ∷ rest

abbrev pub earlier : ℕ → Option ℕ → ℕ
earlier t none = t
earlier t (some u) = if ltb u t then u else t

-- `min(times) if times else None`
unfoldable pub least : List ℕ → Option ℕ
least [] = none
least (t ∷ ts) = some (earlier t (least ts))

abbrev pub later_of : ℕ → Option ℕ → ℕ
later_of t none = t
later_of t (some u) = if ltb t u then u else t

-- `max(times) if times else None`
unfoldable pub greatest : List ℕ → Option ℕ
greatest [] = none
greatest (t ∷ ts) = some (later_of t (greatest ts))

pub data MetricStatus : Type 0 where
  insufficient_data observed computed : MetricStatus

-- The value of a metric; a `ratio` is rounded to six places.
pub data Quantity : Type 0 where
  count : ℕ → Quantity
  ratio : (numerator denominator : ℕ) → Quantity

-- `_metric`, without the texts that describe a metric, which are constants of it; `none` is `None`.
pub record Metric : Type 0 where
  pub unit : String
  pub status : MetricStatus
  pub value : Option Quantity
  pub numerator : Option ℕ
  pub denominator : Option ℕ
  pub denominator_required : Bool
  pub window : Window
  pub reason : String
  pub fact_count : ℕ
