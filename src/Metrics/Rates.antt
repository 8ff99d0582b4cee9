-- ===== src/Metrics/Rates.antt =====
-- The metrics of core/outcome_metrics.py that are rates: rework per delivery and recovery success.
use kafa.Base.{
  ℕ, String, Bool, true, false, not, ◌&&◌, ◌||◌, Option, none, some, List, ◌==◌, if◌then◌else◌, leb,
  nat_eq, select, length, is_empty, all, is_some,
}
use kafa.Base.Values.{str}
use kafa.Metrics.Times.{
  Clock, Window, ObservationRow, DeliveryRow, MigrationRow, Metric, MetricStatus, computed,
  insufficient_data, Quantity, ratio, parse_timestamp, format_timestamp, within_window, valid_times,
  least, greatest, verified_delivery_rows,
}
use kafa.Metrics.Counts.{total, facts_of, created}

-- `computed if available else insufficient-data`
abbrev pub status_if : Bool → MetricStatus
status_if available = if available then computed else insufficient_data

-- `sum(...) if facts else None`
abbrev pub total_if : List ObservationRow → Option ℕ
total_if facts = if is_empty facts then none else some (total facts)

-- `round(numerator / denominator, 6) if available else None`
abbrev pub ratio_if : Bool → Option ℕ → ℕ → Option Quantity
ratio_if available none denominator = none
ratio_if available (some n) denominator = if available then some (ratio n denominator) else none

-- What the rework rate asks for.
abbrev pub rework_available : List ObservationRow → ℕ → Window → (times_valid : Bool) → Bool
rework_available facts denominator window times_valid =
    not (is_empty facts) && (not (nat_eq denominator 0) && (window.complete && times_valid))

abbrev pub rework_reason : List ObservationRow → ℕ → Window → (times_valid : Bool) → String
rework_reason facts denominator window times_valid =
    if is_empty facts
    then "no valid rework observation window for the current cycle"
    else if nat_eq denominator 0 || not times_valid
    then "the current cycle has no verified delivery denominator"
    else if not window.complete
    then "the rework observation window is incomplete"
    else ""

abbrev pub rework_metric : Window → List ObservationRow → ℕ → (times_valid : Bool) → Metric
rework_metric window facts denominator times_valid =
    let available = rework_available facts denominator window times_valid in
    record {
      unit = "rework-units-per-delivery";
      status = status_if available;
      value = ratio_if available (total_if facts) denominator;
      numerator = total_if facts;
      denominator = some denominator;
      denominator_required = true;
      window = window;
      reason = rework_reason facts denominator window times_valid;
      fact_count = length facts;
    }

-- The verified deliveries in the window.
unfoldable pub deliveries_in : Clock → Window → List DeliveryRow → List DeliveryRow
unfolding within_window
deliveries_in clock window rows =
    select (λ (r : DeliveryRow). within_window clock (str r.created_at) window) rows

-- `_rework_rate_metric`
unfoldable pub rework_rate_metric :
    Clock → List DeliveryRow → List ObservationRow → (cycle_id : String) → Window → Metric
unfolding facts_of deliveries_in verified_delivery_rows
rework_rate_metric clock rows observations cycle_id window =
    let delivery_rows = verified_delivery_rows rows cycle_id in
    rework_metric window (facts_of clock "rework" window observations)
      (length (deliveries_in clock window delivery_rows))
      (all (λ r. is_some (created clock r)) delivery_rows)

-- `RECOVERY_ATTEMPT_STATUSES`
abbrev pub is_attempt : String → Bool
is_attempt s = s == "rolled-back" || s == "rollback-incomplete" || s == "recovery-required"

unfoldable pub recovery_attempts : List MigrationRow → List MigrationRow
recovery_attempts rows = select (λ (r : MigrationRow). is_attempt r.status) rows

abbrev pub applied : Clock → MigrationRow → Option ℕ
applied clock r = parse_timestamp clock (str r.applied_at)

-- `report_end`: the report's time, or else the last time that can be read
abbrev pub report_end : Option ℕ → List ℕ → Option ℕ
report_end none times = greatest times
report_end (some t) times = some t

abbrev pub all_by : List ℕ → Option ℕ → Bool
all_by times none = false
all_by times (some last) = all (λ t. leb t last) times

abbrev pub recovery_complete : List MigrationRow → List ℕ → Option ℕ → Bool
recovery_complete rows times last =
    not (is_empty rows) && (nat_eq (length times) (length rows) && all_by times last)

abbrev pub recovery_window : Clock → List ℕ → Option ℕ → Bool → Window
recovery_window clock times last complete = record {
  kind = "project-migration-recovery-history";
  cycle_id = none;
  start_at = format_timestamp clock (least times);
  end_at = format_timestamp clock last;
  complete = complete;
}

-- `value if total else None`
abbrev pub unless_zero : ℕ → ℕ → Option ℕ
unless_zero value denominator = if nat_eq denominator 0 then none else some value

-- The end of a metric that is the share of a number of rows, in a window.
abbrev pub share_metric : (numerator denominator : ℕ) → (reason : String) → Window → Metric
share_metric numerator denominator reason window =
    let available = not (nat_eq denominator 0) && window.complete in
    record {
      unit = "ratio";
      status = status_if available;
      value = ratio_if available (some numerator) denominator;
      numerator = unless_zero numerator denominator;
      denominator = some denominator;
      denominator_required = true;
      window = window;
      reason = if available then "" else reason;
      fact_count = denominator;
    }

-- `_recovery_success_metric`
unfoldable pub recovery_success_metric :
    Clock → List MigrationRow → (generated_at : String) → Metric
unfolding recovery_attempts valid_times
recovery_success_metric clock migrations generated_at =
    let rows = recovery_attempts migrations in
    let times = valid_times (applied clock) rows in
    let last = report_end (parse_timestamp clock (str generated_at)) times in
    share_metric (length (select (λ (r : MigrationRow). r.status == "rolled-back") rows))
      (length rows) "no complete migration recovery-attempt window exists"
      (recovery_window clock times last (recovery_complete rows times last))
