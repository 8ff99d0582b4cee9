-- ===== src/Metrics/Elapsed.antt =====
-- `_time_to_delivery_metric` of core/outcome_metrics.py: the time from the start of the cycle to its
-- first verified delivery.
use kafa.Base.{
  ℕ, suc, ◌-◌, String, Bool, true, false, not, ◌&&◌, ◌||◌, Option, none, some, List, if◌then◌else◌,
  leb, ltb, nat_eq, length, is_some,
}
use kafa.Base.Values.{ℤ, pos, negsuc, str}
use kafa.Ledger.{CycleRow}
use kafa.Metrics.Times.{
  Clock, DeliveryRow, Metric, Quantity, count, parse_timestamp, format_timestamp, or_null,
  cycle_as_of_window, valid_times, least, verified_delivery_rows,
}
use kafa.Metrics.Counts.{created}
use kafa.Metrics.Rates.{status_if}

-- `later - earlier`, in seconds
abbrev pub difference : (later earlier : ℕ) → ℤ
difference later earlier =
    if leb earlier later then pos (later - earlier) else negsuc (earlier - suc later)

-- `elapsed`
abbrev pub elapsed : Option ℕ → Option ℕ → Option ℤ
elapsed none last = none
elapsed (some start) none = none
elapsed (some start) (some last) = some (difference last start)

-- `elapsed is not None and elapsed >= 0`, and `< 0`
abbrev pub is_duration : Option ℤ → Bool
is_duration (some (pos n)) = true
is_duration _ = false

abbrev pub is_negative : Option ℤ → Bool
is_negative (some (negsuc n)) = true
is_negative _ = false

abbrev pub seconds : Option ℤ → Option ℕ
seconds (some (pos n)) = some n
seconds _ = none

-- `end is not None and report_end is not None and end <= report_end`, and `>`
abbrev pub by_report : Option ℕ → Option ℕ → Bool
by_report none report = false
by_report (some last) none = false
by_report (some last) (some report) = leb last report

abbrev pub after_report : Option ℕ → Option ℕ → Bool
after_report none report = false
after_report (some last) none = false
after_report (some last) (some report) = ltb report last

-- What the metric computes with: the cycle's start, its earliest delivery, the end of the report
-- and the deliveries with the times among them that can be read.
pub record Interval : Type 0 where
  pub start : Option ℕ
  pub last : Option ℕ
  pub report : Option ℕ
  pub deliveries : ℕ
  pub readable : ℕ

abbrev pub time_available : Interval → Bool
time_available i =
    is_duration (elapsed i.start i.last)
    && (not (nat_eq i.deliveries 0)
        && (nat_eq i.readable i.deliveries && by_report i.last i.report))

abbrev pub time_reason : Interval → String
time_reason i =
    if nat_eq i.deliveries 0
    then "the current cycle has no verified delivery record"
    else if not (nat_eq i.readable i.deliveries) || not (is_some i.start) || not (is_some i.last)
    then "cycle or delivery timestamps do not form a complete valid window"
    else if is_negative (elapsed i.start i.last)
    then "the earliest delivery predates the cycle start"
    else if after_report i.last i.report
    then "the earliest delivery is outside the report observation window"
    else ""

abbrev pub counted_seconds : Option ℕ → Option Quantity
counted_seconds none = none
counted_seconds (some n) = some (count n)

abbrev pub seconds_if : Bool → Option ℤ → Option ℕ
seconds_if available time = if available then seconds time else none

abbrev pub time_metric : Clock → (cycle_id : String) → Interval → Metric
time_metric clock cycle_id i =
    let available = time_available i in
    let value = seconds_if available (elapsed i.start i.last) in
    record {
      unit = "seconds";
      status = status_if available;
      value = counted_seconds value;
      numerator = value;
      denominator = some (if available then 1 else 0);
      denominator_required = true;
      window = record {
        kind = "current-cycle-to-first-verified-delivery";
        cycle_id = some cycle_id;
        start_at = format_timestamp clock i.start;
        end_at = format_timestamp clock i.last;
        complete = available;
      };
      reason = time_reason i;
      fact_count = i.deliveries;
    }

unfoldable pub interval : Clock → List DeliveryRow → CycleRow → (generated_at : String) → Interval
unfolding verified_delivery_rows cycle_as_of_window parse_timestamp
interval clock rows cycle generated_at =
    let deliveries = verified_delivery_rows rows cycle.id in
    let times = valid_times (created clock) deliveries in
    let report = cycle_as_of_window clock cycle generated_at in
    record {
      start = parse_timestamp clock (str cycle.started_at);
      last = least times;
      report = parse_timestamp clock (or_null report.end_at);
      deliveries = length deliveries;
      readable = length times;
    }

-- `_time_to_delivery_metric`
unfoldable pub time_to_delivery_metric :
    Clock → List DeliveryRow → CycleRow → (generated_at : String) → Metric
unfolding interval
time_to_delivery_metric clock rows cycle generated_at =
    time_metric clock cycle.id (interval clock rows cycle generated_at)
