-- ===== src/Metrics/Counts.antt =====
-- The metrics of core/outcome_metrics.py that count observations.
use kafa.Base.{
  ℕ, String, false, not, ◌&&◌, ◌||◌, ◌+◌, Option, none, some, List, [], ◌∷◌, ◌==◌, if◌then◌else◌,
  nat_eq, select, length, is_empty,
}
use kafa.Base.Values.{str}
use kafa.Metrics.Times.{
  Clock, Window, ObservationRow, DeliveryRow, Metric, observed, insufficient_data, count,
  parse_timestamp, format_timestamp, within_window, in_order, valid_times, least,
  verified_delivery_rows,
}

-- `sum(int(row["value"]) for row in facts)`
unfoldable pub total : List ObservationRow → ℕ
total [] = 0
total (r ∷ rows) = r.value + total rows

-- The observations of a kind in the window.
unfoldable pub facts_of : Clock → String → Window → List ObservationRow → List ObservationRow
unfolding within_window
facts_of clock kind window observations =
    select
      (λ (r : ObservationRow). r.kind == kind && within_window clock (str r.observed_at) window)
      observations

abbrev pub uncounted : Window → (reason : String) → (fact_count : ℕ) → Metric
uncounted window reason fact_count = record {
  unit = "count";
  status = insufficient_data;
  value = none;
  numerator = none;
  denominator = none;
  denominator_required = false;
  window = window;
  reason = reason;
  fact_count = fact_count;
}

abbrev pub counted : Window → List ObservationRow → Metric
counted window facts = record {
  unit = "count";
  status = observed;
  value = some (count (total facts));
  numerator = some (total facts);
  denominator = none;
  denominator_required = false;
  window = window;
  reason = "";
  fact_count = length facts;
}

-- The end of `_observation_count_metric`, on the observations in the window.
abbrev pub count_metric : (kind : String) → Window → List ObservationRow → Metric
count_metric kind window facts =
    if is_empty facts || not window.complete
    then uncounted window
        (Prim.Native.String.◌++◌ "no valid "
          (Prim.Native.String.◌++◌ kind " observation window for the current cycle"))
        (length facts)
    else counted window facts

-- `_observation_count_metric`
unfoldable pub observation_count_metric :
    Clock → List ObservationRow → (kind : String) → Window → Metric
unfolding facts_of
observation_count_metric clock observations kind window =
    count_metric kind window (facts_of clock kind window observations)

abbrev pub created : Clock → DeliveryRow → Option ℕ
created clock r = parse_timestamp clock (str r.created_at)

-- From the earliest verified delivery to the report.
unfoldable pub post_delivery_window :
    Clock → List DeliveryRow → (cycle_id generated_at : String) → Window
unfolding valid_times least
post_delivery_window clock deliveries cycle_id generated_at =
    let times = valid_times (created clock) deliveries in
    record {
      kind = "post-delivery-as-of-snapshot";
      cycle_id = some cycle_id;
      start_at = format_timestamp clock (least times);
      end_at = format_timestamp clock (parse_timestamp clock (str generated_at));
      complete =
          not (is_empty deliveries)
          && (nat_eq (length times) (length deliveries)
              && in_order (least times) (parse_timestamp clock (str generated_at)));
    }

abbrev pub escaped_metric : List DeliveryRow → Window → List ObservationRow → Metric
escaped_metric deliveries window facts =
    if is_empty facts || not window.complete
    then uncounted window
        (if is_empty deliveries
          then "the current cycle has no verified delivery for a post-delivery window"
          else if not window.complete
          then "the post-delivery observation window is invalid"
          else "no escaped-defect observation exists in the post-delivery window")
        (length facts)
    else counted window facts

-- `_escaped_defect_metric`
unfoldable pub escaped_defect_metric :
    Clock → List DeliveryRow → List ObservationRow → (cycle_id generated_at : String) → Metric
unfolding facts_of post_delivery_window verified_delivery_rows
escaped_defect_metric clock rows observations cycle_id generated_at =
    let deliveries = verified_delivery_rows rows cycle_id in
    let window = post_delivery_window clock deliveries cycle_id generated_at in
    escaped_metric deliveries window (facts_of clock "escaped-defect" window observations)
