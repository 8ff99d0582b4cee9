-- ===== src/Metrics/Samples.antt =====
-- The outcome metrics of a small cycle, and the theorems on them.
use kafa.Base.{
  ℕ, String, ◌≡◌, refl, ◌≤◌, ◌<◌, ◌+◌, true, false, Option, none, some, List, [], ◌∷◌, ◌↔◌, ◌==◌,
  All, nat_eq, inl, map, if◌then◌else◌,
}
use kafa.Base.Text.{strip}
use kafa.Base.Sets.{contains}
use kafa.Base.Values.{str, text_or_empty}
use kafa.Base.Members.{In}
use kafa.Ledger.{CycleRow, CycleStatus}
use kafa.Delivery.Facts.{QualificationRow}
use kafa.Metrics.Times.{
  Clock, Moment, Metric, MetricStatus, insufficient_data, computed, Quantity, count, ratio,
  ObservationRow, DeliveryRow, MigrationRow, parse_timestamp, utc_suffix, within_window,
  cycle_as_of_window, snapshot_window, verified_delivery_rows, valid_times, least, greatest,
}
use kafa.Metrics.Counts.{
  created, total, facts_of, observation_count_metric, post_delivery_window, escaped_defect_metric,
}
use kafa.Metrics.Rates.{
  deliveries_in, rework_rate_metric, recovery_attempts, recovery_success_metric,
}
use kafa.Metrics.Elapsed.{interval, time_to_delivery_metric}
use kafa.Metrics.Coverage.{
  ActiveAcceptance, TargetRow, latest_by_target, qualification_rows, is_covered, active_acceptances,
  qualification_coverage_metric,
}
use kafa.Metrics.Inventory.{Store, build_outcome_metrics}
use kafa.Metrics.Coherent.{IsCoherent, build_outcome_metrics-IsCoherent}
use kafa.Metrics.Measured.{rates-bounds}
use kafa.Metrics.Timely.{Timely, time_to_delivery_metric-value_iff, time_to_delivery_metric-first}
use kafa.Metrics.Reasons.{Unreported, time_to_delivery_metric-no_reason}
use kafa.Metrics.Newest.{IsNewest, IsCurrent, is_covered_iff}

-- Names what an evaluation of the metrics computes with.
program : Unit {0}
unfolding build_outcome_metrics observation_count_metric escaped_defect_metric rework_rate_metric
    recovery_success_metric time_to_delivery_metric qualification_coverage_metric interval
    latest_by_target qualification_rows is_covered active_acceptances recovery_attempts
    deliveries_in total facts_of post_delivery_window parse_timestamp utc_suffix within_window
    cycle_as_of_window snapshot_window verified_delivery_rows valid_times least greatest contains
    text_or_empty strip
program = tt

-- A clock of one-letter times, a to d; the time x has no zone.
abbrev clock : Clock
clock = record { read = read; render = λ t. letter t }
  where
    at : ℕ → Option Moment
    at t = some (record { micros = t; zoned = true })

    read : String → Option Moment
    read s =
        if s == "a"
        then at 10000000
        else if s == "b+00:00"
        then at 20500000
        else if s == "c"
        then at 30000000
        else if s == "d"
        then at 40000000
        else if s == "x"
        then some (record { micros = 1; zoned = false })
        else none

    letter : ℕ → String
    letter t =
        if nat_eq t 10 then "a" else if nat_eq t 20 then "bZ" else if nat_eq t 30 then "c" else "d"

abbrev cycle : CycleRow
cycle = record {
  id = "C1";
  name = "one";
  goal = "deliver";
  status = CycleStatus.active;
  phase = "delivery";
  base_ref = "";
  candidate_sha = "";
  started_at = " a";
  closed_at = "";
  created_at = "";
  updated_at = "";
}

abbrev delivery : String → String → DeliveryRow
delivery id at = record { id = id; cycle_id = "C1"; decision_status = "delivered"; created_at = at }

abbrev deliveries : List DeliveryRow
deliveries =
    record (delivery "D0" "a") { decision_status = "historical-migrated" }
    ∷ delivery "D1" "bZ"
    ∷ delivery "D2" "c"
    ∷ []

abbrev observation : String → String → ObservationRow
observation kind at = record { kind = kind; value = 3; observed_at = at }

abbrev observations : List ObservationRow
observations =
    observation "rework" "c" ∷ observation "escaped-defect" "a" ∷ observation "rework" "x" ∷ []

abbrev migration : String → MigrationRow
migration status = record { status = status; applied_at = "bZ" }

abbrev migrations : List MigrationRow
migrations = migration "rolled-back" ∷ migration "activated" ∷ migration "recovery-required" ∷ []

abbrev acceptances : List ActiveAcceptance
acceptances =
    record { cycle_id = "C1"; id = "A1"; revision = 2; status = "active" }
    ∷ record { cycle_id = "C1"; id = "A2"; revision = 1; status = "active" }
    ∷ []

-- The acceptance A1 was qualified again after its revision.
abbrev qualification : String → ℕ → QualificationRow
qualification id revision = record {
  id = id;
  cycle_id = "C1";
  acceptance_id = "A1";
  acceptance_revision = revision;
  target_id = "T1";
  target_definition_sha256 = "pytest";
}

abbrev qualifications : List QualificationRow
qualifications = qualification "Q1" 1 ∷ qualification "Q2" 2 ∷ []

abbrev targets : List TargetRow
targets = record { id = "T1"; definition = "pytest" } ∷ []

abbrev digest : TargetRow → String
digest t = t.definition

abbrev store : Store
store = record {
  deliveries = deliveries;
  migrations = migrations;
  acceptances = acceptances;
  qualifications = qualifications;
  targets = targets;
}

abbrev values : String → List (MetricStatus × Option Quantity)
values generated_at =
    map (λ (entry : String × Metric). (entry.1.status, entry.1.value))
      (build_outcome_metrics clock digest store cycle observations generated_at)

measured :
    values "d"
    ≡ (insufficient_data, none)
      ∷ (insufficient_data, none)
      ∷ (computed, some (ratio 3 2))
      ∷ (computed, some (ratio 1 2))
      ∷ (computed, some (count 10))
      ∷ (computed, some (ratio 1 2))
      ∷ []
unfolding program
measured = refl

build_outcome_metrics-IsCoherent_example :
    All
      (λ (entry : String × Metric). IsCoherent entry.1)
      (build_outcome_metrics clock digest store cycle observations "d")
build_outcome_metrics-IsCoherent_example =
    build_outcome_metrics-IsCoherent clock digest store cycle observations "d"

half : (recovery_success_metric clock migrations "d").value ≡ some (ratio 1 2)
unfolding program
half = refl

rates-bounds_example : (1 ≤ 2) × (0 < 2)
rates-bounds_example =
    rates-bounds clock digest targets migrations acceptances qualifications "C1" "d"
      (recovery_success_metric clock migrations "d") 1 2 (inl refl) half

ten_seconds : (time_to_delivery_metric clock deliveries cycle "d").value ≡ some (count 10)
unfolding program
ten_seconds = refl

time_to_delivery_metric-value_iff_example :
    ((time_to_delivery_metric clock deliveries cycle "d").value ≡ some (count 10))
    ↔ Timely (interval clock deliveries cycle "d") 10
time_to_delivery_metric-value_iff_example =
    time_to_delivery_metric-value_iff clock deliveries cycle "d" 10

time_to_delivery_metric-first_example :
    (start : ℕ) × (parse_timestamp clock (str " a") ≡ some start)
    × ((r : DeliveryRow) × In r (verified_delivery_rows deliveries "C1")
        × (created clock r ≡ some (start + 10)))
    × ((r : DeliveryRow)
        → In r (verified_delivery_rows deliveries "C1")
        → (t : ℕ) × (created clock r ≡ some t) × (start + 10 ≤ t))
time_to_delivery_metric-first_example =
    time_to_delivery_metric-first clock deliveries cycle "d" 10 ten_seconds

-- The report has no time that can be read: no value, and no reason either.
unreadable : (time_to_delivery_metric clock deliveries cycle "later").status ≡ insufficient_data
unfolding program
unreadable = refl

time_to_delivery_metric-no_reason_example :
    (((time_to_delivery_metric clock deliveries cycle "later").status ≡ insufficient_data)
      × ((time_to_delivery_metric clock deliveries cycle "later").reason ≡ ""))
    ↔ Unreported (interval clock deliveries cycle "later")
time_to_delivery_metric-no_reason_example =
    time_to_delivery_metric-no_reason clock deliveries cycle "later"

abbrev revised : ActiveAcceptance
revised = record { cycle_id = "C1"; id = "A1"; revision = 2; status = "active" }

is_covered_iff_example : (is_covered digest targets qualifications "C1" revised ≡ true) ↔ (
    (q : QualificationRow) × IsNewest qualifications "C1" "A1" q
    × IsCurrent digest targets revised q)
is_covered_iff_example = is_covered_iff digest targets qualifications "C1" revised
