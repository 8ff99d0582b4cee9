-- ===== src/Metrics/Inventory.antt =====
-- `build_outcome_metrics` of core/outcome_metrics.py.
use kafa.Base.{String, List, [], ◌∷◌}
use kafa.Ledger.{CycleRow}
use kafa.Delivery.Facts.{QualificationRow}
use kafa.Metrics.Times.{
  Clock, ObservationRow, DeliveryRow, MigrationRow, Metric, cycle_as_of_window,
}
use kafa.Metrics.Counts.{observation_count_metric, escaped_defect_metric}
use kafa.Metrics.Rates.{rework_rate_metric, recovery_success_metric}
use kafa.Metrics.Elapsed.{time_to_delivery_metric}
use kafa.Metrics.Coverage.{ActiveAcceptance, TargetRow, qualification_coverage_metric}

-- The tables that the metrics read. Rows of `deliveries` and `migrations` are ordered by time.
pub record Store : Type 0 where
  pub deliveries : List DeliveryRow
  pub migrations : List MigrationRow
  pub acceptances : List ActiveAcceptance
  pub qualifications : List QualificationRow
  pub targets : List TargetRow

-- The metrics by their names. The source raises where the names are not `OUTCOME_METRIC_IDS`, which
-- is the same list.
unfoldable pub build_outcome_metrics :
    Clock
    → (digest : TargetRow → String) → Store
    → CycleRow
    → (observations : List ObservationRow) (generated_at : String) → List (String × Metric)
unfolding cycle_as_of_window observation_count_metric escaped_defect_metric rework_rate_metric
    recovery_success_metric time_to_delivery_metric qualification_coverage_metric
build_outcome_metrics clock digest store cycle observations generated_at =
    let window = cycle_as_of_window clock cycle generated_at in
    (
      "false_green_prevented_count",
      observation_count_metric clock observations "false-green-prevented" window,
    )
    ∷ (
      "escaped_defect_count",
      escaped_defect_metric clock store.deliveries observations cycle.id generated_at,
    )
    ∷ (
      "rework_rate_per_delivery",
      rework_rate_metric clock store.deliveries observations cycle.id window,
    )
    ∷ (
      "migration_recovery_success_rate",
      recovery_success_metric clock store.migrations generated_at,
    )
    ∷ (
      "time_to_verified_delivery_seconds",
      time_to_delivery_metric clock store.deliveries cycle generated_at,
    )
    ∷ (
      "qualification_coverage_rate",
      qualification_coverage_metric digest store.targets clock store.acceptances
          store.qualifications cycle.id generated_at,
    )
    ∷ []
