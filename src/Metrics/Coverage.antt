-- ===== src/Metrics/Coverage.antt =====
-- `_qualification_coverage_metric` of core/outcome_metrics.py: the share of active acceptances that
-- a current qualification covers.
use kafa.Base.{
  ℕ, String, Bool, false, ◌&&◌, Option, none, some, List, [], ◌∷◌, ◌==◌, if◌then◌else◌, nat_eq,
  select, find, any, length, reverse,
}
use kafa.Base.Sets.{contains}
use kafa.Delivery.Facts.{QualificationRow}
use kafa.Metrics.Times.{Clock, Metric, snapshot_window}
use kafa.Metrics.Rates.{share_metric}

-- The columns of `acceptance` and of `test_targets` that are read; `definition` is the row that
-- `target_definition_digest` takes.
pub record ActiveAcceptance : Type 0 where
  pub cycle_id : String
  pub id : String
  pub revision : ℕ
  pub status : String

pub record TargetRow : Type 0 where
  pub id : String
  pub definition : String

-- `latest_by_target`: the first row of each target, where `seen` are the targets before.
unfoldable pub latest_by_target : List String → List QualificationRow → List QualificationRow
unfolding contains
latest_by_target seen [] = []
latest_by_target seen (q ∷ rows) =
    let known = latest_by_target seen rows in
    let new = latest_by_target (q.target_id ∷ seen) rows in
    if contains seen q.target_id then known else q ∷ new

-- The qualifications of an acceptance, the newest first; the table has them in the order of
-- `created_at` and `rowid`.
unfoldable pub qualification_rows :
    List QualificationRow → (cycle_id acceptance_id : String) → List QualificationRow
qualification_rows rows cycle_id acceptance_id = reverse (
    select (λ (q : QualificationRow). q.cycle_id == cycle_id && q.acceptance_id == acceptance_id)
      rows)

module _ (digest : TargetRow → String) (targets : List TargetRow) where
  abbrev pub matches : ActiveAcceptance → QualificationRow → Option TargetRow → Bool
  matches acceptance q none = false
  matches acceptance q (some target) =
      nat_eq q.acceptance_revision acceptance.revision
      && q.target_definition_sha256 == digest target

  abbrev pub is_match : ActiveAcceptance → QualificationRow → Bool
  is_match acceptance q = matches acceptance q (find (λ t. t.id == q.target_id) targets)

  -- `acceptance_is_covered`
  unfoldable pub is_covered : List QualificationRow → (cycle_id : String) → ActiveAcceptance → Bool
  unfolding latest_by_target qualification_rows
  is_covered rows cycle_id acceptance =
      any (is_match acceptance)
        (latest_by_target [] (qualification_rows rows cycle_id acceptance.id))

  -- the query of `acceptance`
  unfoldable pub active_acceptances :
      List ActiveAcceptance → (cycle_id : String) → List ActiveAcceptance
  active_acceptances rows cycle_id =
      select (λ (a : ActiveAcceptance). a.cycle_id == cycle_id && a.status == "active") rows

  -- `_qualification_coverage_metric`
  unfoldable pub qualification_coverage_metric :
      Clock
      → List ActiveAcceptance
      → List QualificationRow
      → (cycle_id generated_at : String) → Metric
  unfolding active_acceptances is_covered snapshot_window
  qualification_coverage_metric clock rows qualifications cycle_id generated_at =
      let acceptances = active_acceptances rows cycle_id in
      share_metric (length (select (is_covered qualifications cycle_id) acceptances))
        (length acceptances) "the current cycle has no active acceptance denominator"
        (snapshot_window clock cycle_id generated_at)
