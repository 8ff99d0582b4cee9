-- ===== src/Delivery/Example.antt =====
-- A small delivery with an accepted risk, on which the policy of core/delivery.py is run.
use kafa.Base.{true, false, none, some, [], ◌∷◌, ◌==◌, if◌then◌else◌}
use kafa.Base.Values.{null, integer, str, pos}
use kafa.Ledger.{Db, ProjectRow, CycleRow, CycleStatus, ok}
use kafa.Trust.Defs.{IsoParser}
use kafa.Trust.Policy.{
  Decision, accepted_risk, procedural, gate_reviewed_local, high_risks_accepted,
  contexts_self_reported,
}
use kafa.Delivery.Facts.{
  Facts, ValidationRow, FailureModeRow, GateRow, Inspectors, Request, no_linked_execution,
}

abbrev pub clock : IsoParser
clock s = if s == "2026-01-01" then some 100 else if s == "2027-01-01" then some 200 else none

-- A validation has an execution in order exactly for the candidate abc.
abbrev pub inspectors : Inspectors
inspectors = record {
  parse = clock;
  is_expired = λ _. false;
  now_iso = "2026-01-01";
  current_candidate_sha = ok "abc";
  has_head = true;
  git_dirty = ok false;
  evaluators = record {
    baseline_digest = λ _ _. "d";
    readiness_blockers = λ _. [];
    candidate_sha = "abc";
  };
  traceability_issues = ok [];
  validation_execution_issues =
      λ v candidate _. if candidate == "abc" then [] else no_linked_execution v.id ∷ [];
  qualified_validation_execution_issues =
      λ v _ candidate _. if candidate == "abc" then [] else no_linked_execution v.id ∷ [];
}

abbrev pub cycle : CycleRow
cycle = record {
  id = "C1";
  name = "one";
  goal = "deliver";
  status = CycleStatus.active;
  phase = "qa";
  base_ref = "";
  candidate_sha = "";
  started_at = "";
  closed_at = "";
  created_at = "";
  updated_at = "";
}

abbrev pub project : ProjectRow
project = record {
  project_id = "P";
  schema_version = 31;
  runtime_version = "1";
  current_cycle_id = "C1";
  phase = "qa";
  status = "draft";
  scope_status = "confirmed";
  current_owner = "project-manager";
  revision = 3;
  updated_at = "";
}

abbrev pub base : Db
base = record {
  project = some project;
  cycles = cycle ∷ [];
  tasks = [];
  task_dependencies = [];
  task_acceptance = [];
  task_failure_modes = [];
  acceptance = [];
  failure_modes = [];
  requirements = record { cycle_id = "C1"; id = "R1"; cancelled = false } ∷ [];
  baselines = record { cycle_id = "C1"; id = "B1"; digest = "d" } ∷ [];
  events = [];
}

abbrev pub validation : ValidationRow
validation = record {
  id = "V1";
  cycle_id = "C1";
  candidate_sha = "abc";
  acceptance_id = some "A1";
  surface = "api";
  result = "pass";
  validation_status = "active";
  qualification_id = some "Q1";
}

abbrev pub mode : FailureModeRow
mode = record {
  cycle_id = "C1";
  id = "FM1";
  risk = "high";
  status = "accepted";
  accepted_by = str "ann";
  acceptance_reason = str "known";
  acceptance_scope = str "cycle";
  accepted_revision = integer (pos 3);
  expires_at = str "2027-01-01";
}

abbrev pub gate : GateRow
gate = record {
  id = "G1";
  sequence = 1;
  cycle_id = "C1";
  candidate_sha = "abc";
  gate_status = "active";
  gate = "qa";
  producer_context_id = str "maker";
  reviewer_context_id = str "checker";
  review_status = str "reviewed-local";
  result = "pass";
  blocking_findings = "";
  residual_risk = str "";
  reviewed_revision = integer (pos 3);
}

abbrev pub facts : Facts
facts = record {
  base = base;
  invalidations = [];
  validations = validation ∷ [];
  has_qualification_column = true;
  qualifications =
      record {
        id = "Q1";
        cycle_id = "C1";
        acceptance_id = "A1";
        acceptance_revision = 1;
        target_id = "T1";
        target_definition_sha256 = "d";
      }
      ∷ [];
  acceptances = record { cycle_id = "C1"; id = "A1"; revision = 1; status = "active" } ∷ [];
  failure_modes = mode ∷ [];
  validation_failure_modes = [];
  failure_mode_acceptance = [];
  findings = [];
  quality_gates = gate ∷ [];
}

abbrev pub request : Request
request = record {
  observed_at = none;
  include_graph_issues = true;
  cycle_override = none;
  candidate_override = none;
  revision_override = null;
  historical = false;
}

-- What the policy decides on it.
abbrev pub decision : Decision
decision = record {
  status = accepted_risk;
  trust_level = procedural;
  delivery_allowed = true;
  reasons = gate_reviewed_local ∷ high_risks_accepted ∷ contexts_self_reported ∷ [];
}
