-- ===== src/Events/AuditSamples.antt =====
-- A small event table, its checks run on it, and the theorems on it.
use kafa.Base.{
  String, ◌≡◌, refl, true, none, some, List, [], ◌∷◌, ◌==◌, ◌↔◌, if◌then◌else◌, is_empty, select,
}
use kafa.Base.Text.{strip}
use kafa.Base.Members.{In}
use kafa.Ledger.{Db, Summary, Stamps, ok}
use kafa.Events.{EventFields, schema_version, new_event, emit_audit_event}
use kafa.Events.Audit.{
  AuditRow, Loaded, object, invalid, missing_columns, unexpected_version, missing_text,
  invalid_json, required_columns, is_missing, validate_audit_events, audit_rows,
}
use kafa.Events.Audited.{
  IsSound, IsTold, validate_audit_events-nil_iff, emit_audit_event-validate_audit_events,
}

-- A reader that knows the empty object, and a writer that writes it.
abbrev loads : String → Loaded
loads text = if text == "{}" then object else invalid "Expecting value"

abbrev dumps : Summary → String
dumps summary = "{}"

abbrev row : AuditRow
row = record {
  sequence = 1;
  schema_version = 31;
  event_type = "task_added";
  entity_type = "task";
  entity_id = "T1";
  actor = "root-controller";
  command = "task add";
  before_json = "{}";
  after_json = "{}";
  correlation_id = "c1";
  created_at = "2026-01-01T00:00:00Z";
}

abbrev rows : List AuditRow
rows = row ∷ record row { sequence = 2; schema_version = 30; actor = "  "; after_json = "" } ∷ []

faults :
    validate_audit_events loads required_columns rows 31
    ≡ unexpected_version 2 30
      ∷ missing_text 2 "actor"
      ∷ invalid_json 2 "after_json" "Expecting value"
      ∷ []
unfolding validate_audit_events strip
faults = refl

old_table :
    validate_audit_events loads ("id" ∷ "sequence" ∷ []) [] 31
    ≡ missing_columns (
        "actor" ∷ "after_json" ∷ "before_json" ∷ "command" ∷ "correlation_id" ∷ "created_at"
        ∷ "entity_id" ∷ "entity_type" ∷ "event_type" ∷ "schema_version" ∷ [])
      ∷ []
unfolding validate_audit_events
old_table = refl

validate_audit_events-nil_iff_example :
    (validate_audit_events loads required_columns (row ∷ []) 31 ≡ []) ↔ (
      (is_empty (select (is_missing required_columns) required_columns) ≡ true)
      × ((r : AuditRow) → In r (row ∷ []) → IsSound loads 31 r))
validate_audit_events-nil_iff_example =
    validate_audit_events-nil_iff loads required_columns (row ∷ []) 31

abbrev db : Db
db = record {
  project = none;
  cycles = [];
  tasks = [];
  task_dependencies = [];
  task_acceptance = [];
  task_failure_modes = [];
  acceptance = [];
  failure_modes = [];
  requirements = [];
  baselines = [];
  events = [];
}

abbrev stamps : Stamps
stamps = record {
  updated_at = "2026-01-01T00:00:00Z";
  created_at = "2026-01-01T00:00:00Z";
  event_id = "e1";
  correlation_id = "c1";
}

abbrev fields : EventFields
fields = record {
  event_type = "task_added";
  entity_type = "task";
  entity_id = "T1";
  before = none;
  after = some [];
  actor = "";
  command = "";
  extra = [];
}

abbrev emitted_db : Db
emitted_db = record db { events = new_event stamps fields db ∷ [] }

emitted : emit_audit_event stamps fields db ≡ ok emitted_db
unfolding emit_audit_event
emitted = refl

told : IsTold loads stamps fields
unfolding strip
told = (refl, (refl, (refl, (refl, (refl, (refl, refl))))))

emit_audit_event-validate_audit_events_example :
    (validate_audit_events loads required_columns (audit_rows dumps emitted_db) schema_version ≡ [])
    ↔ ((validate_audit_events loads required_columns (audit_rows dumps db) schema_version ≡ [])
        × IsTold loads stamps fields)
emit_audit_event-validate_audit_events_example =
    emit_audit_event-validate_audit_events loads dumps (λ _. refl) required_columns stamps fields db
      emitted_db emitted
