-- ===== src/Events.antt =====
-- core/event_bus.py: the audit event that each operation appends, with its bounded summaries. The
-- table of the current schema is modelled; the columns of older schemas are not.
pub mod Audit
pub mod Audited
pub mod Bounds
mod AuditSamples
mod Samples
use kafa.Base.{
  ℕ, ◌+◌, String, Bool, Option, none, some, List, [], ◌∷◌, ◌++◌, ◌==◌, if◌then◌else◌, ltb, nat_eq,
  any, ◌&&◌,
}
use kafa.Base.Text.{take_text}
use kafa.Base.Values.{Value, str, moment, other, text_or_empty}
use kafa.Ledger.{Db, EventRow, Summary, Stamps, Result, ok, guard, ◌>>◌, constraint_failed}

-- `SUMMARY_FIELDS`
abbrev pub summary_fields : List String
summary_fields =
    "id" ∷ "uid" ∷ "project_id" ∷ "cycle_id" ∷ "current_cycle_id" ∷ "candidate_sha" ∷ "target_id"
    ∷ "task_id" ∷ "acceptance_id" ∷ "qualification_id" ∷ "execution_id" ∷ "schema_version"
    ∷ "runtime_version" ∷ "kind" ∷ "gateable" ∷ "stack_profile" ∷ "requires_sandbox"
    ∷ "requires_no_network" ∷ "result_format" ∷ "phase" ∷ "status" ∷ "scope_status" ∷ "priority"
    ∷ "risk" ∷ "severity" ∷ "surface" ∷ "result" ∷ "validation_status" ∷ "gate_status"
    ∷ "review_status" ∷ "reviewed_revision" ∷ "semantic_status" ∷ "policy_status" ∷ "sandbox_status"
    ∷ "runner" ∷ "no_network" ∷ "executed_count" ∷ "revision" ∷ "project_revision" ∷ "accepted_by"
    ∷ "acceptance_reason" ∷ "acceptance_scope" ∷ "accepted_revision" ∷ "expires_at" ∷ "waived_by"
    ∷ "waiver_reason" ∷ "waiver_scope" ∷ "waived_revision" ∷ "waiver_expires_at" ∷ "digest"
    ∷ "stdout_sha256" ∷ "artifact_path" ∷ "decision" ∷ "reason" ∷ "summary" ∷ []

-- `SUMMARY_STRING_LIMIT`
abbrev pub summary_string_limit : ℕ
summary_string_limit = 512

-- `d.get(key)`
unfoldable pub lookup : String → Summary → Option Value
lookup key [] = none
lookup key ((k, v) ∷ rest) = let later = lookup key rest in if k == key then some v else later

-- The item as the summary keeps it, if it does.
unfoldable pub bounded : Option Value → Option Value
unfolding take_text
bounded none = none
bounded (some (str s)) = some (str (take_text summary_string_limit s))
bounded (some (moment _ _)) = none
bounded (some (other _ _)) = none
bounded (some v) = some v

abbrev pub put : String → Option Value → Summary → Summary
put field none rest = rest
put field (some v) rest = (field, v) ∷ rest

unfoldable pub summarise : List String → Summary → Summary
unfolding lookup bounded
summarise [] value = []
summarise (field ∷ fields) value = put field (bounded (lookup field value)) (summarise fields value)

unfoldable pub compact_summary : Option Summary → Summary
unfolding summarise
compact_summary none = []
compact_summary (some value) = summarise summary_fields value

-- `dict(after or {})` with `update(extra)`: a key of `extra` is found first.
abbrev merged : Option Summary → Summary → Summary
merged none extra = extra
merged (some after) extra = extra ++ after

abbrev pub or_default : String → String → String
or_default s d = if s == "" then d else s

-- `max(sequence)`, and 0 for no row
unfoldable pub max_sequence : List EventRow → ℕ
max_sequence [] = 0
max_sequence (e ∷ es) = let m = max_sequence es in if ltb m e.sequence then e.sequence else m

pub record EventFields : Type 0 where
  pub event_type : String
  pub entity_type : String
  pub entity_id : String
  pub before : Option Summary
  pub after : Option Summary
  pub actor : String
  pub command : String
  pub extra : Summary

-- `SCHEMA_VERSION`, which the table's CHECK constraint asks for
abbrev pub schema_version : ℕ
schema_version = 31

abbrev pub event_schema_version : Db → ℕ
event_schema_version db = elim db.project [ none ↦ schema_version | some p ↦ p.schema_version ]

unfoldable pub new_event : Stamps → EventFields → Db → EventRow
unfolding max_sequence compact_summary
new_event stamps fields db = record {
  sequence = max_sequence db.events + 1;
  id = stamps.event_id;
  schema_version = event_schema_version db;
  event_type = fields.event_type;
  entity_type = fields.entity_type;
  entity_id = fields.entity_id;
  actor = or_default fields.actor "root-controller";
  command = or_default fields.command fields.event_type;
  before = compact_summary fields.before;
  after = compact_summary (some (merged fields.after fields.extra));
  correlation_id = stamps.correlation_id;
  created_at = stamps.created_at;
}

-- The newest event stands first.
unfoldable pub emit_audit_event : Stamps → EventFields → Db → Result Db
unfolding new_event
emit_audit_event stamps fields db = do
  guard (nat_eq (event_schema_version db) schema_version) (constraint_failed "events")
  ok (record db { events = new_event stamps fields db ∷ db.events })

-- `_has_task_accept_event` of core/invariant_checker.py
unfoldable pub has_task_accept_event : String → String → List EventRow → Bool
unfolding lookup text_or_empty
has_task_accept_event task_id cycle_id events =
    any
      (λ e.
        e.event_type == "task_accepted"
        && e.entity_id == task_id
        && (elim (lookup "cycle_id" e.after) [
          | none ↦ "" == cycle_id
          | some v ↦ text_or_empty v == cycle_id
        ]))
      events
