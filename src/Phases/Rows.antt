-- ===== src/Phases/Rows.antt =====
-- The rows of projects and cycles as events record them, and the update of a cycle.
use kafa.Base.{String, Option, none, some, List, [], ◌∷◌, ◌==◌, if◌then◌else◌}
use kafa.Base.Values.{str, integer, pos}
use kafa.Ledger.{ProjectRow, CycleRow, CycleStatus, Summary}
use kafa.Events.{EventFields}

-- `row_snapshot` of the project row
abbrev pub project_snapshot : ProjectRow → Summary
project_snapshot p =
    ("id", integer (pos 1))
    ∷ ("project_id", str p.project_id)
    ∷ ("schema_version", integer (pos p.schema_version))
    ∷ ("runtime_version", str p.runtime_version)
    ∷ ("phase", str p.phase)
    ∷ ("current_cycle_id", str p.current_cycle_id)
    ∷ ("status", str p.status)
    ∷ ("scope_status", str p.scope_status)
    ∷ ("current_owner", str p.current_owner)
    ∷ ("revision", integer (pos p.revision))
    ∷ ("updated_at", str p.updated_at)
    ∷ []

abbrev pub cycle_status_text : CycleStatus → String
cycle_status_text CycleStatus.active = "active"
cycle_status_text CycleStatus.delivered = "delivered"
cycle_status_text CycleStatus.archived = "archived"

-- `row_snapshot` of a delivery cycle
abbrev pub cycle_snapshot : CycleRow → Summary
cycle_snapshot c =
    ("id", str c.id)
    ∷ ("name", str c.name)
    ∷ ("goal", str c.goal)
    ∷ ("status", str (cycle_status_text c.status))
    ∷ ("phase", str c.phase)
    ∷ ("base_ref", str c.base_ref)
    ∷ ("candidate_sha", str c.candidate_sha)
    ∷ ("started_at", str c.started_at)
    ∷ ("closed_at", str c.closed_at)
    ∷ ("created_at", str c.created_at)
    ∷ ("updated_at", str c.updated_at)
    ∷ []

abbrev pub cycle_snapshot? : Option CycleRow → Option Summary
cycle_snapshot? none = none
cycle_snapshot? (some c) = some (cycle_snapshot c)

-- `update delivery_cycles set … where id = ?`
unfoldable pub update_cycle : String → (CycleRow → CycleRow) → List CycleRow → List CycleRow
update_cycle id f [] = []
update_cycle id f (c ∷ cs) = (if c.id == id then f c else c) ∷ update_cycle id f cs

abbrev pub event_of :
    (event_type entity_type entity_id : String)
    → Option Summary
    → Option Summary
    → (actor command : String) → Summary
    → EventFields
event_of event_type entity_type entity_id before after actor command extra = record {
  event_type = event_type;
  entity_type = entity_type;
  entity_id = entity_id;
  before = before;
  after = after;
  actor = actor;
  command = command;
  extra = extra;
}
