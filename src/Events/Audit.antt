-- ===== src/Events/Audit.antt =====
-- `validate_audit_events` of core/event_bus.py: the checks of the stored event table. A row's
-- summaries are JSON texts here; the reader and the writer of JSON are parameters.
use kafa.Base.{
  ℕ, String, Bool, not, List, [], ◌∷◌, ◌++◌, ◌==◌, if◌then◌else◌, nat_eq, select, any, collect, map,
  when, is_empty, reverse,
}
use kafa.Base.Text.{strip}
use kafa.Ledger.{Db, EventRow, Summary}

-- A row of the table `events`.
pub record AuditRow : Type 0 where
  pub sequence : ℕ
  pub schema_version : ℕ
  pub event_type : String
  pub entity_type : String
  pub entity_id : String
  pub actor : String
  pub command : String
  pub before_json : String
  pub after_json : String
  pub correlation_id : String
  pub created_at : String

-- What `json.loads` gives: a dict, another value, or an error with its message.
pub data Loaded : Type 0 where
  object : Loaded
  scalar : Loaded
  invalid : (detail : String) → Loaded

pub data AuditIssue : Type 0 where
  missing_columns : (columns : List String) → AuditIssue
  unexpected_version : (sequence version : ℕ) → AuditIssue
  missing_text : (sequence : ℕ) (field : String) → AuditIssue
  invalid_json : (sequence : ℕ) (field detail : String) → AuditIssue
  not_object : (sequence : ℕ) (field : String) → AuditIssue

-- `required_columns`, sorted
abbrev pub required_columns : List String
required_columns =
    "actor" ∷ "after_json" ∷ "before_json" ∷ "command" ∷ "correlation_id" ∷ "created_at"
    ∷ "entity_id" ∷ "entity_type" ∷ "event_type" ∷ "id" ∷ "schema_version" ∷ "sequence" ∷ []

abbrev pub is_missing : List String → String → Bool
is_missing columns required = not (any (λ column. column == required) columns)

abbrev pub text_issue : ℕ → String → String → List AuditIssue
text_issue sequence field text = when (strip text == "") (missing_text sequence field ∷ [])

abbrev pub loaded_issue : ℕ → String → Loaded → List AuditIssue
loaded_issue sequence field object = []
loaded_issue sequence field scalar = not_object sequence field ∷ []
loaded_issue sequence field (invalid detail) = invalid_json sequence field detail ∷ []

module _ (loads : String → Loaded) where
  unfoldable pub row_issues : (expected : ℕ) → AuditRow → List AuditIssue
  row_issues expected row =
      when (not (nat_eq row.schema_version expected))
        (unexpected_version row.sequence row.schema_version ∷ [])
      ++ (text_issue row.sequence "event_type" row.event_type
          ++ (text_issue row.sequence "entity_type" row.entity_type
              ++ (text_issue row.sequence "entity_id" row.entity_id
                  ++ (text_issue row.sequence "actor" row.actor
                      ++ (text_issue row.sequence "command" row.command
                          ++ (text_issue row.sequence "correlation_id" row.correlation_id
                              ++ (text_issue row.sequence "created_at" row.created_at
                                  ++ (loaded_issue row.sequence "before_json"
                                        (loads row.before_json)
                                      ++ loaded_issue row.sequence "after_json"
                                          (loads row.after_json)))))))))

  -- The rows come in the order of their sequence.
  unfoldable pub validate_audit_events :
      (columns : List String) (rows : List AuditRow) (expected : ℕ) → List AuditIssue
  unfolding row_issues
  validate_audit_events columns rows expected =
      let missing = select (is_missing columns) required_columns in
      if is_empty missing then collect (row_issues expected) rows else missing_columns missing ∷ []

-- The row that an event is stored as.
abbrev pub stored : (dumps : Summary → String) → EventRow → AuditRow
stored dumps e = record {
  sequence = e.sequence;
  schema_version = e.schema_version;
  event_type = e.event_type;
  entity_type = e.entity_type;
  entity_id = e.entity_id;
  actor = e.actor;
  command = e.command;
  before_json = dumps e.before;
  after_json = dumps e.after;
  correlation_id = e.correlation_id;
  created_at = e.created_at;
}

-- The newest event stands first in the model, so the rows by sequence are the reverse.
abbrev pub audit_rows : (dumps : Summary → String) → Db → List AuditRow
audit_rows dumps db = map (stored dumps) (reverse db.events)
