-- ===== src/Events/Audited.antt =====
-- When the event table passes its checks, and that appending an event keeps it so.
use kafa.Base.{
  ℕ, String, ◌≡◌, refl, sym, subst, true, false, List, [], ◌∷◌, ◌++◌, ◌==◌, ◌⊎◌, inl, inr, ◌↔◌,
  nat_eq, select, is_empty, Bool-cases, reverse, map,
}
use mathlib.Core.List.{reverse-cons, map-append}
use kafa.Base.Text.{strip}
use kafa.Base.Members.{
  In, first, In-cons, In-append_left, In-append_right, In-append, append-nil_iff, collect_iff,
  when-nil_iff,
}
use kafa.Trust.Approval.{when_iff}
use kafa.Ledger.{Db, EventRow, Summary, Stamps, ok, guard-eq-ok, ok-injective}
use kafa.Events.{
  EventFields, schema_version, event_schema_version, or_default, new_event, emit_audit_event,
}
use kafa.Events.Audit.{
  AuditRow, Loaded, object, scalar, invalid, required_columns, is_missing, loaded_issue, row_issues,
  validate_audit_events, stored, audit_rows,
}

abbrev pub Given : String → Type 0
Given text = (strip text == "") ≡ false

module _ (loads : String → Loaded) where
  -- The row is of the version, names what happened, to what, by whom and when, and its summaries
  -- are objects.
  abbrev pub IsSound : (expected : ℕ) → AuditRow → Type 0
  IsSound expected row =
      (nat_eq row.schema_version expected ≡ true)
      × (Given row.event_type
          × (Given row.entity_type
              × (Given row.entity_id
                  × (Given row.actor
                      × (Given row.command
                          × (Given row.correlation_id
                              × (Given row.created_at
                                  × ((loads row.before_json ≡ object)
                                      × (loads row.after_json ≡ object)))))))))

  loaded-nil_iff :
      (sequence : ℕ) (field : String) (l : Loaded)
      → (loaded_issue sequence field l ≡ []) ↔ (l ≡ object)
  loaded-nil_iff sequence field object = (λ _. refl, λ _. refl)
  loaded-nil_iff sequence field scalar = (λ h. cc, λ h. cc)
  loaded-nil_iff sequence field (invalid detail) = (λ h. cc, λ h. cc)

  row_issues-nil_iff :
      (expected : ℕ) (row : AuditRow) → (row_issues loads expected row ≡ []) ↔ IsSound expected row
  unfolding row_issues
  row_issues-nil_iff expected row = append-nil_iff _ (when_iff _ _) (
      append-nil_iff _ (when-nil_iff _ _) (
        append-nil_iff _ (when-nil_iff _ _) (
          append-nil_iff _ (when-nil_iff _ _) (
            append-nil_iff _ (when-nil_iff _ _) (
              append-nil_iff _ (when-nil_iff _ _) (
                append-nil_iff _ (when-nil_iff _ _) (
                  append-nil_iff _ (when-nil_iff _ _)
                    (append-nil_iff _ (loaded-nil_iff _ _ _) (loaded-nil_iff _ _ _)))))))))

  -- The checks report nothing exactly if the table has all the required columns and each row is of
  -- the expected version, has none of its seven texts blank, and two summaries that are objects.
  pub validate_audit_events-nil_iff :
      (columns : List String) (rows : List AuditRow) (expected : ℕ)
      → (validate_audit_events loads columns rows expected ≡ []) ↔ (
          (is_empty (select (is_missing columns) required_columns) ≡ true)
          × ((row : AuditRow) → In row rows → IsSound expected row))
  unfolding validate_audit_events
  validate_audit_events-nil_iff columns rows expected =
      elim (Bool-cases (is_empty (select (is_missing columns) required_columns))) [
        | inl h ↦
            let (f, g) =
              collect_iff (row_issues loads expected) rows (row_issues-nil_iff expected) in
            rw h (λ n. (refl, f n), λ (_, n). g n)
        | inr h ↦ rw h (λ n. cc, λ (n, _). cc)
      ]

  each_append :
      {P : AuditRow → Type 0} (row : AuditRow) (rows : List AuditRow)
      → ((x : AuditRow) → In x (rows ++ (row ∷ [])) → P x)
        ↔ (((x : AuditRow) → In x rows → P x) × P row)
  each_append {P} row rows = (
    λ h. (λ x m. h x (In-append_left rows _ m), h row (In-append_right rows _ first)),
    λ (h, p) x m. from h p (In-append rows m),
  )
    where
      from :
          ((x : AuditRow) → In x rows → P x)
          → P row
          → {x : AuditRow} → In x rows ⊎ In x (row ∷ [])
          → P x
      from h p (inl m) = h _ m
      from h p (inr m) = elim (In-cons m) [ inl e ↦ subst P (sym e) p | inr n ↦ elim n [ ] ]

  -- The texts of the event that is to be appended, its defaults put in, are not blank.
  abbrev pub IsTold : Stamps → EventFields → Type 0
  IsTold stamps fields =
      Given fields.event_type
      × (Given fields.entity_type
          × (Given fields.entity_id
              × (Given (or_default fields.actor "root-controller")
                  × (Given (or_default fields.command fields.event_type)
                      × (Given stamps.correlation_id × Given stamps.created_at)))))

  module _ (dumps : Summary → String) (writes : (s : Summary) → loads (dumps s) ≡ object) where
    new_event-IsSound :
        (stamps : Stamps) (fields : EventFields) (db : Db)
        → nat_eq (event_schema_version db) schema_version ≡ true
        → IsSound schema_version (stored dumps (new_event stamps fields db)) ↔ IsTold stamps fields
    unfolding new_event
    new_event-IsSound stamps fields db v = (
      λ (_, (a, (b, (c, (d, (e, (f, (g, _)))))))). (a, (b, (c, (d, (e, (f, g)))))),
      λ (a, (b, (c, (d, (e, (f, g)))))).
          (v, (a, (b, (c, (d, (e, (f, (g, (writes _, writes _))))))))),
    )

    emitted :
        (stamps : Stamps) (fields : EventFields) (db db' : Db)
        → emit_audit_event stamps fields db ≡ ok db'
        → (nat_eq (event_schema_version db) schema_version ≡ true)
          × (db' ≡ record db { events = new_event stamps fields db ∷ db.events })
    unfolding emit_audit_event
    emitted stamps fields db db' h = let (v, e) = guard-eq-ok _ _ _ h in (v, sym (ok-injective e))

    rows_after :
        (e : EventRow) (es : List EventRow)
        → map (stored dumps) (reverse (e ∷ es))
          ≡ map (stored dumps) (reverse es) ++ (stored dumps e ∷ [])
    rows_after e es = rw (reverse-cons e es, map-append (stored dumps) (reverse es) (e ∷ [])) refl

    -- After an event was appended the table passes its checks exactly if it passed them before and
    -- none of the event's texts is blank, where JSON that was written is read back as an object.
    pub emit_audit_event-validate_audit_events :
        (columns : List String) (stamps : Stamps) (fields : EventFields) (db db' : Db)
        → emit_audit_event stamps fields db ≡ ok db'
        → (validate_audit_events loads columns (audit_rows dumps db') schema_version ≡ []) ↔ (
            (validate_audit_events loads columns (audit_rows dumps db) schema_version ≡ [])
            × IsTold stamps fields)
    emit_audit_event-validate_audit_events columns stamps fields db db' h =
        let (v, e) = emitted stamps fields db db' h in
        rw (e, rows_after (new_event stamps fields db) db.events)
          (let (f, g) =
              validate_audit_events-nil_iff columns
                (audit_rows dumps db ++ (stored dumps (new_event stamps fields db) ∷ []))
                schema_version in
            let (f', g') =
              validate_audit_events-nil_iff columns (audit_rows dumps db) schema_version in
            let (t, u) = new_event-IsSound stamps fields db v in
            let (p, q) =
              each_append (stored dumps (new_event stamps fields db)) (audit_rows dumps db) in
            (
              λ n. let (c, a) = f n in let (b, s) = p a in (g' (c, b), t s),
              λ (n, s). let (c, b) = f' n in g (c, q (b, u s)),
            ))
