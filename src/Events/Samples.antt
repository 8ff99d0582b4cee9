-- ===== src/Events/Samples.antt =====
-- A summary of a small row, and the theorem on it.
use kafa.Base.{◌≡◌, refl, some, [], ◌∷◌, ◌↔◌}
use kafa.Base.Text.{take_text}
use kafa.Base.Members.{In}
use kafa.Base.Values.{str, moment}
use kafa.Ledger.{Summary}
use kafa.Events.{summary_fields, lookup, bounded, compact_summary}
use kafa.Events.Bounds.{IsSmall, compact_summary-In}

abbrev row : Summary
row =
    ("body", str "long")
    ∷ ("status", str "active")
    ∷ ("expires_at", moment 5 "then")
    ∷ ("id", str "T1")
    ∷ []

summary_of_row : compact_summary (some row) ≡ ("id", str "T1") ∷ ("status", str "active") ∷ []
unfolding compact_summary take_text
summary_of_row = refl

compact_summary-In_example :
    (In ("id", str "T1") (compact_summary (some row))
      ↔ (In "id" summary_fields × (bounded (lookup "id" row) ≡ some (str "T1"))))
    × (In ("id", str "T1") (compact_summary (some row)) → IsSmall (str "T1"))
compact_summary-In_example = compact_summary-In row "id" (str "T1")
