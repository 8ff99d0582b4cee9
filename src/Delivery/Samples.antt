-- ===== src/Delivery/Samples.antt =====
-- What blocks a delivery on small inputs, and the theorems on them.
use kafa.Base.{
  String, ◌≡◌, refl, Bool, true, false, none, some, List, [], ◌∷◌, ◌↔◌, ◌==◌, if◌then◌else◌, map,
}
use kafa.Base.Text.{strip, replace_z, text_lt}
use kafa.Base.Members.{In}
use kafa.Base.Values.{null, integer, str, pos, text_or_empty}
use kafa.Trust.Defs.{IsoParser, positive_integer, timestamp}
use kafa.Delivery.Findings.{
  FindingRow, Current, finding_blocks, is_complete, Settled, finding_blocks-eq_false_iff,
}
use kafa.Delivery.Blockers.{
  DeliveryBlocker, ordered_blockers, unique, sort, insert, precedes, index_of,
}
use kafa.Delivery.Report.{Distinct, Ranked, ordered_blockers-In}

-- A reader of one time stamp.
abbrev clock : IsoParser
clock s = if s == "2027-01-01" then some 200 else none

abbrev never : String → Bool
never _ = false

abbrev now : Current
now = record { cycle_id = "C1"; candidate = "abc"; revision = 3 }

abbrev waived : FindingRow
waived = record {
  id = "F1";
  cycle_id = "C1";
  candidate_sha = "abc";
  severity = "high";
  status = "accepted";
  waived_by = str "ann";
  waiver_reason = str "known";
  waiver_scope = str "cycle";
  waived_revision = integer (pos 3);
  waiver_expires_at = str "2027-01-01";
}

waiver_counts : finding_blocks clock never waived now ≡ false
unfolding finding_blocks is_complete text_or_empty positive_integer timestamp strip replace_z
waiver_counts = refl

no_reason : finding_blocks clock never (record waived { waiver_reason = null }) now ≡ true
unfolding finding_blocks is_complete text_or_empty positive_integer timestamp strip replace_z
no_reason = refl

finding_blocks-eq_false_iff_example :
    (finding_blocks clock never waived now ≡ false) ↔ Settled clock never waived now
finding_blocks-eq_false_iff_example = finding_blocks-eq_false_iff clock never waived now

abbrev blocker : String → String → DeliveryBlocker
blocker code id = record { code = code; message = "m"; entity_type = "cycle"; entity_id = id }

abbrev found : List DeliveryBlocker
found =
    blocker "cycle-not-active" "1"
    ∷ blocker "unlisted" "1"
    ∷ blocker "baseline-stale" "2"
    ∷ blocker "baseline-stale" "1"
    ∷ blocker "cycle-not-active" "1"
    ∷ []

report :
    map {B = String × String} (λ b. (b.code, b.entity_id)) (ordered_blockers found)
    ≡ ("baseline-stale", "1")
      ∷ ("baseline-stale", "2")
      ∷ ("cycle-not-active", "1")
      ∷ ("unlisted", "1")
      ∷ []
unfolding ordered_blockers unique sort insert precedes index_of text_lt
report = refl

ordered_blockers-In_example :
    ((b : DeliveryBlocker) → In b (ordered_blockers found) ↔ In b found)
    × Distinct (ordered_blockers found)
    × Ranked (ordered_blockers found)
ordered_blockers-In_example = ordered_blockers-In found
