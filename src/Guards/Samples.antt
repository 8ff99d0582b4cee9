-- ===== src/Guards/Samples.antt =====
-- Small entities, accepted and refused, and the theorem on them.
use kafa.Base.{◌≡◌, refl, ◌↔◌}
use kafa.Base.Text.{strip}
use kafa.Base.Sets.{contains}
use kafa.Ledger.{ok, err, choice_invalid, text_required}
use kafa.Tasks.Defs.{require_text}
use kafa.Guards.{failure_mode, test_target, validate, require_choice}
use kafa.Guards.Accepts.{IsValid, validate_iff}

unknown_risk :
    validate (failure_mode "FM1" "High" "identified")
    ≡ err (choice_invalid "failure mode risk" "High")
unfolding validate require_choice require_text contains strip
unknown_risk = refl

blank_id : validate (failure_mode " " "high" "identified") ≡ err (text_required "failure mode id")
unfolding validate require_choice require_text contains strip
blank_id = refl

validate_iff_example :
    (validate (test_target "T" "unit" "pytest" "python" "regex") ≡ ok tt)
    ↔ IsValid (test_target "T" "unit" "pytest" "python" "regex")
validate_iff_example = validate_iff (test_target "T" "unit" "pytest" "python" "regex")
