-- ===== src/Base/Values.antt =====
-- Values of a column or of a mapping, as the sources meet them behind the type `object`.
use Prim.Native.Nat.{ℕ, suc}
use Prim.Native.String.{String}
use mathlib.Core.Bool.{Bool, true, false}
use text.Mathlib.Text.{◌==◌}
use kafa.Base.Text.{decimal, strip}
use kafa.Base.Tests.{if◌then◌else◌, nat_eq}

-- `negsuc n` is -(n + 1).
pub data ℤ : Type 0 where
  pos : ℕ → ℤ
  negsuc : ℕ → ℤ

-- `moment` is a `datetime`, by its instant in UTC (one without a zone is read as UTC), `real`
-- a float and `other` any further value. They carry what `str` makes of them, and the last two
-- their truth value.
pub data Value : Type 0 where
  null : Value
  flag : Bool → Value
  integer : ℤ → Value
  str : String → Value
  moment : (utc : ℕ) (rendered : String) → Value
  real other : (truth : Bool) (rendered : String) → Value

-- `str(value or "")`
unfoldable pub text_or_empty : Value → String
unfolding decimal
text_or_empty null = ""
text_or_empty (flag b) = if b then "True" else ""
text_or_empty (integer (pos n)) = if nat_eq n 0 then "" else decimal n
text_or_empty (integer (negsuc n)) = Prim.Native.String.◌++◌ "-" (decimal (suc n))
text_or_empty (str s) = s
text_or_empty (moment t s) = s
text_or_empty (real b s) = if b then s else ""
text_or_empty (other b s) = if b then s else ""

-- `value if isinstance(value, str) else ""`
abbrev pub only_text : Value → String
only_text (str s) = s
only_text _ = ""

-- `value is None or (isinstance(value, str) and not value.strip())`
unfoldable pub is_absent : Value → Bool
is_absent null = true
is_absent (str s) = strip s == ""
is_absent _ = false
