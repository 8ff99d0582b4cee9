-- ===== src/Base/Text.antt =====
-- The methods of Python's `str` that the sources call: `strip`, `lower`, `replace("Z", "+00:00")`,
-- the order of `sorted`, and `str` of an integer. `lower` changes ASCII letters alone: its results
-- are compared with ASCII words only, and of the other characters only the Kelvin sign has an
-- ASCII lower case, which is the letter k and stands in none of those words.
use Prim.Native.Char.{Char, code}
use Prim.Native.Nat.{ℕ, zero, suc, ◌/◌, ◌%◌}
use Prim.Native.String.{String}
use mathlib.Core.Path.{◌≡◌, refl}
use mathlib.Core.Bool.{Bool, true, false, ◌&&◌, ◌||◌}
use kafa.Base.Tests.{ltb, leb, nat_eq, if◌then◌else◌}

-- Python's white space (`str.isspace`), by code points.
is_space : Char → Bool
is_space c =
    let n = code c in
    (leb 9 n && leb n 13)
    || (leb 28 n && leb n 32)
    || nat_eq n 133
    || nat_eq n 160
    || nat_eq n 5760
    || (leb 8192 n && leb n 8202)
    || (leb 8232 n && leb n 8233)
    || nat_eq n 8239
    || nat_eq n 8287
    || nat_eq n 12288

strip_left : String → String
unfolding is_space
strip_left String.[] = ""
strip_left (String.◌∷◌ c s) = let rest = strip_left s in if is_space c then rest else String.◌∷◌ c s

abbrev drop_if : Bool → Char → String → String
drop_if b c String.[] = if b then "" else String.◌∷◌ c ""
drop_if b c s = String.◌∷◌ c s

strip_right : String → String
unfolding is_space
strip_right String.[] = ""
strip_right (String.◌∷◌ c s) = drop_if (is_space c) c (strip_right s)

unfoldable pub strip : String → String
unfolding strip_left strip_right
strip s = strip_left (strip_right s)

-- `s[:n]`
unfoldable pub take_text : ℕ → String → String
take_text zero s = ""
take_text (suc n) String.[] = ""
take_text (suc n) (String.◌∷◌ c s) = String.◌∷◌ c (take_text n s)

pick : String → String → Char → Char
pick (String.◌∷◌ u us) (String.◌∷◌ l ls) c =
    let later = pick us ls c in if nat_eq (code u) (code c) then l else later
pick _ _ c = c

unfoldable pub lower : String → String
unfolding pick
lower String.[] = ""
lower (String.◌∷◌ c s) =
    String.◌∷◌ (pick "ABCDEFGHIJKLMNOPQRSTUVWXYZ" "abcdefghijklmnopqrstuvwxyz" c) (lower s)

-- `upper` of the source, on ASCII letters.
unfoldable pub upper : String → String
unfolding pick
upper String.[] = ""
upper (String.◌∷◌ c s) =
    String.◌∷◌ (pick "abcdefghijklmnopqrstuvwxyz" "ABCDEFGHIJKLMNOPQRSTUVWXYZ" c) (upper s)

-- `s.replace("Z", "+00:00")`
unfoldable pub replace_z : String → String
replace_z String.[] = ""
replace_z (String.◌∷◌ c s) =
    let rest = replace_z s in
    if nat_eq (code c) b'Z' then Prim.Native.String.◌++◌ "+00:00" rest else String.◌∷◌ c rest

-- `s < t` of two texts: by code points.
unfoldable pub text_lt : String → String → Bool
text_lt s String.[] = false
text_lt String.[] (String.◌∷◌ d t) = true
text_lt (String.◌∷◌ c s) (String.◌∷◌ d t) =
    let later = text_lt s t in if nat_eq (code c) (code d) then later else ltb (code c) (code d)

digit : String → ℕ → String
digit (String.◌∷◌ d ds) zero = String.◌∷◌ d ""
digit (String.◌∷◌ d ds) (suc n) = digit ds n
digit String.[] n = ""

-- The fuel is the number itself, which has no more digits than that.
decimal_from : ℕ → ℕ → String → String
unfolding digit
decimal_from zero n later = Prim.Native.String.◌++◌ (digit "0123456789" (n % 10)) later
decimal_from (suc f) n later =
    let here = Prim.Native.String.◌++◌ (digit "0123456789" (n % 10)) later in
    let more = decimal_from f (n / 10) here in if ltb n 10 then here else more

-- `str` of a non-negative integer
unfoldable pub decimal : ℕ → String
unfolding decimal_from
decimal n = decimal_from n n ""

strip_test : strip "  a b \n" ≡ "a b"
unfolding strip
strip_test = refl

lower_test : lower "High-7" ≡ "high-7"
unfolding lower
lower_test = refl

decimal_test : decimal 1203 ≡ "1203"
unfolding decimal
decimal_test = refl

replace_z_test : replace_z "10:00Z" ≡ "10:00+00:00"
unfolding replace_z
replace_z_test = refl
