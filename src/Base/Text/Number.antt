-- ===== src/Base/Text/Number.antt =====
-- `strconv.ParseInt(s, 10, 64)` and `strconv.Atoi`, which agree where `int` has 64 bits.
use Prim.Native.Nat.{ℕ, ◌+◌, ◌-◌, ◌*◌, ◌^◌}
use Prim.Native.Char.{code}
use Prim.Native.String.{String, [], ◌∷◌}
use mathlib.Core.Path.{◌≡◌, refl}
use mathlib.Core.Option.{Option, none, some}
use feeds_server.Base.Tests.{ltb, leb, eqb, if◌then◌else◌}
use feeds_server.Base.Int.{ℤ, pos, negsuc, neg}
use feeds_server.Base.Text.{is_digit}

-- The value of a run of decimal digits behind those that were read; none at another character.
unfoldable pub digits : ℕ → String → Option ℕ
digits n [] = some n
digits n (c ∷ s) = let rest = digits (n * 10 + (code c - 48)) s in if is_digit c then rest else none

-- At least one digit.
unfoldable pub number : String → Option ℕ
unfolding digits
number [] = none
number (c ∷ s) = digits 0 (c ∷ s)

abbrev pub in_range : Option ℕ → Option ℤ
in_range none = none
in_range (some n) = if ltb n (2 ^ 63) then some (pos n) else none

abbrev pub negated : Option ℕ → Option ℤ
negated none = none
negated (some n) = if leb n (2 ^ 63) then some (neg n) else none

-- An optional sign and digits, in the range of `int64`.
unfoldable pub parse_int : String → Option ℤ
unfolding number
parse_int [] = none
parse_int (c ∷ s) =
    if eqb (code c) b'-'
    then negated (number s)
    else if eqb (code c) b'+'
    then in_range (number s)
    else in_range (number (c ∷ s))

parse_int_tests :
    (parse_int "120" ≡ some (pos 120))
    × (parse_int "-3" ≡ some (negsuc 2))
    × (parse_int "+7" ≡ some (pos 7))
    × (parse_int "" ≡ none)
    × (parse_int "1x" ≡ none)
    × (parse_int "9223372036854775808" ≡ none)
unfolding parse_int
parse_int_tests = (refl, refl, refl, refl, refl, refl)
