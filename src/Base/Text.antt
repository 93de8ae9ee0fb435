-- ===== src/Base/Text.antt =====
-- The functions of Go's `strings`, `unicode` and `strconv` packages that the program calls, on
-- texts of valid UTF-8.
pub mod Split
pub mod Words
pub mod Number
use Prim.Native.Nat.{ℕ}
use Prim.Native.Char.{Char, code}
use Prim.Native.String.{String, [], ◌∷◌, ◌++◌}
use mathlib.Core.Bool.{Bool, true, false, ◌&&◌, ◌||◌, not}
use mathlib.Core.Option
use mathlib.Core.Option.{Option, none, some}
use mathlib.Core.List.{List}
use text.Mathlib.Text.{◌==◌}
use feeds_server.Base.Tests.{leb, eqb, if◌then◌else◌}

-- The case tables of the `unicode` package: `unicode.ToLower`, `unicode.ToUpper`, and the
-- representative of a rune's orbit under `unicode.SimpleFold`.
pub record Unicode : Type 0 where
  pub to_lower : Char → Char
  pub to_upper : Char → Char
  pub fold : Char → Char

-- `unicode.IsSpace`.
unfoldable pub is_space : Char → Bool
is_space ch =
    let c = code ch in
    (leb 9 c && leb c 13)
    || eqb c 32
    || eqb c 0x85
    || eqb c 0xa0
    || eqb c 0x1680
    || (leb 0x2000 c && leb c 0x200a)
    || eqb c 0x2028
    || eqb c 0x2029
    || eqb c 0x202f
    || eqb c 0x205f
    || eqb c 0x3000

unfoldable pub trim_left : (Char → Bool) → String → String
trim_left p [] = []
trim_left p (c ∷ s) = if p c then trim_left p s else c ∷ s

unfoldable pub trim_right : (Char → Bool) → String → String
trim_right p [] = []
trim_right p (c ∷ s) = let r = trim_right p s in if p c && r == "" then "" else c ∷ r

-- `strings.TrimFunc`
unfoldable pub trim_func : (Char → Bool) → String → String
unfolding trim_left trim_right
trim_func p s = trim_right p (trim_left p s)

-- `strings.TrimSpace`
unfoldable pub trim_space : String → String
unfolding trim_func is_space
trim_space s = trim_func is_space s

-- The test of `strings.TrimSpace(s) == ""`.
unfoldable pub is_blank : String → Bool
unfolding trim_space
is_blank s = trim_space s == ""

abbrev pub starts_word : String → Bool
starts_word [] = false
starts_word (c ∷ s) = not (is_space c)

-- A character goes in front of the first word, or is a word of its own.
abbrev pub attach : Char → Bool → List String → List String
attach c true (List.◌∷◌ w ws) = List.◌∷◌ (c ∷ w) ws
attach c _ ws = List.◌∷◌ (c ∷ []) ws

-- `strings.Fields`
unfoldable pub fields : String → List String
fields [] = List.[]
fields (c ∷ s) = let rest = fields s in if is_space c then rest else attach c (starts_word s) rest

-- `strings.Join`
unfoldable pub join : String → List String → String
join sep List.[] = ""
join sep (List.◌∷◌ x List.[]) = x
join sep (List.◌∷◌ x xs) = x ++ (sep ++ join sep xs)

abbrev pub map_chars : (Char → Char) → String → String
map_chars f [] = []
map_chars f (c ∷ s) = f c ∷ map_chars f s

module _ ⦃u : Unicode⦄ where
  -- `strings.ToLower` and `strings.ToUpper`
  unfoldable pub to_lower : String → String
  to_lower s = map_chars u.to_lower s

  unfoldable pub to_upper : String → String
  to_upper s = map_chars u.to_upper s

  -- `strings.EqualFold`
  unfoldable pub equal_fold : String → String → Bool
  equal_fold s t = map_chars u.fold s == map_chars u.fold t

-- `strings.ContainsRune`
unfoldable pub contains_char : ℕ → String → Bool
contains_char k [] = false
contains_char k (c ∷ s) = eqb (code c) k || contains_char k s

-- The part before the last occurrence of a character, and the part behind it, where it occurs:
-- `strings.LastIndexByte` and the two slices.
unfoldable pub split_last : ℕ → String → Option (String × String)
split_last k [] = none
split_last k (c ∷ s) = elim (split_last k s) [
  | some (a, b) ↦ some (c ∷ a, b)
  | none ↦ if eqb (code c) k then some ("", s) else none
]

abbrev pub is_digit : Char → Bool
is_digit c = leb b'0' (code c) && leb (code c) b'9'

abbrev pub all_chars : (Char → Bool) → String → Bool
all_chars p [] = true
all_chars p (c ∷ s) = p c && all_chars p s

-- `strings.HasSuffix` for one character, with the text before it.
unfoldable pub cut_last : ℕ → String → Option String
cut_last k [] = none
cut_last k (c ∷ []) = if eqb (code c) k then some "" else none
cut_last k (c ∷ s) = Option.map (λ r. c ∷ r) (cut_last k s)

-- `strings.HasPrefix` and `strings.HasSuffix`
unfoldable pub has_prefix : String → String → Bool
has_prefix p [] = p == ""
has_prefix [] (c ∷ s) = true
has_prefix (d ∷ p) (c ∷ s) = eqb (code d) (code c) && has_prefix p s

unfoldable pub has_suffix : String → String → Bool
has_suffix p [] = p == ""
has_suffix p (c ∷ s) = if (c ∷ s) == p then true else has_suffix p s

-- `strings.Contains`
unfoldable pub contains_text : String → String → Bool
unfolding has_prefix
contains_text part [] = part == ""
contains_text part (c ∷ s) = has_prefix part (c ∷ s) || contains_text part s

abbrev pub cons_first : Char → List String → List String
cons_first c List.[] = List.◌∷◌ (c ∷ []) List.[]
cons_first c (List.◌∷◌ w ws) = List.◌∷◌ (c ∷ w) ws

-- `strings.Split` at one character
unfoldable pub split_on : ℕ → String → List String
split_on k [] = List.◌∷◌ "" List.[]
split_on k (c ∷ s) =
    let rest = split_on k s in if eqb (code c) k then List.◌∷◌ "" rest else cons_first c rest
