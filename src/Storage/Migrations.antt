-- ===== src/Storage/Migrations.antt =====
-- internal/storage/postgres/migrations.go: names, order and completeness of the migrations.
pub mod Listed
use Prim.Native.Char.{Char, code}
use Prim.Native.String.{[], ◌∷◌}
use feeds_server.Base.{
  ℕ, zero, suc, ◌+◌, String, ◌==◌, Bool, true, false, ◌&&◌, ◌||◌, not, Option, none, some, List,
  ltb, leb, eqb, if◌then◌else◌,
}
use feeds_server.Base.Int.{ℤ, pos, negsuc}
use feeds_server.Base.Text.{is_digit, all_chars, trim_space}
use feeds_server.Base.Text.Number.{parse_int}
use feeds_server.Storage.Attempt.{Attempt, done, failed}

pub record Migration : Type 0 where
  pub version : ℕ
  pub name : String
  pub sql : String

-- `len`, `name[i]`, `name[:n]` and `name[n:]`, by characters. A name with a character outside
-- ASCII is refused, here as by the source, which counts bytes.
unfoldable pub text_length : String → ℕ
text_length [] = 0
text_length (c ∷ s) = text_length s + 1

unfoldable pub stands_at : ℕ → ℕ → String → Bool
stands_at k i [] = false
stands_at k zero (c ∷ s) = eqb (code c) k
stands_at k (suc i) (c ∷ s) = stands_at k i s

unfoldable pub take_text : ℕ → String → String
take_text n [] = []
take_text zero (c ∷ s) = []
take_text (suc n) (c ∷ s) = c ∷ take_text n s

unfoldable pub drop_text : ℕ → String → String
drop_text n [] = []
drop_text zero (c ∷ s) = c ∷ s
drop_text (suc n) (c ∷ s) = drop_text n s

-- `strings.HasSuffix(s, ".sql")` with `strings.TrimSuffix(s, ".sql")`.
unfoldable pub cut_sql : String → Option String
cut_sql [] = none
cut_sql (c ∷ s) = elim (cut_sql s) [
  | some r ↦ some (c ∷ r)
  | none ↦ if (c ∷ s) == ".sql" then some "" else none
]

abbrev pub has_sql : String → Bool
has_sql name = elim (cut_sql name) [ some r ↦ true | none ↦ false ]

abbrev pub trim_sql : String → String
trim_sql name = elim (cut_sql name) [ some r ↦ r | none ↦ name ]

abbrev pub is_slug_char : Char → Bool
is_slug_char c = (leb b'a' (code c) && leb (code c) b'z') || is_digit c || eqb (code c) b'_'

abbrev pub version_of : Option ℤ → Attempt ℕ
version_of none = failed "invalid migration version"
version_of (some (negsuc n)) = failed "invalid migration version"
version_of (some (pos n)) = if ltb n 1 then failed "invalid migration version" else done n

unfoldable pub migration_version : String → Attempt ℕ
unfolding text_length stands_at take_text drop_text cut_sql parse_int
migration_version name =
    if ltb (text_length name) 9 || not (stands_at b'_' 4 name) || not (has_sql name)
    then failed "invalid migration name"
    else if not (all_chars is_digit (take_text 4 name))
    then failed "invalid migration version"
    else if trim_sql (drop_text 5 name) == ""
    then failed "migration name has an empty subject"
    else if not (all_chars is_slug_char (trim_sql (drop_text 5 name)))
    then failed "migration name must use lowercase letters, digits, and underscores"
    else version_of (parse_int (take_text 4 name))

-- An entry of the embedded directory, and what reading it gives, if it can be read.
pub record Entry : Type 0 where
  pub name : String
  pub is_dir : Bool
  pub content : Option String

-- The guard of the loop.
abbrev pub is_migration : Entry → Bool
is_migration e = not (e.is_dir || not (has_sql e.name))

-- `_, ok := versions[version]`
unfoldable pub has_version : ℕ → List Migration → Bool
has_version v List.[] = false
has_version v (List.◌∷◌ m ms) = eqb m.version v || has_version v ms

abbrev pub entry_body : Option String → Attempt String
entry_body none = failed "read migration"
entry_body (some body) =
    if trim_space body == "" then failed "migration is empty" else done (trim_space body)

-- One entry, of which the loop reads the version, then whether it is new, then the body. The map
-- of versions has the versions of the migrations that are read.
unfoldable pub read_entry : List Migration → Entry → Attempt Migration
read_entry so_far e = elim (migration_version e.name) [
  | failed m ↦ failed m
  | done v ↦ elim (has_version v so_far) [
    | true ↦ failed "duplicate migration version"
    | false ↦ elim (entry_body e.content) [
      | failed m ↦ failed m
      | done sql ↦ done (record { version = v; name = e.name; sql = sql })
    ]
  ]
]

abbrev pub snoc_migration : List Migration → Migration → List Migration
snoc_migration List.[] m = List.◌∷◌ m List.[]
snoc_migration (List.◌∷◌ x xs) m = List.◌∷◌ x (snoc_migration xs m)

-- The loop over the entries.
unfoldable pub read_entries : List Migration → List Entry → Attempt (List Migration)
read_entries so_far List.[] = done so_far
read_entries so_far (List.◌∷◌ e es) = elim (is_migration e) [
  | false ↦ read_entries so_far es
  | true ↦ elim (read_entry so_far e) [
    | failed m ↦ failed m
    | done m ↦ read_entries (snoc_migration so_far m) es
  ]
]

-- `sort.Slice` by version; the versions differ, so every sort gives the same.
unfoldable pub place : Migration → List Migration → List Migration
place m List.[] = List.◌∷◌ m List.[]
place m (List.◌∷◌ x xs) =
    let later = place m xs in
    if ltb m.version x.version then List.◌∷◌ m (List.◌∷◌ x xs) else List.◌∷◌ x later

unfoldable pub sort_by_version : List Migration → List Migration
unfolding place
sort_by_version List.[] = List.[]
sort_by_version (List.◌∷◌ m ms) = place m (sort_by_version ms)

-- The last loop: the versions count up from the expected one.
unfoldable pub is_contiguous : ℕ → List Migration → Bool
is_contiguous expected List.[] = true
is_contiguous expected (List.◌∷◌ m ms) = eqb m.version expected && is_contiguous (expected + 1) ms

abbrev pub checked_order : List Migration → Attempt (List Migration)
checked_order ms =
    if is_contiguous 1 ms then done ms else failed "migration sequence must be contiguous"

-- `Migrations`, on what reading the directory gives.
unfoldable pub migrations : Option (List Entry) → Attempt (List Migration)
unfolding sort_by_version is_contiguous
migrations none = failed "read embedded migrations"
migrations (some entries) = elim (read_entries List.[] entries) [
  | failed m ↦ failed m
  | done ms ↦ checked_order (sort_by_version ms)
]

-- Opens all that `migrations` goes through.
unfoldable pub migrations_run : Unit {0}
unfolding migrations read_entries read_entry has_version migration_version trim_space
migrations_run = tt
