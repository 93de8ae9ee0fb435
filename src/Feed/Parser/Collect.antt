-- ===== src/Feed/Parser/Collect.antt =====
-- The helpers of internal/feed/parser.go that collect texts, media and images, and read numbers
-- and dates.
pub mod Distinct
use Prim.Native.String.{String}
use feeds_server.Base.{
  ℕ, ◌==◌, Bool, true, false, ◌||◌, Option, none, some, List, [], ◌∷◌, ◌++◌, if◌then◌else◌,
}
use feeds_server.Base.Int.{ℤ, pos, negsuc}
use feeds_server.Base.Text.{Unicode, trim_space, equal_fold, to_lower, has_prefix}
use feeds_server.Base.Text.Number.{parse_int}
use feeds_server.Feed.Model.{Time, Article, Media, Image}

-- `firstNonEmpty`
unfoldable pub first_non_empty : List String → String
unfolding trim_space
first_non_empty [] = ""
first_non_empty (v ∷ vs) = if trim_space v == "" then first_non_empty vs else trim_space v

abbrev pub positive_or_zero : Option ℤ → ℤ
positive_or_zero none = pos 0
positive_or_zero (some (negsuc n)) = pos 0
positive_or_zero (some (pos n)) = pos n

-- `parsePositiveInt`
unfoldable pub parse_positive_int : String → ℤ
unfolding trim_space parse_int
parse_positive_int raw = positive_or_zero (parse_int (trim_space raw))

-- `time.Parse` by a layout.
pub record DateParser : Type 0 where
  pub parse_layout : String → String → Option Time

abbrev pub date_layouts : List String
date_layouts =
    "2006-01-02T15:04:05.999999999Z07:00" ∷ "2006-01-02T15:04:05Z07:00"
    ∷ "Mon, 02 Jan 2006 15:04:05 -0700" ∷ "Mon, 02 Jan 2006 15:04:05 MST" ∷ "02 Jan 06 15:04 -0700"
    ∷ "02 Jan 06 15:04 MST" ∷ "Monday, 02-Jan-06 15:04:05 MST" ∷ "Mon Jan _2 15:04:05 2006"
    ∷ "Mon, 2 Jan 2006 15:04:05 -0700" ∷ "Mon, 02 Jan 2006 15:04:05 -0700" ∷ []

module _ ⦃d : DateParser⦄ where
  unfoldable pub parse_with : List String → String → Option Time
  parse_with [] raw = none
  parse_with (layout ∷ layouts) raw = elim (d.parse_layout layout raw) [
    | some t ↦ some t
    | none ↦ parse_with layouts raw
  ]

  unfoldable pub parse_date : String → Option Time
  unfolding parse_with trim_space
  parse_date raw = parse_with date_layouts (trim_space raw)

module _ ⦃u : Unicode⦄ where
  -- The loop of `addUnique`
  unfoldable pub has_fold : String → List String → Bool
  unfolding equal_fold
  has_fold value [] = false
  has_fold value (x ∷ xs) = equal_fold x value || has_fold value xs

  unfoldable pub add_unique : List String → String → List String
  unfolding trim_space has_fold
  add_unique target value =
      if trim_space value == ""
      then target
      else if has_fold (trim_space value) target
      then target
      else target ++ trim_space value ∷ []

-- The loops of `addMedia` and `addImage`
unfoldable pub has_media : String → List Media → Bool
has_media url [] = false
has_media url (m ∷ ms) = m.url == url || has_media url ms

unfoldable pub has_image : String → List Image → Bool
has_image url [] = false
has_image url (i ∷ is') = i.url == url || has_image url is'

unfoldable pub add_media : List Media → Media → List Media
unfolding has_media
add_media target value = if has_media value.url target then target else target ++ value ∷ []

unfoldable pub add_image : List Image → Image → List Image
unfolding trim_space has_image
add_image target value =
    let url = trim_space value.url in
    if url == ""
    then target
    else if has_image url target
    then target
    else target ++ record value { url = url } ∷ []

module _ ⦃u : Unicode⦄ where
  unfoldable pub is_image : String → String → Bool
  unfolding equal_fold has_prefix to_lower
  is_image mime_type medium = equal_fold medium "image" || has_prefix "image/" (to_lower mime_type)

  -- `addMediaOrImage`
  unfoldable pub add_media_or_image : Article → String → String → ℤ → ℤ → String → Article
  unfolding is_image add_image add_media
  add_media_or_image article url mime_type width height medium =
      if trim_space url == ""
      then article
      else if is_image mime_type medium
      then record article {
        images =
            add_image article.images
              (record { url = trim_space url; width = width; height = height });
      }
      else record article {
        media = add_media article.media (record {
          url = trim_space url;
          mime_type = trim_space mime_type;
          width = width;
          height = height;
        });
      }
