-- ===== src/Feed/Parser/Collect/Distinct.antt =====
-- Repetitions and empty texts in the collected lists of an article.
use feeds_server.Base.{
  ◌≡◌, ◌≢◌, arith, String, ◌==◌, eq_iff, false, Bool-cases, inl, inr, List, [], ◌∷◌, ◌++◌,
}
use feeds_server.Base.Int.{ℤ}
use feeds_server.Base.Seq.{All, All-concat}
use feeds_server.Base.Text.{Unicode, trim_space, equal_fold}
use feeds_server.Feed.Model.{Article, Media, Image}
use feeds_server.Feed.Parser.Collect.{
  has_fold, add_unique, has_media, has_image, add_media, add_image, is_image, add_media_or_image,
}

-- Each item is related to every later one.
abbrev pub Pairwise {ℓ κ} : {A : Type ℓ} → (A → A → Type κ) → List A → Type κ
Pairwise R [] = Unit
Pairwise R (x ∷ xs) = All (R x) xs × Pairwise R xs

Pairwise-concat {ℓ κ} :
    {A : Type ℓ} (R : A → A → Type κ) (xs : List A) (v : A)
    → Pairwise R xs
    → All (λ x. R x v) xs
    → Pairwise R (xs ++ v ∷ [])
Pairwise-concat R [] v p h = (tt, tt)
Pairwise-concat R (x ∷ xs) v p h = (All-concat (R x) xs p.0 h.0, Pairwise-concat R xs v p.1 h.1)

not_empty : (s : String) → (s == "") ≡ false → s ≢ ""
not_empty s h = ground (arith, eq_iff s "")

not_equal : (s t : String) → (s == t) ≡ false → s ≢ t
not_equal s t h = ground (arith, eq_iff s t)

module _ ⦃u : Unicode⦄ where
  -- No text is empty, and no two are equal but for case.
  abbrev pub AreDistinct : List String → Type 0
  AreDistinct xs = All (λ x. x ≢ "") xs × Pairwise (λ x y. equal_fold x y ≡ false) xs

  has_fold-false :
      (v : String) (xs : List String) → has_fold v xs ≡ false → All (λ x. equal_fold x v ≡ false) xs
  unfolding has_fold
  has_fold-false v [] h = tt
  has_fold-false v (x ∷ xs) h = (ground arith, has_fold-false v xs (ground arith))

  pub add_unique-AreDistinct :
      (xs : List String) (v : String) → AreDistinct xs → AreDistinct (add_unique xs v)
  unfolding add_unique
  add_unique-AreDistinct xs v h = elim (Bool-cases (trim_space v == "")) [
    | inl blank ↦ rw (blank, add_unique) h
    | inr there ↦ elim (Bool-cases (has_fold (trim_space v) xs)) [
      | inl old ↦ rw (there, add_unique, old) h
      | inr new ↦
          rw (there, add_unique, new)
            (
              All-concat (λ x. x ≢ "") xs h.0 (not_empty _ there),
              Pairwise-concat (λ x y. equal_fold x y ≡ false) xs (trim_space v) h.1
                  (has_fold-false _ xs new),
            )
    ]
  ]

-- No URL is empty, and no two are the same.
abbrev pub AreDistinctMedia : List Media → Type 0
AreDistinctMedia ms = All (λ m. m.url ≢ "") ms × Pairwise (λ m n. m.url ≢ n.url) ms

abbrev pub AreDistinctImages : List Image → Type 0
AreDistinctImages is' = All (λ i. i.url ≢ "") is' × Pairwise (λ i j. i.url ≢ j.url) is'

has_media-false :
    (url : String) (ms : List Media) → has_media url ms ≡ false → All (λ m. m.url ≢ url) ms
unfolding has_media
has_media-false url [] h = tt
has_media-false url (m ∷ ms) h =
    (not_equal m.url url (ground arith), has_media-false url ms (ground arith))

has_image-false :
    (url : String) (is' : List Image) → has_image url is' ≡ false → All (λ i. i.url ≢ url) is'
unfolding has_image
has_image-false url [] h = tt
has_image-false url (i ∷ is') h =
    (not_equal i.url url (ground arith), has_image-false url is' (ground arith))

add_media-AreDistinctMedia :
    (ms : List Media) (m : Media)
    → m.url ≢ ""
    → AreDistinctMedia ms
    → AreDistinctMedia (add_media ms m)
unfolding add_media
add_media-AreDistinctMedia ms m ne h = elim (Bool-cases (has_media m.url ms)) [
  | inl old ↦ rw (old, add_media) h
  | inr new ↦
      rw (new, add_media)
        (
          All-concat (λ x. x.url ≢ "") ms h.0 ne,
          Pairwise-concat (λ x y. x.url ≢ y.url) ms m h.1 (has_media-false m.url ms new),
        )
]

pub add_image-AreDistinctImages :
    (is' : List Image) (i : Image) → AreDistinctImages is' → AreDistinctImages (add_image is' i)
unfolding add_image
add_image-AreDistinctImages is' i h = elim (Bool-cases (trim_space i.url == "")) [
  | inl blank ↦ rw (blank, add_image) h
  | inr there ↦ elim (Bool-cases (has_image (trim_space i.url) is')) [
    | inl old ↦ rw (there, add_image, old) h
    | inr new ↦
        rw (there, add_image, new)
          (
            All-concat (λ x. x.url ≢ "") is' h.0 (not_empty _ there),
            Pairwise-concat (λ x y. x.url ≢ y.url) is' (record i { url = trim_space i.url }) h.1
                (has_image-false (trim_space i.url) is' new),
          )
  ]
]

-- What the collected lists of an article satisfy.
pub record IsCollected ⦃u : Unicode⦄ (a : Article) : Type 0 where
  pub categories : AreDistinct a.categories
  pub tags : AreDistinct a.tags
  pub media : AreDistinctMedia a.media
  pub images : AreDistinctImages a.images

-- An article without the collected lists.
abbrev pub bare : Article → Article
bare a = record a { categories = []; tags = []; media = []; images = [] }

module _ ⦃u : Unicode⦄ (a : Article) (url mime_type : String) (width height : ℤ)
    (medium : String) where
  pub add_media_or_image-IsCollected :
      IsCollected a → IsCollected (add_media_or_image a url mime_type width height medium)
  unfolding add_media_or_image
  add_media_or_image-IsCollected h = elim (Bool-cases (trim_space url == "")) [
    | inl blank ↦ rw (blank, add_media_or_image) h
    | inr there ↦ elim (Bool-cases (is_image mime_type medium)) [
      | inl picture ↦
          rw (there, add_media_or_image, picture)
            (record {
              categories = h.categories;
              tags = h.tags;
              media = h.media;
              images =
                  add_image-AreDistinctImages a.images
                    (record { url = trim_space url; width = width; height = height }) h.images;
            })
      | inr other ↦
          rw (there, add_media_or_image, other)
            (record {
              categories = h.categories;
              tags = h.tags;
              media =
                  add_media-AreDistinctMedia a.media
                    (record {
                      url = trim_space url;
                      mime_type = trim_space mime_type;
                      width = width;
                      height = height;
                    })
                    (not_empty _ there) h.media;
              images = h.images;
            })
    ]
  ]

  pub bare-add_media_or_image :
      bare (add_media_or_image a url mime_type width height medium) ≡ bare a
  unfolding add_media_or_image
  bare-add_media_or_image = ground arith
