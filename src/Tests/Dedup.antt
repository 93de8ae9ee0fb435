-- ===== src/Tests/Dedup.antt =====
-- internal/feed/dedup.go on concrete articles.
use Prim.Native.Char.{Char, code}
use feeds_server.Base.{String, [], ◌∷◌, ◌≡◌, refl, arith, List, ◌==◌, eqb}
use feeds_server.Base.Seq.{length, All}
use feeds_server.Feed.Model.{Article}
use feeds_server.Feed.Dedup.{
  Indexes, Candidate, deduplicate_articles, dedup_run, duplicate_by_source_identifier,
  duplicate_by_normalized_url,
}
use feeds_server.Feed.Dedup.Keys.{
  ArticleKeys, normalize_token, fingerprint_input, keys_for_article, source_scope,
  normalize_article_url,
}
use feeds_server.Feed.Dedup.Keys.Tokens.{IsCaseTable, IsOneLine, fingerprint_input_injective}
use feeds_server.Feed.Dedup.Keys.Scopes.{identifier_key_injective, identifier_key_collision}
use feeds_server.Feed.Dedup.Reference.{kept, verdicts, numbered, deduplicate-eq-verdicts}
use feeds_server.Feed.Dedup.Sound.{IsJustified, deduplicate-IsJustified}
use feeds_server.Base.{Bool-cases, inl, inr, false, eq_iff, ◌≢◌, sym, ◌∙◌}
use feeds_server.Base.Text.{contains_char, is_space}
use feeds_server.Tests.Samples.{
  lower_letter, sample_unicode, sample_urls, sample_fingerprints, article_of,
}

abbrev first : Article
first = article_of "f" "A" ""

abbrev second_feed : Article
second_feed = article_of "g" "a" ""

abbrev again : Article
again = article_of "f" " a " "https://feeds.example:443/a"

abbrev by_url : Article
by_url = article_of "f" "" "https://feeds.example:443/a"

abbrev articles : List Article
articles = first ∷ second_feed ∷ again ∷ by_url ∷ []

-- The third article has the identifier of the first, and brings its URL; the fourth has that URL.
dedup_tests : deduplicate_articles articles ≡ (
  first ∷ second_feed ∷ [],
  record { duplicate_index = 2; canonical_index = 0; reason = duplicate_by_source_identifier }
      ∷ record { duplicate_index = 3; canonical_index = 0; reason = duplicate_by_normalized_url }
      ∷ [],
)
unfolding dedup_run
dedup_tests = refl

url_test : normalize_article_url " https://feeds.example:443/a" ≡ "https://feeds.example/a"
unfolding dedup_run
url_test = refl

deduplicate-eq-verdicts_example :
    deduplicate_articles articles
    ≡ (kept (verdicts 0 [] articles) articles, numbered 0 (verdicts 0 [] articles))
deduplicate-eq-verdicts_example = deduplicate-eq-verdicts articles

deduplicate-IsJustified_example :
    All
      (IsJustified articles (length (deduplicate_articles articles).0))
      (deduplicate_articles articles).1
deduplicate-IsJustified_example = deduplicate-IsJustified articles

abbrev unscoped : List Article
unscoped = article_of "" "a" "" ∷ article_of "" "a" "" ∷ []

unscoped_scopes : All (λ a. source_scope a ≡ "") unscoped
unfolding dedup_run
unscoped_scopes = (refl, (refl, tt))

abbrev some_keys : ArticleKeys
some_keys = record { identifier = "i"; url = "u"; fingerprint = "" }

abbrev some_indexes : Indexes
some_indexes = record { identifier = []; url = ("u", 3) ∷ []; fingerprint = [] }

abbrev by_its_url : Candidate
by_its_url = record { index = 3; reason = duplicate_by_normalized_url }

lower_letter-is_space : (c : Char) → is_space (lower_letter c) ≡ is_space c
unfolding is_space
lower_letter-is_space c = elim (Bool-cases (eqb (code c) b'A')) [
  | inl a ↦ rw a (ground arith)
  | inr not_a ↦ elim (Bool-cases (eqb (code c) b'H')) [
    | inl h ↦ rw (not_a, h) (ground arith)
    | inr not_h ↦ elim (Bool-cases (eqb (code c) b'T')) [
      | inl t ↦ rw (not_a, not_h, t) (ground arith)
      | inr not_t ↦ rw (not_a, not_h, not_t)
    ]
  ]
]

pub lower_letter_idem : (c : Char) → lower_letter (lower_letter c) ≡ lower_letter c
lower_letter_idem c = elim (Bool-cases (eqb (code c) b'A')) [
  | inl a ↦ rw a
  | inr not_a ↦ elim (Bool-cases (eqb (code c) b'H')) [
    | inl h ↦ rw (not_a, h)
    | inr not_h ↦ elim (Bool-cases (eqb (code c) b'T')) [
      | inl t ↦ rw (not_a, not_h, t)
      | inr not_t ↦ rw (not_a, not_h, not_t, not_a, not_h, not_t)
    ]
  ]
]

sample_unicode-IsCaseTable : IsCaseTable sample_unicode
unfolding is_space
sample_unicode-IsCaseTable = record {
  keeps_space = lower_letter-is_space;
  keeps_blank = refl;
  idempotent = lower_letter_idem;
}

sample_fingerprints-IsOneLine : IsOneLine sample_fingerprints
unfolding contains_char
sample_fingerprints-IsOneLine t = elim (Bool-cases (eqb t 0)) [
  | inl zero ↦ rw zero
  | inr later ↦ rw later
]

abbrev content_text : String
content_text = "text"

same_input :
    fingerprint_input (normalize_token "A  a") (normalize_token "") 0 content_text
    ≡ fingerprint_input (normalize_token " a A ") (normalize_token " ") 0 content_text
unfolding dedup_run
same_input = refl

fingerprint_input_injective_example :
    (normalize_token "A  a" ≡ normalize_token " a A ")
    × (normalize_token "" ≡ normalize_token " ")
    × (sample_fingerprints.format_time 0 ≡ sample_fingerprints.format_time 0)
    × (content_text ≡ content_text)
fingerprint_input_injective_example =
    fingerprint_input_injective sample_unicode-IsCaseTable sample_fingerprints-IsOneLine "A  a"
      " a A " "" " " 0 0 content_text content_text same_input

abbrev bar_feed : Article
bar_feed = article_of "f|id|b" "a" ""

abbrev bar_identifier : Article
bar_identifier = article_of "f" "b|id|a" ""

identifiers :
    ((keys_for_article first).identifier ≡ "feed:f|id|a")
    × ((keys_for_article again).identifier ≡ "feed:f|id|a")
unfolding dedup_run
identifiers = (refl, refl)

not_empty : (s : String) → (s == "") ≡ false → s ≢ ""
not_empty s h = ground (arith, eq_iff s "")

identifier_key_injective_example :
    (first.feed_id ≡ again.feed_id)
    × (normalize_token first.identifier ≡ normalize_token again.identifier)
unfolding contains_char
identifier_key_injective_example =
    identifier_key_injective first again (not_empty "f" refl) (not_empty "f" refl) refl refl
      (λ p. not_empty "feed:f|id|a" refl (sym identifiers.0 ∙ p))
      (identifiers.0 ∙ sym identifiers.1)

bar_tokens : (normalize_token "b|id|a" ≡ "b|id|a") × (normalize_token "a" ≡ "a")
unfolding dedup_run
bar_tokens = (refl, refl)

identifier_key_collision_example :
    (keys_for_article bar_identifier).identifier ≡ (keys_for_article bar_feed).identifier
identifier_key_collision_example =
    identifier_key_collision bar_identifier bar_feed "b" "a" (not_empty "f" refl)
      (not_empty "a" refl) refl bar_tokens.0 bar_tokens.1
