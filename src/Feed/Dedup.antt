-- ===== src/Feed/Dedup.antt =====
-- internal/feed/dedup.go: the duplicate removal loop and its three indexes.
pub mod Keys
pub mod Reference
pub mod Resolve
pub mod Counts
pub mod Sound
use feeds_server.Base.{
  ℕ, ◌+◌, String, ◌==◌, Option, none, some, List, [], ◌∷◌, ◌++◌, Bool, true, false, ◌&&◌, eqb,
  if◌then◌else◌,
}
use feeds_server.Base.Seq.{length}
use feeds_server.Base.Dict.{Dict, lookup, insert}
use feeds_server.Base.Text.{Unicode}
use feeds_server.Base.Url.{UrlLibrary}
use feeds_server.Feed.Model.{Article}
use Keys.{ArticleKeys, Fingerprinting, keys_for_article}

-- `type DuplicateReason string` and its constants
abbrev pub DuplicateReason : Type 0
DuplicateReason = String

abbrev pub duplicate_by_source_identifier : DuplicateReason
duplicate_by_source_identifier = "source_identifier"

abbrev pub duplicate_by_normalized_url : DuplicateReason
duplicate_by_normalized_url = "normalized_url"

abbrev pub duplicate_by_content_fingerprint : DuplicateReason
duplicate_by_content_fingerprint = "content_fingerprint"

pub record DuplicateMatch : Type 0 where
  pub duplicate_index : ℕ
  pub canonical_index : ℕ
  pub reason : DuplicateReason

-- The three maps of `DeduplicateArticles`.
pub record Indexes : Type 0 where
  pub identifier : Dict ℕ
  pub url : Dict ℕ
  pub fingerprint : Dict ℕ

abbrev pub no_indexes : Indexes
no_indexes = record { identifier = []; url = []; fingerprint = [] }

pub record Candidate : Type 0 where
  pub index : ℕ
  pub reason : DuplicateReason

-- One of the three look-ups of `resolveCanonical`.
pub probe : String → Dict ℕ → DuplicateReason → List Candidate
unfolding lookup
probe key index reason =
    if key == ""
    then []
    else elim (lookup key index) [ none ↦ [] | some i ↦ record { index = i; reason = reason } ∷ [] ]

abbrev pub all_at : ℕ → List Candidate → Bool
all_at canonical [] = true
all_at canonical (c ∷ cs) = eqb c.index canonical && all_at canonical cs

-- The end of `resolveCanonical`: the candidates agree, or there is no canonical article.
abbrev pub agreed : List Candidate → Option Candidate
agreed [] = none
agreed (c ∷ cs) = if all_at c.index cs then some c else none

unfoldable pub resolve_canonical : ArticleKeys → Indexes → Option Candidate
unfolding probe
resolve_canonical keys maps = agreed (
    probe keys.identifier maps.identifier duplicate_by_source_identifier
    ++ (probe keys.url maps.url duplicate_by_normalized_url
        ++ probe keys.fingerprint maps.fingerprint duplicate_by_content_fingerprint))

unfoldable pub register_key : Dict ℕ → String → ℕ → Dict ℕ
unfolding lookup insert
register_key index key canonical =
    if key == ""
    then index
    else elim (lookup key index) [ some existing ↦ index | none ↦ insert key canonical index ]

unfoldable pub register_keys : ArticleKeys → ℕ → Indexes → Indexes
unfolding register_key
register_keys keys canonical maps = record {
  identifier = register_key maps.identifier keys.identifier canonical;
  url = register_key maps.url keys.url canonical;
  fingerprint = register_key maps.fingerprint keys.fingerprint canonical;
}

-- The variables of the loop.
pub record DedupState : Type 0 where
  pub unique : List Article
  pub matches : List DuplicateMatch
  pub maps : Indexes

abbrev pub dedup_start : DedupState
dedup_start = record { unique = []; matches = []; maps = no_indexes }

-- The two branches of the loop body: a duplicate is recorded, another article is kept.
unfoldable pub settle : ℕ → Article → ArticleKeys → Option Candidate → DedupState → DedupState
settle original article keys (some c) s = record {
  unique = s.unique;
  matches =
      s.matches
      ++ record { duplicate_index = original; canonical_index = c.index; reason = c.reason } ∷ [];
  maps = register_keys keys c.index s.maps;
}
settle original article keys none s = record {
  unique = s.unique ++ article ∷ [];
  matches = s.matches;
  maps = register_keys keys (length s.unique) s.maps;
}

module _ ⦃u : Unicode⦄ ⦃l : UrlLibrary⦄ ⦃f : Fingerprinting⦄ where
  -- The body of the loop, at the article that stands at `original`.
  unfoldable pub dedup_step : ℕ → Article → DedupState → DedupState
  unfolding settle
  dedup_step original article s =
      let keys = keys_for_article article in
      settle original article keys (resolve_canonical keys s.maps) s

  unfoldable pub dedup_from : ℕ → DedupState → List Article → DedupState
  dedup_from original s [] = s
  dedup_from original s (a ∷ rest) = dedup_from (original + 1) (dedup_step original a s) rest

  unfoldable pub deduplicate_articles : List Article → List Article × List DuplicateMatch
  unfolding dedup_step dedup_from
  deduplicate_articles articles = let s = dedup_from 0 dedup_start articles in (s.unique, s.matches)

-- Opens all that a run of `deduplicate_articles` goes through.
unfoldable pub dedup_run : Unit {0}
unfolding deduplicate_articles resolve_canonical register_keys keys_for_article
dedup_run = tt
