-- ===== src/Feed/Dedup/Keys.antt =====
-- internal/feed/dedup.go: the identity keys of an article.
pub mod Tokens
pub mod Scopes
pub mod Canonical
pub mod Normal
use Prim.Native.String.{◌++◌}
use feeds_server.Base.{
  String, ◌==◌, Option, none, some, [], ◌∷◌, Bool, true, false, ◌&&◌, ◌||◌, not, if◌then◌else◌,
}
use feeds_server.Base.Text.{
  Unicode, trim_space, is_blank, trim_func, fields, join, to_lower, contains_char,
}
use feeds_server.Base.Url.{Url, UrlLibrary, hostname, port, join_host_port}
use feeds_server.Feed.Model.{Time, Article}
use Prim.Native.Char.{Char, code}
use feeds_server.Base.{eqb}

pub record ArticleKeys : Type 0 where
  pub identifier : String
  pub url : String
  pub fingerprint : String

-- What the fingerprint takes from `crypto/sha256` with `encoding/hex`, and from `time`: the digest
-- as hexadecimal text, and the format "2006-01-02T15:04:05.999999999Z07:00" of an instant in UTC.
pub record Fingerprinting : Type 0 where
  pub sha256_hex : String → String
  pub format_time : Time → String

-- The cutset "[]" of `strings.Trim`.
abbrev pub is_bracket : Char → Bool
is_bracket c = eqb (code c) b'[' || eqb (code c) b']'

unfoldable pub normalize_content : String → String
unfolding fields join
normalize_content value = join " " (fields value)

module _ ⦃u : Unicode⦄ where
  unfoldable pub normalize_token : String → String
  unfolding fields join to_lower
  normalize_token value = to_lower (join " " (fields value))

  -- The port that `normalizeArticleURL` keeps.
  unfoldable pub kept_port : String → String → String
  kept_port scheme p =
      if (scheme == "http" && p == "80") || (scheme == "https" && p == "443") then "" else p

  -- The host that `normalizeArticleURL` writes.
  unfoldable pub normalized_host : String → String → String
  unfolding contains_char trim_func join_host_port
  normalized_host name p =
      let bracketed = if contains_char b':' name then "[" ++ (name ++ "]") else name in
      if not (p == "") then join_host_port (trim_func is_bracket bracketed) p else bracketed

  -- The changes that `normalizeArticleURL` makes to the parsed URL.
  unfoldable pub normalize_url : (String → String) → Url → Url
  unfolding to_lower hostname port kept_port normalized_host
  normalize_url encode_query parsed =
      let scheme = to_lower parsed.scheme in
      record parsed {
        scheme = scheme;
        host = normalized_host (to_lower (hostname parsed)) (kept_port scheme (port parsed));
        fragment = "";
        path = if parsed.path == "" then "/" else parsed.path;
        raw_query = encode_query parsed.raw_query;
      }

abbrev pub is_some {ℓ} : {A : Type ℓ} → Option A → Bool
is_some none = false
is_some (some a) = true

-- The guard behind `url.Parse`: a scheme, a host and no credentials.
unfoldable pub is_usable : Url → Bool
is_usable parsed = not (parsed.scheme == "" || parsed.host == "" || is_some parsed.user)

module _ ⦃u : Unicode⦄ ⦃l : UrlLibrary⦄ where
  unfoldable pub normalize_parsed : Option Url → String
  unfolding normalize_url is_usable
  normalize_parsed none = ""
  normalize_parsed (some parsed) =
      if is_usable parsed then l.print (normalize_url l.encode_query parsed) else ""

  unfoldable pub normalize_article_url : String → String
  unfolding trim_space normalize_parsed
  normalize_article_url raw =
      if trim_space raw == "" then "" else normalize_parsed (l.parse (trim_space raw))

  unfoldable pub source_scope : Article → String
  unfolding normalize_article_url
  source_scope article =
      if not (article.feed_id == "")
      then "feed:" ++ article.feed_id
      else let normalized = normalize_article_url article.source.url in
        if not (normalized == "") then "source:" ++ normalized else ""

-- The content, or the summary where the content is blank.
unfoldable pub fingerprint_content : Article → String
unfolding normalize_content is_blank
fingerprint_content article =
    normalize_content (if is_blank article.content then article.summary else article.content)

-- A scoped key, or no key for an empty value.
abbrev pub scoped : String → String → String → String
scoped scope kind value = if not (value == "") then scope ++ (kind ++ value) else ""

module _ ⦃f : Fingerprinting⦄ where
  -- The text that `articleContentFingerprint` hashes.
  unfoldable pub fingerprint_input : String → String → Time → String → String
  unfolding join
  fingerprint_input title author published content =
      join "\n" (title ∷ author ∷ f.format_time published ∷ content ∷ [])

module _ ⦃u : Unicode⦄ ⦃f : Fingerprinting⦄ where
  unfoldable pub article_content_fingerprint : Article → String
  unfolding normalize_token fingerprint_input fingerprint_content
  article_content_fingerprint article =
      let title = normalize_token article.title in
      elim article.published_at [
        | none ↦ ""
        | some published ↦
            let content = fingerprint_content article in
            if title == "" || content == ""
            then ""
            else f.sha256_hex
                (fingerprint_input title (normalize_token article.author) published content)
      ]

module _ ⦃u : Unicode⦄ ⦃l : UrlLibrary⦄ ⦃f : Fingerprinting⦄ where
  unfoldable pub keys_for_article : Article → ArticleKeys
  unfolding source_scope normalize_token normalize_article_url article_content_fingerprint
  keys_for_article article =
      let scope = source_scope article in
      if scope == "" then record { identifier = ""; url = ""; fingerprint = "" } else record {
        identifier = scoped scope "|id|" (normalize_token article.identifier);
        url = scoped scope "|url|" (normalize_article_url article.url);
        fingerprint = scoped scope "|content|" (article_content_fingerprint article);
      }
