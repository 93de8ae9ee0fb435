-- ===== src/Feed/Parser/Fill.antt =====
-- What `parseRSS` and `parseAtom` of internal/feed/parser.go share.
use Prim.Native.String.{String}
use feeds_server.Base.{◌==◌, Bool, ◌&&◌, Option, none, some, List, [], ◌∷◌, ◌++◌, if◌then◌else◌}
use feeds_server.Base.Text.{Unicode}
use feeds_server.Feed.Model.{Time, Article, Feed, ParsedFeed, SourceInfo}
use feeds_server.Feed.Parser.Tree.{Node, node_value}
use feeds_server.Feed.Parser.Collect.{DateParser, parse_date, add_unique}

-- An article with the warnings that came up on the way, latest last.
abbrev pub Draft : Type 0
Draft = Article × List String

abbrev pub source_of : String → String → SourceInfo
source_of format url = record { format = format; url = url }

module _ ⦃d : DateParser⦄ where
  -- `parseDate` behind the test for a raw date, or a warning.
  unfoldable pub read_date : String → String → Option Time × List String
  unfolding parse_date
  read_date raw warning =
      if raw == ""
      then (none, [])
      else elim (parse_date raw) [ some t ↦ (some t, []) | none ↦ (none, warning ∷ []) ]

-- The two defaults behind the literal.
abbrev pub with_fallbacks : Article → Article
with_fallbacks a = record a {
  identifier = if a.identifier == "" then a.url else a.identifier;
  content = if a.content == "" then a.summary else a.content;
}

abbrev pub is_empty_article : Article → Bool
is_empty_article a = a.title == "" && (a.url == "" && (a.identifier == "" && a.content == ""))

abbrev pub publication_warning : String
publication_warning = "article publication date could not be normalized"

abbrev pub update_warning : String
update_warning = "article updated date could not be normalized"

-- The dates of an article, and their warnings.
abbrev pub with_dates : Article → Option Time × List String → Option Time × List String → Draft
with_dates a (p, w) (q, v) = (record a { published_at = p; updated_at = q }, w ++ v)

abbrev pub title_warning : String → List String
title_warning title = if title == "" then "feed title is missing" ∷ [] else []

module _ ⦃u : Unicode⦄ where
  -- `addUnique(target, node.value())` for each node
  unfoldable pub add_values : List String → List Node → List String
  unfolding add_unique node_value
  add_values target [] = target
  add_values target (n ∷ ns) = add_values (add_unique target (node_value n)) ns

  unfoldable pub add_texts : List String → List String → List String
  unfolding add_unique
  add_texts target [] = target
  add_texts target (t ∷ ts) = add_texts (add_unique target t) ts

-- The end of both loops: an empty article is skipped with a warning.
abbrev pub keep_article : String → Draft → List Article × List String → List Article × List String
keep_article warning (a, ws) (rest, vs) =
    if is_empty_article a then (rest, ws ++ (warning ∷ vs)) else (a ∷ rest, ws ++ vs)

abbrev pub parsed_feed : Feed → List Article × List String → ParsedFeed
parsed_feed f (articles, ws) = record {
  feed = f;
  articles = articles;
  warnings = ws ++ title_warning f.title;
}
