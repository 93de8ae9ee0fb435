-- ===== src/Feed/Parser/Atom.antt =====
-- `parseAtom` and `atomLink` of internal/feed/parser.go.
pub mod Normal
use Prim.Native.String.{String}
use feeds_server.Base.{
  ℕ, ◌==◌, Bool, true, false, ◌&&◌, not, Option, none, some, List, [], ◌∷◌, ◌++◌, if◌then◌else◌,
}
use feeds_server.Base.Int.{ℤ, pos}
use feeds_server.Base.Text.{Unicode, to_lower, split_on}
use feeds_server.Feed.Model.{Time, Article, Feed, ParsedFeed, SourceInfo}
use feeds_server.Feed.Parser.Tree.{Node, child, children, attr, child_value, node_value}
use feeds_server.Feed.Parser.Decode.{Parsed, parsed, rejected, no_channel}
use feeds_server.Feed.Parser.Collect.{
  DateParser, parse_date, first_non_empty, parse_positive_int, add_unique, add_image,
  add_media_or_image,
}
use feeds_server.Feed.Parser.Fill.{
  Draft, source_of, read_date, with_fallbacks, is_empty_article, publication_warning,
  update_warning, with_dates, title_warning, add_values, add_texts, keep_article, parsed_feed,
}

module _ ⦃u : Unicode⦄ where
  -- `atomLink`, with the fallback so far.
  unfoldable pub find_link : String → String → List Node → String
  unfolding attr to_lower first_non_empty
  find_link wanted fallback [] = fallback
  find_link wanted fallback (n ∷ ns) =
      let next =
        if attr n "href" == ""
        then fallback
        else if fallback == ""
        then attr n "href"
        else fallback in
      let rest = find_link wanted next ns in
      if attr n "href" == ""
      then rest
      else if to_lower (first_non_empty (attr n "rel" ∷ "alternate" ∷ [])) == wanted
      then attr n "href"
      else rest

  unfoldable pub atom_link : Node → String → String
  unfolding find_link children
  atom_link n wanted = find_link wanted "" (children n "link")

  unfoldable pub atom_author : Node → String
  unfolding child child_value first_non_empty node_value
  atom_author n = elim (child n "author") [
    | none ↦ ""
    | some a ↦ first_non_empty (child_value a "name" ∷ child_value a "email" ∷ node_value a ∷ [])
  ]

  unfoldable pub atom_literal : String → String → Node → Article
  unfolding child_value first_non_empty atom_link atom_author
  atom_literal source_url language entry = record {
    id = "";
    feed_id = "";
    identifier = child_value entry "id";
    url = atom_link entry "alternate";
    title = child_value entry "title";
    author = atom_author entry;
    published_at = none;
    updated_at = none;
    summary = child_value entry "summary";
    content = child_value entry "content";
    categories = [];
    tags = [];
    media = [];
    images = [];
    language = first_non_empty (attr entry "lang" ∷ language ∷ []);
    source = source_of "atom" source_url;
  }

  unfoldable pub add_terms : List String → List Node → List String
  unfolding add_unique attr node_value first_non_empty
  add_terms target [] = target
  add_terms target (n ∷ ns) =
      add_terms (add_unique target (first_non_empty (attr n "term" ∷ node_value n ∷ []))) ns

  unfoldable pub add_links : Article → List Node → Article
  unfolding add_media_or_image attr to_lower first_non_empty
  add_links a [] = a
  add_links a (n ∷ ns) =
      add_links
        (if not (to_lower (first_non_empty (attr n "rel" ∷ "alternate" ∷ [])) == "enclosure")
          then a
          else add_media_or_image a (attr n "href") (attr n "type") (pos 0) (pos 0) "")
        ns

  unfoldable pub atom_collected : Article → Node → Article
  unfolding add_terms add_links children
  atom_collected a entry =
      add_links (record a { categories = add_terms a.categories (children entry "category") })
        (children entry "link")

  unfoldable pub atom_feed : String → Node → Feed
  unfolding child_value first_non_empty attr atom_link
  atom_feed source_url root = record {
    id = "";
    url = if atom_link root "alternate" == "" then source_url else atom_link root "alternate";
    title = child_value root "title";
    description = first_non_empty (child_value root "subtitle" ∷ child_value root "summary" ∷ []);
    icon_url = child_value root "icon";
    image_url = child_value root "logo";
    language = first_non_empty (attr root "lang" ∷ attr root "language" ∷ []);
    source = source_of "atom" source_url;
  }

module _ ⦃u : Unicode⦄ ⦃d : DateParser⦄ where
  unfoldable pub atom_draft : String → String → Node → Draft
  unfolding atom_literal read_date first_non_empty child_value
  atom_draft source_url language entry =
      with_dates (with_fallbacks (atom_literal source_url language entry))
        (read_date (child_value entry "published") publication_warning)
        (read_date (child_value entry "updated") update_warning)

  unfoldable pub atom_article : String → String → Node → Draft
  unfolding atom_draft atom_collected
  atom_article source_url language entry =
      let (a, ws) = atom_draft source_url language entry in (atom_collected a entry, ws)

  unfoldable pub atom_articles : String → String → List Node → List Article × List String
  unfolding atom_article
  atom_articles source_url language [] = ([], [])
  atom_articles source_url language (entry ∷ entries) =
      keep_article "empty Atom entry skipped" (atom_article source_url language entry)
        (atom_articles source_url language entries)

  unfoldable pub parse_atom : Node → String → Parsed ParsedFeed
  unfolding atom_feed atom_articles children
  parse_atom root source_url =
      let f = atom_feed source_url root in
      parsed (parsed_feed f (atom_articles source_url f.language (children root "entry")))
