-- ===== src/Feed/Parser/Rss.antt =====
-- `parseRSS` of internal/feed/parser.go.
pub mod Normal
pub mod Written
pub mod Lookup
pub mod Read
pub mod Channel
use Prim.Native.String.{String}
use feeds_server.Base.{
  ℕ, ◌==◌, Bool, true, false, ◌&&◌, not, Option, none, some, List, [], ◌∷◌, ◌++◌, if◌then◌else◌,
}
use feeds_server.Base.Int.{ℤ, pos}
use feeds_server.Base.Text.{Unicode, to_lower, split_on}
use feeds_server.Feed.Model.{Time, Article, Feed, ParsedFeed, SourceInfo}
use feeds_server.Feed.Parser.Tree.{Node, child, children, attr, child_value, node_value}
use feeds_server.Feed.Parser.Decode.{Parsed, parsed, rejected, no_channel}
use feeds_server.Feed.Parser.Collect.{
  DateParser, parse_date, first_non_empty, parse_positive_int, add_unique, add_image,
  add_media_or_image,
}
use feeds_server.Feed.Parser.Fill.{
  Draft, source_of, read_date, with_fallbacks, is_empty_article, publication_warning,
  update_warning, with_dates, title_warning, add_values, add_texts, keep_article, parsed_feed,
}

module _ ⦃u : Unicode⦄ where
  unfoldable pub add_keywords : List String → List Node → List String
  unfolding add_texts split_on node_value
  add_keywords target [] = target
  add_keywords target (n ∷ ns) = add_keywords (add_texts target (split_on b',' (node_value n))) ns

  unfoldable pub add_enclosures : Article → List Node → Article
  unfolding add_media_or_image attr
  add_enclosures a [] = a
  add_enclosures a (n ∷ ns) =
      add_enclosures (add_media_or_image a (attr n "url") (attr n "type") (pos 0) (pos 0) "") ns

  unfoldable pub add_contents : Article → List Node → Article
  unfolding add_media_or_image attr parse_positive_int
  add_contents a [] = a
  add_contents a (n ∷ ns) =
      add_contents
        (if attr n "url" == ""
          then a
          else add_media_or_image a (attr n "url") (attr n "type")
              (parse_positive_int (attr n "width")) (parse_positive_int (attr n "height"))
              (attr n "medium"))
        ns

  unfoldable pub add_thumbnails : Article → List Node → Article
  unfolding add_image attr parse_positive_int
  add_thumbnails a [] = a
  add_thumbnails a (n ∷ ns) =
      add_thumbnails
        (record a {
          images = add_image a.images (record {
            url = attr n "url";
            width = parse_positive_int (attr n "width");
            height = parse_positive_int (attr n "height");
          });
        })
        ns

  -- The literal of an RSS item.
  unfoldable pub rss_literal : String → String → Node → Article
  unfolding child_value first_non_empty
  rss_literal source_url language item = record {
    id = "";
    feed_id = "";
    identifier = child_value item "guid";
    url = child_value item "link";
    title = child_value item "title";
    author = first_non_empty (child_value item "author" ∷ child_value item "creator" ∷ []);
    published_at = none;
    updated_at = none;
    summary = child_value item "description";
    content = child_value item "encoded";
    categories = [];
    tags = [];
    media = [];
    images = [];
    language = first_non_empty (child_value item "language" ∷ language ∷ []);
    source = source_of "rss" source_url;
  }

  -- What the loops behind the dates add.
  unfoldable pub rss_collected : Article → Node → Article
  unfolding add_values add_keywords add_enclosures add_contents add_thumbnails children
  rss_collected a item =
      add_thumbnails
        (add_contents
          (add_enclosures
            (record a {
              categories = add_values a.categories (children item "category");
              tags =
                  add_keywords (add_values a.tags (children item "tag")) (children item "keywords");
            })
            (children item "enclosure"))
          (children item "content"))
        (children item "thumbnail")

  -- The loop over the images of a channel, where the first has no URL.
  unfoldable pub first_href : List Node → String
  unfolding attr
  first_href [] = ""
  first_href (n ∷ ns) = if attr n "href" == "" then first_href ns else attr n "href"

  abbrev pub image_url_of : Option Node → String
  image_url_of none = ""
  image_url_of (some image) = child_value image "url"

  unfoldable pub rss_feed : String → Node → Feed
  unfolding child_value first_non_empty child children first_href
  rss_feed source_url channel = record {
    id = "";
    url = first_non_empty (child_value channel "link" ∷ source_url ∷ []);
    title = child_value channel "title";
    description = child_value channel "description";
    icon_url = "";
    image_url =
        if image_url_of (child channel "image") == ""
        then first_href (children channel "image")
        else image_url_of (child channel "image");
    language = child_value channel "language";
    source = source_of "rss" source_url;
  }

module _ ⦃u : Unicode⦄ ⦃d : DateParser⦄ where
  -- The body of the loop over the items.
  unfoldable pub rss_draft : String → String → Node → Draft
  unfolding rss_literal read_date first_non_empty child_value
  rss_draft source_url language item =
      with_dates (with_fallbacks (rss_literal source_url language item))
        (read_date
          (first_non_empty (child_value item "pubDate" ∷ child_value item "published" ∷ []))
          publication_warning)
        (read_date (first_non_empty (child_value item "updated" ∷ child_value item "modified" ∷ []))
          update_warning)

  unfoldable pub rss_article : String → String → Node → Draft
  unfolding rss_draft rss_collected
  rss_article source_url language item =
      let (a, ws) = rss_draft source_url language item in (rss_collected a item, ws)

  unfoldable pub rss_articles : String → String → List Node → List Article × List String
  unfolding rss_article
  rss_articles source_url language [] = ([], [])
  rss_articles source_url language (item ∷ items) =
      keep_article "empty RSS item skipped" (rss_article source_url language item)
        (rss_articles source_url language items)

  unfoldable pub parse_rss : Node → String → Parsed ParsedFeed
  unfolding rss_feed rss_articles child children
  parse_rss root source_url = elim (child root "channel") [
    | none ↦ rejected no_channel
    | some channel ↦
        let f = rss_feed source_url channel in
        parsed (parsed_feed f (rss_articles source_url f.language (children channel "item")))
  ]
