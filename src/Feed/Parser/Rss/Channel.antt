-- ===== src/Feed/Parser/Rss/Channel.antt =====
-- What `parseRSS` reads of a whole document that is written.
use Prim.Native.String.{String}
use feeds_server.Base.{
  ◌==◌, true, false, ◌≡◌, refl, ap, ◌∙◌, Option, none, some, List, [], ◌∷◌, map, if◌then◌else◌,
}
use feeds_server.Base.Seq.{All}
use feeds_server.Base.Text.{Unicode}
use feeds_server.Feed.Model.{Feed, Article, ParsedFeed}
use feeds_server.Feed.Parser.Tree.{Node, child, children, child_value, first_named}
use feeds_server.Feed.Parser.Decode.{Parsed, parsed, rejected, no_channel}
use feeds_server.Feed.Parser.Collect.{DateParser, first_non_empty}
use feeds_server.Feed.Parser.Fill.{parsed_feed}
use feeds_server.Feed.Parser.Rss.{rss_articles, rss_feed, parse_rss, image_url_of, first_href}
use feeds_server.Feed.Parser.Rss.Written.{
  Entry, Channel, channel_fields, item, items, channel_node, document, element_names, is_in,
  TellsNames, IsClean, IsCleanChannel, articles_of, feed_of_channel,
}
use feeds_server.Feed.Parser.Rss.Lookup.{
  find, found, child_value-leaves, first_named-absent, all_named-leaves, first_named-items,
  all_named-items, all_items,
}
use feeds_server.Feed.Parser.Rss.Read.{first_non_empty-first, rss_articles-items}

module _ ⦃u : Unicode⦄ (tells : TellsNames u) (c : Channel) (es : List Entry) where
  channel_value :
      (local : String)
      → is_in local element_names ≡ true
      → ("item" == local) ≡ false
      → child_value (channel_node c es) local ≡ found (find local (channel_fields c))
  channel_value local known other =
      child_value-leaves tells local (channel_fields c) (items es) _ [] c.between known refl
        (first_named-items tells local es known other)

  no_image : child (channel_node c es) "image" ≡ none
  unfolding child
  no_image =
      first_named-absent tells "image" (channel_fields c) (items es) refl refl refl
        (first_named-items tells "image" es refl refl)

  no_images : children (channel_node c es) "image" ≡ []
  unfolding children
  no_images =
      all_named-leaves tells "image" (channel_fields c) (items es) refl refl refl
      ∙ all_named-items tells "image" es refl refl

  channel_items : children (channel_node c es) "item" ≡ map item es
  unfolding children
  channel_items =
      all_named-leaves tells "item" (channel_fields c) (items es) refl refl refl
      ∙ all_items tells es

  root_channel : child (document c es) "channel" ≡ some (channel_node c es)
  unfolding child first_named
  root_channel = rw (tells "channel" "channel" refl refl) refl

  module _ (source_url : String) (clean : IsCleanChannel c) where
    image_url :
        (if image_url_of (child (channel_node c es) "image") == ""
          then first_href (children (channel_node c es) "image")
          else image_url_of (child (channel_node c es) "image"))
        ≡ ""
    unfolding first_href
    image_url = rw (no_image, no_images) refl

    rss_feed-channel : rss_feed source_url (channel_node c es) ≡ feed_of_channel source_url c
    unfolding rss_feed
    rss_feed-channel =
        let link : first_non_empty (child_value (channel_node c es) "link" ∷ source_url ∷ [])
            ≡ c.link =
          ap (λ v. first_non_empty (v ∷ source_url ∷ []))
            (channel_value "link" refl refl ∙ clean.link)
          ∙ first_non_empty-first c.link (source_url ∷ []) clean.link clean.linked in
        let title = channel_value "title" refl refl ∙ clean.title in
        let description = channel_value "description" refl refl ∙ clean.description in
        let language = channel_value "language" refl refl ∙ clean.language in
        λ i. record (feed_of_channel source_url c) {
          url = link i;
          title = title i;
          description = description i;
          image_url = image_url i;
          language = language i;
        }

    -- `parseRSS` behind its search for the channel.
    abbrev behind_channel : ⦃d : DateParser⦄ → Option Node → Parsed ParsedFeed
    behind_channel none = rejected no_channel
    behind_channel (some channel) =
        let f = rss_feed source_url channel in
        parsed (parsed_feed f (rss_articles source_url f.language (children channel "item")))

    titled_feed :
        (f : Feed) (articles : List Article)
        → (f.title == "") ≡ false
        → ◌≡◌ {A = Parsed ParsedFeed}
            (parsed (parsed_feed f (articles, [])))
            (parsed (record { feed = f; articles = articles; warnings = [] }))
    titled_feed f articles titled = rw titled refl

    -- With case folding that tells the names of elements apart: of a document that is written from a
    -- channel and entries, whose texts have no white space around them, whose needed texts are there
    -- and whose dates can be read, `parseRSS` gives back the feed and all articles, in order, with
    -- no warning.
    pub parse_rss-document :
        ⦃d : DateParser⦄ (h : All IsClean es)
        → parse_rss (document c es) source_url
          ≡ parsed (record {
            feed = feed_of_channel source_url c;
            articles = articles_of source_url c.language es h;
            warnings = [];
          })
    unfolding parse_rss
    parse_rss-document h =
        let root = channel_node c es in
        let f = feed_of_channel source_url c in
        let articles = articles_of source_url c.language es h in
        ap behind_channel root_channel
        ∙ (ap
              (λ g.
                parsed (parsed_feed g (rss_articles source_url g.language (children root "item"))))
              rss_feed-channel
            ∙ (ap (λ ns. parsed (parsed_feed f (rss_articles source_url c.language ns)))
                  channel_items
                ∙ (ap (λ r. parsed (parsed_feed f r))
                      (rss_articles-items tells source_url c.language clean.language clean.spoken es
                        h)
                    ∙ titled_feed f articles clean.titled)))
