-- ===== src/Feed/Parser/Rss/Normal.antt =====
-- The articles of `parseRSS`.
use feeds_server.Base.{
  ◌≡◌, refl, ◌∙◌, String, ◌==◌, Bool-cases, inl, inr, List, [], ◌∷◌, Option-cases,
}
use feeds_server.Base.Int.{pos}
use feeds_server.Base.Seq.{All}
use feeds_server.Base.Text.{Unicode, split_on}
use feeds_server.Feed.Model.{Article, ParsedFeed, Image}
use feeds_server.Feed.Parser.Tree.{Node, node_value, attr, child, children}
use feeds_server.Feed.Parser.Decode.{parsed, parsed-injective}
use feeds_server.Feed.Parser.Collect.{DateParser, add_image, add_media_or_image, parse_positive_int}
use feeds_server.Feed.Parser.Collect.Distinct.{
  AreDistinct, IsCollected, add_image-AreDistinctImages,
}
use feeds_server.Feed.Parser.Fill.{add_texts, add_values}
use feeds_server.Feed.Parser.Normal.{
  IsStep, IsStep-trans, add_media_or_image-IsStep, IsNormal, with_fallbacks-IsTextual,
  bare-IsTextual, add_values-AreDistinct, add_texts-AreDistinct, keep_article-AreNormal,
}
use feeds_server.Feed.Parser.Rss.{
  add_keywords, add_enclosures, add_contents, add_thumbnails, rss_literal, rss_collected, rss_feed,
  rss_draft, rss_article, rss_articles, parse_rss,
}

module _ ⦃u : Unicode⦄ where
  add_keywords-AreDistinct :
      (xs : List String) (ns : List Node) → AreDistinct xs → AreDistinct (add_keywords xs ns)
  unfolding add_keywords
  add_keywords-AreDistinct xs [] h = h
  add_keywords-AreDistinct xs (n ∷ ns) h =
      add_keywords-AreDistinct (add_texts xs (split_on b',' (node_value n))) ns
        (add_texts-AreDistinct xs (split_on b',' (node_value n)) h)

  add_enclosures-IsStep :
      (a : Article) (ns : List Node) → IsCollected a → IsStep a (add_enclosures a ns)
  unfolding add_enclosures
  add_enclosures-IsStep a [] h = (h, refl)
  add_enclosures-IsStep a (n ∷ ns) h =
      let b = add_media_or_image a (attr n "url") (attr n "type") (pos 0) (pos 0) "" in
      IsStep-trans a b (add_enclosures b ns)
        (add_media_or_image-IsStep a (attr n "url") (attr n "type") (pos 0) (pos 0) "" h)
        (add_enclosures-IsStep b ns)

  add_contents-IsStep :
      (a : Article) (ns : List Node) → IsCollected a → IsStep a (add_contents a ns)
  unfolding add_contents
  add_contents-IsStep a [] h = (h, refl)
  add_contents-IsStep a (n ∷ ns) h = elim (Bool-cases (attr n "url" == "")) [
    | inl blank ↦ rw (blank, add_contents) (add_contents-IsStep a ns h)
    | inr there ↦
        let w = parse_positive_int (attr n "width") in
        let k = parse_positive_int (attr n "height") in
        let b = add_media_or_image a (attr n "url") (attr n "type") w k (attr n "medium") in
        rw (there, add_contents)
          (IsStep-trans a b (add_contents b ns)
            (add_media_or_image-IsStep a (attr n "url") (attr n "type") w k (attr n "medium") h)
            (add_contents-IsStep b ns))
  ]

  add_thumbnails-IsStep :
      (a : Article) (ns : List Node) → IsCollected a → IsStep a (add_thumbnails a ns)
  unfolding add_thumbnails
  add_thumbnails-IsStep a [] h = (h, refl)
  add_thumbnails-IsStep a (n ∷ ns) h =
      let i : Image = record {
        url = attr n "url";
        width = parse_positive_int (attr n "width");
        height = parse_positive_int (attr n "height");
      } in
      add_thumbnails-IsStep (record a { images = add_image a.images i }) ns
        (record {
          categories = h.categories;
          tags = h.tags;
          media = h.media;
          images = add_image-AreDistinctImages a.images i h.images;
        })

  rss_collected-IsStep :
      (a : Article) (item : Node) → IsCollected a → IsStep a (rss_collected a item)
  unfolding rss_collected
  rss_collected-IsStep a item h =
      let a₁ : Article = record a {
        categories = add_values a.categories (children item "category");
        tags = add_keywords (add_values a.tags (children item "tag")) (children item "keywords");
      } in
      let (c₂, e₂) = add_enclosures-IsStep a₁ (children item "enclosure") (record {
        categories = add_values-AreDistinct a.categories (children item "category") h.categories;
        tags =
            add_keywords-AreDistinct (add_values a.tags (children item "tag"))
              (children item "keywords")
              (add_values-AreDistinct a.tags (children item "tag") h.tags);
        media = h.media;
        images = h.images;
      }) in
      let a₂ = add_enclosures a₁ (children item "enclosure") in
      let (c₃, e₃) = add_contents-IsStep a₂ (children item "content") c₂ in
      let a₃ = add_contents a₂ (children item "content") in
      let (c₄, e₄) = add_thumbnails-IsStep a₃ (children item "thumbnail") c₃ in (c₄, e₄ ∙ (e₃ ∙ e₂))

module _ ⦃u : Unicode⦄ ⦃d : DateParser⦄ where
  rss_articles-AreNormal :
      (url language : String) (items : List Node)
      → All (IsNormal "rss" url) (rss_articles url language items).0
  unfolding rss_articles rss_article rss_draft rss_literal
  rss_articles-AreNormal url language [] = tt
  rss_articles-AreNormal url language (item ∷ items) =
      let a = (rss_draft url language item).0 in
      let (collected, same) =
        rss_collected-IsStep a item (record {
          categories = (tt, tt);
          tags = (tt, tt);
          media = (tt, tt);
          images = (tt, tt);
        }) in
      keep_article-AreNormal "rss" url "empty RSS item skipped" (rss_article url language item)
        (rss_articles url language items)
        (bare-IsTextual "rss" url a (rss_collected a item) same
          (with_fallbacks-IsTextual "rss" url (rss_literal url language item) refl))
        collected (rss_articles-AreNormal url language items)

  -- Every article of a parsed RSS document is normal.
  pub parse_rss-AreNormal :
      (root : Node) (url : String) (f : ParsedFeed)
      → parse_rss root url ≡ parsed f
      → All (IsNormal "rss" url) f.articles
  unfolding parse_rss
  parse_rss-AreNormal root url f h = elim (Option-cases (child root "channel")) [
    | inl absent ↦ absurd (cc (rw (absent, parse_rss) at h))
    | inr (channel, there) ↦
        let same = parsed-injective (rw (there, parse_rss) at h) in
        rw (← same)
          (rss_articles-AreNormal url (rss_feed url channel).language (children channel "item"))
  ]
