-- ===== src/Feed/Parser/Atom/Normal.antt =====
-- The articles of `parseAtom`.
use feeds_server.Base.{◌≡◌, refl, String, ◌==◌, Bool-cases, inl, inr, List, [], ◌∷◌}
use feeds_server.Base.Int.{pos}
use feeds_server.Base.Seq.{All}
use feeds_server.Base.Text.{Unicode, to_lower}
use feeds_server.Feed.Model.{Article, ParsedFeed}
use feeds_server.Feed.Parser.Tree.{Node, node_value, attr, children}
use feeds_server.Feed.Parser.Decode.{parsed, parsed-injective}
use feeds_server.Feed.Parser.Collect.{DateParser, add_unique, first_non_empty, add_media_or_image}
use feeds_server.Feed.Parser.Collect.Distinct.{AreDistinct, add_unique-AreDistinct, IsCollected}
use feeds_server.Feed.Parser.Normal.{
  IsStep, IsStep-trans, add_media_or_image-IsStep, IsNormal, with_fallbacks-IsTextual,
  bare-IsTextual, keep_article-AreNormal,
}
use feeds_server.Feed.Parser.Atom.{
  add_terms, add_links, atom_literal, atom_collected, atom_feed, atom_draft, atom_article,
  atom_articles, parse_atom,
}

module _ ⦃u : Unicode⦄ where
  add_terms-AreDistinct :
      (xs : List String) (ns : List Node) → AreDistinct xs → AreDistinct (add_terms xs ns)
  unfolding add_terms
  add_terms-AreDistinct xs [] h = h
  add_terms-AreDistinct xs (n ∷ ns) h =
      let t = first_non_empty (attr n "term" ∷ node_value n ∷ []) in
      add_terms-AreDistinct (add_unique xs t) ns (add_unique-AreDistinct xs t h)

  add_links-IsStep : (a : Article) (ns : List Node) → IsCollected a → IsStep a (add_links a ns)
  unfolding add_links
  add_links-IsStep a [] h = (h, refl)
  add_links-IsStep a (n ∷ ns) h =
      elim (Bool-cases
        (to_lower (first_non_empty (attr n "rel" ∷ "alternate" ∷ [])) == "enclosure")) [
          | inr other ↦ rw (other, add_links) (add_links-IsStep a ns h)
          | inl enclosure ↦
              let b = add_media_or_image a (attr n "href") (attr n "type") (pos 0) (pos 0) "" in
              rw (enclosure, add_links)
                (IsStep-trans a b (add_links b ns)
                  (add_media_or_image-IsStep a (attr n "href") (attr n "type") (pos 0) (pos 0) "" h)
                  (add_links-IsStep b ns))
        ]

  atom_collected-IsStep :
      (a : Article) (entry : Node) → IsCollected a → IsStep a (atom_collected a entry)
  unfolding atom_collected
  atom_collected-IsStep a entry h =
      add_links-IsStep
        (record a { categories = add_terms a.categories (children entry "category") })
        (children entry "link")
        (record {
          categories = add_terms-AreDistinct a.categories (children entry "category") h.categories;
          tags = h.tags;
          media = h.media;
          images = h.images;
        })

module _ ⦃u : Unicode⦄ ⦃d : DateParser⦄ where
  atom_articles-AreNormal :
      (url language : String) (entries : List Node)
      → All (IsNormal "atom" url) (atom_articles url language entries).0
  unfolding atom_articles atom_article atom_draft atom_literal
  atom_articles-AreNormal url language [] = tt
  atom_articles-AreNormal url language (entry ∷ entries) =
      let a = (atom_draft url language entry).0 in
      let (collected, same) =
        atom_collected-IsStep a entry (record {
          categories = (tt, tt);
          tags = (tt, tt);
          media = (tt, tt);
          images = (tt, tt);
        }) in
      keep_article-AreNormal "atom" url "empty Atom entry skipped" (atom_article url language entry)
        (atom_articles url language entries)
        (bare-IsTextual "atom" url a (atom_collected a entry) same
          (with_fallbacks-IsTextual "atom" url (atom_literal url language entry) refl))
        collected (atom_articles-AreNormal url language entries)

  -- Every article of a parsed Atom document is normal.
  pub parse_atom-AreNormal :
      (root : Node) (url : String) (f : ParsedFeed)
      → parse_atom root url ≡ parsed f
      → All (IsNormal "atom" url) f.articles
  unfolding parse_atom
  parse_atom-AreNormal root url f h =
      rw (← parsed-injective h)
        (atom_articles-AreNormal url (atom_feed url root).language (children root "entry"))
