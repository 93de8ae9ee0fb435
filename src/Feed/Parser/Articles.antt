-- ===== src/Feed/Parser/Articles.antt =====
-- What `Parse` gives: the articles of a document of either format.
use feeds_server.Base.{◌≡◌, ◌⊎◌, inl, inr, String, ◌==◌, Bool-cases, List}
use feeds_server.Base.Seq.{All}
use feeds_server.Base.Text.{Unicode, is_blank, to_lower}
use feeds_server.Feed.Model.{ParsedFeed}
use feeds_server.Feed.Parser.{prepend_warnings, parse_root, parse}
use feeds_server.Feed.Parser.Tree.{Node, local_of}
use feeds_server.Feed.Parser.Decode.{
  Parsed, parsed, Parsed-cases, parsed-injective, XmlDecoder, decode_tree,
}
use feeds_server.Feed.Parser.Collect.{DateParser}
use feeds_server.Feed.Parser.Normal.{IsNormal}
use feeds_server.Feed.Parser.Rss.{parse_rss}
use feeds_server.Feed.Parser.Atom.{parse_atom}
use feeds_server.Feed.Parser.Rss.Normal.{parse_rss-AreNormal}
use feeds_server.Feed.Parser.Atom.Normal.{parse_atom-AreNormal}

module _ ⦃u : Unicode⦄ where
  -- All articles of a feed are normal, of one of the two formats.
  abbrev pub AreNormal : String → ParsedFeed → Type 0
  AreNormal url f = All (IsNormal "rss" url) f.articles ⊎ All (IsNormal "atom" url) f.articles

  prepend_warnings-AreNormal :
      (url : String) (ws : List String) (r : Parsed ParsedFeed) (f : ParsedFeed)
      → ((g : ParsedFeed) → r ≡ parsed g → AreNormal url g)
      → prepend_warnings ws r ≡ parsed f
      → AreNormal url f
  prepend_warnings-AreNormal url ws r f k h = elim (Parsed-cases r) [
    | inr (e, wrong) ↦ absurd (cc (rw wrong at h))
    | inl (g, right) ↦ rw (← parsed-injective (rw right at h)) (k g right)
  ]

module _ ⦃u : Unicode⦄ ⦃d : DateParser⦄ where
  parse_root-AreNormal :
      (root : Node) (ws : List String) (url : String) (f : ParsedFeed)
      → parse_root root ws url ≡ parsed f
      → AreNormal url f
  unfolding parse_root
  parse_root-AreNormal root ws url f h = elim (Bool-cases (to_lower (local_of root) == "rss")) [
    | inl rss ↦
        prepend_warnings-AreNormal url ws (parse_rss root url) f
          (λ g k. inl (parse_rss-AreNormal root url g k)) (rw (rss, parse_root) at h)
    | inr other ↦ elim (Bool-cases (to_lower (local_of root) == "feed")) [
      | inl atom ↦
          prepend_warnings-AreNormal url ws (parse_atom root url) f
            (λ g k. inr (parse_atom-AreNormal root url g k)) (rw (other, atom, parse_root) at h)
      | inr neither ↦ absurd (cc (rw (other, neither, parse_root) at h))
    ]
  ]

  -- Where `Parse` accepts a document, either every article is a normal RSS article or every article
  -- is a normal Atom article: it is not empty, it has an identifier where it has a URL and a content
  -- where it has a summary, its source names the format and the URL of the document, and its
  -- categories, tags, media and images are free of repetitions.
  pub parse-AreNormal :
      ⦃x : XmlDecoder⦄ (input url : String) (f : ParsedFeed)
      → parse input url ≡ parsed f
      → AreNormal url f
  unfolding parse
  parse-AreNormal input url f h = elim (Bool-cases (is_blank input)) [
    | inl blank ↦ absurd (cc (rw (blank, parse) at h))
    | inr there ↦ elim (Parsed-cases (decode_tree input)) [
      | inr (e, wrong) ↦ absurd (cc (rw (there, wrong, parse) at h))
      | inl ((root, ws), right) ↦ parse_root-AreNormal root ws url f (rw (there, right, parse) at h)
    ]
  ]
