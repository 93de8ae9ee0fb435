-- ===== src/Feed/Parser/Document.antt =====
-- `Parse` on an RSS document that is written, from its tokens to its articles.
use Prim.Native.String.{String}
use feeds_server.Base.{◌+◌, ◌*◌, ◌≤◌, ◌≡◌, refl, ap, ◌∙◌, arith, false, none, List, [], ◌∷◌}
use feeds_server.Base.Seq.{length, All}
use feeds_server.Base.Text.{Unicode, is_blank, to_lower}
use feeds_server.Feed.Parser.{parse, parse_root, prepend_warnings}
use feeds_server.Feed.Parser.Tree.{Node}
use feeds_server.Feed.Parser.Decode.{parsed, XmlDecoder, decode_tree, max_xml_nodes}
use feeds_server.Feed.Parser.Decode.Limits.{size, size_nodes, depth, depth_nodes}
use feeds_server.Feed.Parser.Decode.Markup.{Aside, Element, events, node_of}
use feeds_server.Feed.Parser.Decode.RoundTrip.{decode_stream-events}
use feeds_server.Feed.Parser.Collect.{DateParser}
use feeds_server.Feed.Parser.Rss.{parse_rss}
use feeds_server.Feed.Parser.Rss.Written.{
  Entry, Channel, items, document, TellsNames, IsClean, IsCleanChannel, articles_of,
  feed_of_channel,
}
use feeds_server.Feed.Parser.Rss.Channel.{parse_rss-document}

size-items : (es : List Entry) → size_nodes (items es) ≡ 8 * length es
unfolding size
size-items [] = refl
size-items (e ∷ es) = omega (arith, size-items es)

depth-items : (es : List Entry) → depth_nodes (items es) ≤ 2
unfolding depth
depth-items [] = omega arith
depth-items (e ∷ es) = omega (arith, depth-items es)

size-document : (c : Channel) (es : List Entry) → size (document c es) ≡ 8 * length es + 6
unfolding size
size-document c es = omega (arith, size-items es)

depth-document : (c : Channel) (es : List Entry) → depth (document c es) ≤ 4
unfolding depth
depth-document c es = omega (arith, depth-items es)

module _ ⦃u : Unicode⦄ ⦃d : DateParser⦄ ⦃x : XmlDecoder⦄ where
  decode_tree-document :
      (c : Channel) (es : List Entry) (input : String) (before : List Aside) (e : Element)
      (after : List Aside)
      → x.decode input ≡ record { tokens = events before e after; failure = none }
      → node_of e ≡ document c es
      → 8 * length es + 6 ≤ max_xml_nodes
      → decode_tree input ≡ parsed (document c es, [])
  unfolding decode_tree
  decode_tree-document c es input before e after read written few =
      rw (decode_tree, read, ← written)
        (decode_stream-events before e after (omega (arith, ap depth written, depth-document c es))
          (omega (arith, ap size written, size-document c es)))

  parse_root-rss :
      (c : Channel) (es : List Entry) (source_url : String)
      → to_lower "rss" ≡ "rss"
      → parse_root (document c es) [] source_url
        ≡ prepend_warnings [] (parse_rss (document c es) source_url)
  unfolding parse_root
  parse_root-rss c es source_url root = rw (parse_root, root) refl

  parse-decoded :
      (input source_url : String) (root : Node) (ws : List String)
      → is_blank input ≡ false
      → decode_tree input ≡ parsed (root, ws)
      → parse input source_url ≡ parse_root root ws source_url
  unfolding parse
  parse-decoded input source_url root ws there tree = rw (parse, there, tree) refl

  -- With case folding that tells the names of elements apart and lowering that leaves the name of
  -- the root: where the decoder gives the tokens of an element, with text and comments around and
  -- in it, whose tree is that of a channel and at most 12,499 entries, whose texts have no white
  -- space around them, whose needed texts are there and whose dates can be read, `Parse` gives back
  -- the feed and all articles, in order, with no warning.
  pub parse-document :
      (c : Channel) (es : List Entry) (input source_url : String) (before : List Aside)
      (e : Element) (after : List Aside)
      → TellsNames u
      → to_lower "rss" ≡ "rss"
      → is_blank input ≡ false
      → x.decode input ≡ record { tokens = events before e after; failure = none }
      → node_of e ≡ document c es
      → 8 * length es + 6 ≤ max_xml_nodes
      → IsCleanChannel c
      → (h : All IsClean es)
      → parse input source_url
        ≡ parsed (record {
          feed = feed_of_channel source_url c;
          articles = articles_of source_url c.language es h;
          warnings = [];
        })
  parse-document c es input source_url before e after tells root there read written few clean h =
      parse-decoded input source_url (document c es) [] there
        (decode_tree-document c es input before e after read written few)
      ∙ (parse_root-rss c es source_url root
          ∙ ap (prepend_warnings []) (parse_rss-document tells c es source_url clean h))
