-- ===== src/Feed/Parser.antt =====
-- `Parse` of internal/feed/parser.go; the tree, the decoding and the two formats are its children.
pub mod Tree
pub mod Decode
pub mod Collect
pub mod Fill
pub mod Normal
pub mod Rss
pub mod Atom
pub mod Articles
pub mod Document
use feeds_server.Base.{String, ◌==◌, List, ◌++◌, if◌then◌else◌}
use feeds_server.Base.Text.{Unicode, is_blank, to_lower}
use feeds_server.Feed.Model.{ParsedFeed}
use Tree.{Node, local_of}
use Decode.{
  Parsed, parsed, rejected, empty_document, unsupported_format, XmlDecoder, decode_tree,
  decode_from, decode_step,
}
use Collect.{DateParser}
use Rss.{parse_rss}
use Atom.{parse_atom}

-- The warnings of the decoder stand in front.
abbrev pub prepend_warnings : List String → Parsed ParsedFeed → Parsed ParsedFeed
prepend_warnings ws (rejected e) = rejected e
prepend_warnings ws (parsed f) = parsed (record f { warnings = ws ++ f.warnings })

module _ ⦃u : Unicode⦄ ⦃d : DateParser⦄ where
  -- The `switch` on the root element.
  unfoldable pub parse_root : Node → List String → String → Parsed ParsedFeed
  unfolding to_lower parse_rss parse_atom
  parse_root root ws source_url =
      if to_lower (local_of root) == "rss"
      then prepend_warnings ws (parse_rss root source_url)
      else if to_lower (local_of root) == "feed"
      then prepend_warnings ws (parse_atom root source_url)
      else rejected unsupported_format

  unfoldable pub parse : ⦃x : XmlDecoder⦄ → String → String → Parsed ParsedFeed
  unfolding is_blank decode_tree parse_root
  parse input source_url =
      if is_blank input then rejected empty_document else elim (decode_tree input) [
        | rejected e ↦ rejected e
        | parsed (root, ws) ↦ parse_root root ws source_url
      ]

-- Opens all that `parse` goes through.
unfoldable pub parser_run : Unit {0}
unfolding parse parse_root decode_tree decode_from decode_step
parser_run = tt
