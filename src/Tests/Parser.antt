-- ===== src/Tests/Parser.antt =====
-- internal/feed/parser.go on a small RSS document.
use feeds_server.Base.{◌≡◌, ◌≤◌, refl, arith, String, none, [], ◌∷◌}
use feeds_server.Feed.Model.{Article, ParsedFeed}
use feeds_server.Feed.Parser.{parse, parser_run}
use feeds_server.Feed.Parser.Tree.{XmlName, Node, node, nil, cons}
use feeds_server.Feed.Parser.Decode.{
  parsed, rejected, unsafe_directive, directive, Stream, XmlDecoder, decode_stream, max_xml_depth,
  max_xml_nodes,
}
use feeds_server.Feed.Parser.Decode.Limits.{size, depth, decode_stream_bounds}
use feeds_server.Feed.Parser.Decode.RoundTrip.{decode_stream-events}
use feeds_server.Feed.Parser.Decode.Markup.{
  note, chars, Element, element, end, aside, within, element_tokens, events, node_of,
}
use feeds_server.Feed.Parser.Collect.{DateParser}
use feeds_server.Feed.Parser.Articles.{AreNormal, parse-AreNormal}
use feeds_server.Tests.Samples.{sample_unicode}

abbrev named : String → XmlName
named n = record { space = ""; local = n }

abbrev leaf : String → String → Node
leaf n text = node (named n) [] text nil

abbrev sample_item : Node
sample_item = node (named "item") [] "" (
    cons (leaf "title" "x") (
      cons (leaf "link" "https://b") (
        cons (leaf "description" "s")
          (cons (leaf "category" "a") (cons (leaf "category" "A") nil)))))

abbrev sample_tree : Node
sample_tree =
    node (named "rss") [] ""
      (cons (node (named "channel") [] "" (cons (leaf "title" "t") (cons sample_item nil))) nil)

-- The same, with the text of each element in front of its children.
abbrev written_leaf : String → String → Element
written_leaf n text = element (named n) [] (aside (chars text) end)

abbrev sample_element : Element
sample_element = element (named "rss") [] (
    aside note (
      within
        (element (named "channel") [] (
          within (written_leaf "title" "t") (
            within
              (element (named "item") [] (
                within (written_leaf "title" "x") (
                  within (written_leaf "link" "https://b") (
                    within (written_leaf "description" "s") (
                      within (written_leaf "category" "a")
                        (within (written_leaf "category" "A") end))))))
              end)))
        end))

abbrev sample_stream : Stream
sample_stream = record { tokens = directive "rss" ∷ events [] sample_element []; failure = none }

instance abbrev sample_decoder : XmlDecoder
sample_decoder = record { decode = λ s. sample_stream }

instance abbrev sample_dates : DateParser
sample_dates = record { parse_layout = λ layout raw. none }

decode_test : decode_stream sample_stream ≡ parsed (sample_tree, [])
unfolding parser_run element_tokens
decode_test = refl

unsafe_test :
    decode_stream (record { tokens = directive "DOCTYPE rss" ∷ []; failure = none })
    ≡ rejected unsafe_directive
unfolding parser_run
unsafe_test = refl

decode_stream_bounds_example :
    (depth sample_tree ≤ max_xml_depth) × (size sample_tree ≤ max_xml_nodes)
decode_stream_bounds_example = decode_stream_bounds sample_stream sample_tree [] decode_test

sample_depth : depth (node_of sample_element) ≤ max_xml_depth
unfolding depth node_of
sample_depth = omega arith

sample_size : size (node_of sample_element) ≤ max_xml_nodes
unfolding size node_of
sample_size = omega arith

decode_stream-events_example :
    decode_stream
      (record { tokens = events (note ∷ []) sample_element (chars " " ∷ []); failure = none })
    ≡ parsed (node_of sample_element, [])
decode_stream-events_example =
    decode_stream-events (note ∷ []) sample_element (chars " " ∷ []) sample_depth sample_size

abbrev sample_article : Article
sample_article = record {
  id = "";
  feed_id = "";
  identifier = "https://b";
  url = "https://b";
  title = "x";
  author = "";
  published_at = none;
  updated_at = none;
  summary = "s";
  content = "s";
  categories = "a" ∷ [];
  tags = [];
  media = [];
  images = [];
  language = "";
  source = record { format = "rss"; url = "u" };
}

abbrev sample_feed : ParsedFeed
sample_feed = record {
  feed = record {
    id = "";
    url = "u";
    title = "t";
    description = "";
    icon_url = "";
    image_url = "";
    language = "";
    source = record { format = "rss"; url = "u" };
  };
  articles = sample_article ∷ [];
  warnings = [];
}

parse_test : parse "<rss>" "u" ≡ parsed sample_feed
unfolding parser_run element_tokens
parse_test = refl

parse-AreNormal_example : AreNormal "u" sample_feed
parse-AreNormal_example = parse-AreNormal "<rss>" "u" sample_feed parse_test
