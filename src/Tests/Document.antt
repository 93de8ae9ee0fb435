-- ===== src/Tests/Document.antt =====
-- `Parse` on a written document of one entry.
use Prim.Native.String.{String, [], ◌∷◌}
use mathlib.Core.List.{List}
use feeds_server.Base.{◌≡◌, ◌==◌, refl, ap, false, some, none, arith, map, ◌++◌, if◌then◌else◌}
use feeds_server.Base.Text.{Unicode, map_chars, equal_fold, is_blank, to_lower, trim_space}
use feeds_server.Feed.Parser.{parse}
use feeds_server.Feed.Parser.Decode.{parsed, XmlDecoder}
use feeds_server.Feed.Parser.Tree.{Attr}
use feeds_server.Feed.Parser.Decode.Markup.{
  Aside, note, chars, Element, element, Contents, end, aside, within, events, text_of, node_of,
}
use feeds_server.Feed.Parser.Collect.{DateParser, parse_date}
use feeds_server.Feed.Parser.Rss.Written.{
  Entry, Channel, Field, name_of, entry_fields, channel_fields, document, TellsNames, IsClean,
  IsCleanChannel, articles_of, feed_of_channel,
}
use feeds_server.Feed.Parser.Document.{parse-document}

-- The names of the document are written as they are looked up, so no folding is needed.
instance abbrev plain_unicode : Unicode
plain_unicode = record { to_lower = λ c. c; to_upper = λ c. c; fold = λ c. c }

abbrev entry : Entry
entry = record {
  title = "A";
  link = "https://feeds.example/a";
  guid = "1";
  author = "B";
  description = "d";
  content = "c";
  date = "Mon";
  between = "\n\n\n\n\n\n\n\n";
}

abbrev version : Attr
version = record { name = name_of "version"; value = "2.0" }

abbrev channel : Channel
channel = record {
  title = "T";
  link = "https://feeds.example/";
  description = "D";
  language = "en";
  between = "\n\n\n\n\n\n";
  root_attrs = List.◌∷◌ version List.[];
  root_text = "\n\n";
}

instance abbrev any_date : DateParser
any_date = record { parse_layout = λ layout s. some 5 }

-- Each element on a line of its own.
abbrev line : Contents → Contents
line cs = aside (chars "\n") cs

abbrev lines : List Element → Contents
lines List.[] = line end
lines (List.◌∷◌ e es) = line (within e (lines es))

abbrev leaf_element : Field → Element
leaf_element (local, text) = element (name_of local) List.[] (aside (chars text) end)

abbrev entry_element : Element
entry_element = element (name_of "item") List.[] (lines (map leaf_element (entry_fields entry)))

abbrev channel_element : Element
channel_element = element (name_of "channel") List.[] (
    aside note
      (lines (map leaf_element (channel_fields channel) ++ List.◌∷◌ entry_element List.[])))

abbrev rss_element : Element
rss_element =
    element (name_of "rss") (List.◌∷◌ version List.[]) (lines (List.◌∷◌ channel_element List.[]))

-- The XML declaration and the end of its line.
abbrev prolog : List Aside
prolog = List.◌∷◌ note (List.◌∷◌ (chars "\n") List.[])

abbrev epilog : List Aside
epilog = List.◌∷◌ (chars "\n") List.[]

abbrev written : String
written =
    "<?xml version='1.0'?>\n<rss version='2.0'>\n<channel><!-- x -->\n<title>T</title>\n<link>https://feeds.example/</link>\n<description>D</description>\n<language>en</language>\n<item>\n<title>A</title>\n<link>https://feeds.example/a</link>\n<guid>1</guid>\n<author>B</author>\n<description>d</description>\n<content:encoded>c</content:encoded>\n<pubDate>Mon</pubDate>\n</item>\n</channel>\n</rss>\n"

-- A decoder that knows this text only.
instance abbrev written_decoder : XmlDecoder
written_decoder = record {
  decode = λ s. record {
    tokens = if s == written then events prolog rss_element epilog else List.[];
    failure = if s == written then none else some "unknown";
  };
}

written_tree : node_of rss_element ≡ document channel (List.◌∷◌ entry List.[])
unfolding node_of text_of
written_tree = refl

map_same : (s : String) → map_chars (λ c. c) s ≡ s
map_same [] = refl
map_same (c ∷ s) = ap (λ t. c ∷ t) (map_same s)

sample_TellsNames : TellsNames plain_unicode
unfolding equal_fold
sample_TellsNames s t hs ht = λ i. map_same s i == map_same t i

entry_IsClean : IsClean entry
unfolding trim_space parse_date
entry_IsClean = record {
  title = refl;
  link = refl;
  guid = refl;
  author = refl;
  description = refl;
  content = refl;
  date = refl;
  titled = refl;
  identified = refl;
  signed = refl;
  filled = refl;
  dated = refl;
  time = 5;
  read = refl;
}

channel_IsClean : IsCleanChannel channel
unfolding trim_space
channel_IsClean = record {
  title = refl;
  link = refl;
  description = refl;
  language = refl;
  titled = refl;
  linked = refl;
  spoken = refl;
}

rss_test : to_lower "rss" ≡ "rss"
unfolding to_lower
rss_test = refl

there_test : (is_blank written) ≡ false
unfolding is_blank
there_test = refl

parse-document_example :
    parse written "u"
    ≡ parsed (record {
      feed = feed_of_channel "u" channel;
      articles = articles_of "u" "en" (List.◌∷◌ entry List.[]) (entry_IsClean, tt);
      warnings = List.[];
    })
parse-document_example =
    parse-document channel (List.◌∷◌ entry List.[]) written "u" prolog rss_element epilog
      sample_TellsNames rss_test there_test refl written_tree (omega arith) channel_IsClean
      (entry_IsClean, tt)
