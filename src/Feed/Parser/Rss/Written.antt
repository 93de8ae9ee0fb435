-- ===== src/Feed/Parser/Rss/Written.antt =====
-- RSS documents written from entries, for `parseRSS` to read.
use Prim.Native.String.{String}
use feeds_server.Base.{if◌then◌else◌, ◌==◌, Bool, true, false, ◌||◌, ◌≡◌, none, some, List, [], ◌∷◌}
use feeds_server.Base.Seq.{All}
use feeds_server.Base.Text.{Unicode, trim_space, equal_fold}
use feeds_server.Feed.Model.{Time, Article, Feed}
use feeds_server.Feed.Parser.Tree.{XmlName, Attr, Node, node, Nodes, nil, cons}
use feeds_server.Feed.Parser.Collect.{DateParser, parse_date}
use feeds_server.Feed.Parser.Fill.{source_of}

-- An entry with everything that an article can take from single elements, and the text between
-- these.
pub record Entry : Type 0 where
  pub title : String
  pub link : String
  pub guid : String
  pub author : String
  pub description : String
  pub content : String
  pub date : String
  pub between : String

-- A channel, with the text between its elements, and the attributes and the text of the root.
pub record Channel : Type 0 where
  pub title : String
  pub link : String
  pub description : String
  pub language : String
  pub between : String
  pub root_attrs : List Attr
  pub root_text : String

-- Elements that hold a text.
abbrev pub Field : Type 0
Field = String × String

abbrev pub name_of : String → XmlName
name_of local = record {
  space = if local == "encoded" then "http://purl.org/rss/1.0/modules/content/" else "";
  local = local;
}

abbrev pub leaf : Field → Node
leaf (local, text) = node (name_of local) [] text nil

abbrev pub leaves_before : List Field → Nodes → Nodes
leaves_before [] ns = ns
leaves_before (f ∷ fs) ns = cons (leaf f) (leaves_before fs ns)

abbrev pub entry_fields : Entry → List Field
entry_fields e =
    ("title", e.title)
    ∷ ("link", e.link)
    ∷ ("guid", e.guid)
    ∷ ("author", e.author)
    ∷ ("description", e.description)
    ∷ ("encoded", e.content)
    ∷ ("pubDate", e.date)
    ∷ []

abbrev pub channel_fields : Channel → List Field
channel_fields c =
    ("title", c.title)
    ∷ ("link", c.link)
    ∷ ("description", c.description)
    ∷ ("language", c.language)
    ∷ []

abbrev pub item : Entry → Node
item e = node (name_of "item") [] e.between (leaves_before (entry_fields e) nil)

abbrev pub items : List Entry → Nodes
items [] = nil
items (e ∷ es) = cons (item e) (items es)

abbrev pub channel_node : Channel → List Entry → Node
channel_node c es =
    node (name_of "channel") [] c.between (leaves_before (channel_fields c) (items es))

abbrev pub document : Channel → List Entry → Node
document c es = node (name_of "rss") c.root_attrs c.root_text (cons (channel_node c es) nil)

-- The names of elements that are written, or that `parseRSS` looks for.
abbrev pub element_names : List String
element_names =
    "channel" ∷ "item" ∷ "title" ∷ "link" ∷ "guid" ∷ "author" ∷ "creator" ∷ "description"
    ∷ "encoded" ∷ "language" ∷ "pubDate" ∷ "published" ∷ "updated" ∷ "modified" ∷ "category" ∷ "tag"
    ∷ "keywords" ∷ "enclosure" ∷ "content" ∷ "thumbnail" ∷ "image" ∷ []

abbrev pub is_in : String → List String → Bool
is_in s [] = false
is_in s (t ∷ ts) = s == t || is_in s ts

-- Case folding tells these names apart.
abbrev pub TellsNames : Unicode → Type 0
TellsNames u =
    (s t : String)
    → is_in s element_names ≡ true
    → is_in t element_names ≡ true
    → equal_fold ⦃u = u⦄ s t ≡ (s == t)

-- Texts with no white space around them, of which those that an article needs are there, and a date
-- that can be read.
pub record IsClean ⦃d : DateParser⦄ (e : Entry) : Type 0 where
  pub title : trim_space e.title ≡ e.title
  pub link : trim_space e.link ≡ e.link
  pub guid : trim_space e.guid ≡ e.guid
  pub author : trim_space e.author ≡ e.author
  pub description : trim_space e.description ≡ e.description
  pub content : trim_space e.content ≡ e.content
  pub date : trim_space e.date ≡ e.date
  pub titled : (e.title == "") ≡ false
  pub identified : (e.guid == "") ≡ false
  pub signed : (e.author == "") ≡ false
  pub filled : (e.content == "") ≡ false
  pub dated : (e.date == "") ≡ false
  pub time : Time
  pub read : parse_date e.date ≡ some time

pub record IsCleanChannel (c : Channel) : Type 0 where
  pub title : trim_space c.title ≡ c.title
  pub link : trim_space c.link ≡ c.link
  pub description : trim_space c.description ≡ c.description
  pub language : trim_space c.language ≡ c.language
  pub titled : (c.title == "") ≡ false
  pub linked : (c.link == "") ≡ false
  pub spoken : (c.language == "") ≡ false

-- The article of an entry, and the feed of a channel.
abbrev pub article_of_entry : String → String → Entry → Time → Article
article_of_entry source_url language e time = record {
  id = "";
  feed_id = "";
  identifier = e.guid;
  url = e.link;
  title = e.title;
  author = e.author;
  published_at = some time;
  updated_at = none;
  summary = e.description;
  content = e.content;
  categories = [];
  tags = [];
  media = [];
  images = [];
  language = language;
  source = source_of "rss" source_url;
}

abbrev pub feed_of_channel : String → Channel → Feed
feed_of_channel source_url c = record {
  id = "";
  url = c.link;
  title = c.title;
  description = c.description;
  icon_url = "";
  image_url = "";
  language = c.language;
  source = source_of "rss" source_url;
}

module _ ⦃d : DateParser⦄ (source_url language : String) where
  -- The articles of some entries.
  abbrev pub articles_of : (es : List Entry) → All IsClean es → List Article
  articles_of [] h = []
  articles_of (e ∷ es) (clean, h) =
      article_of_entry source_url language e clean.time ∷ articles_of es h
