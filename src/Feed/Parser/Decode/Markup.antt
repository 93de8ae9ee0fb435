-- ===== src/Feed/Parser/Decode/Markup.antt =====
-- Elements as they are written, their tokens for `decodeTree`, and their trees.
use Prim.Native.String
use feeds_server.Base.{String, List, [], ◌∷◌, ◌++◌, map}
use feeds_server.Feed.Parser.Tree.{XmlName, Attr, Node, node, Nodes, nil, cons}
use feeds_server.Feed.Parser.Decode.{Token, start_element, end_element, char_data, other}

-- What stands beside the elements: a comment or a processing instruction, or text.
pub data Aside : Type 0 where
  note : Aside
  chars : String → Aside

-- An element as it is written, with its contents in their order.
mutual
  pub data Element : Type 0 where
    element : XmlName → List Attr → Contents → Element

  pub data Contents : Type 0 where
    end : Contents
    aside : Aside → Contents → Contents
    within : Element → Contents → Contents

abbrev pub aside_token : Aside → Token
aside_token note = other
aside_token (chars t) = char_data t

abbrev pub aside_text : Aside → String
aside_text note = ""
aside_text (chars t) = t

-- Its tokens.
unfoldable mutual
  pub element_tokens : Element → List Token
  element_tokens (element name attrs cs) =
      start_element name attrs ∷ (contents_tokens cs ++ end_element name ∷ [])

  pub contents_tokens : Contents → List Token
  contents_tokens end = []
  contents_tokens (aside a cs) = aside_token a ∷ contents_tokens cs
  contents_tokens (within e cs) = element_tokens e ++ contents_tokens cs

-- A document: an element, and what stands in front of it and behind it.
abbrev pub events : List Aside → Element → List Aside → List Token
events before e after = map aside_token before ++ (element_tokens e ++ map aside_token after)

-- All text of an element.
unfoldable pub text_of : Contents → String
text_of end = ""
text_of (aside a cs) = Prim.Native.String.◌++◌ (aside_text a) (text_of cs)
text_of (within e cs) = text_of cs

-- Its tree: its text, and its elements in their order.
unfoldable mutual
  pub node_of : Element → Node
  node_of (element name attrs cs) = node name attrs (text_of cs) (nodes_of cs)

  pub nodes_of : Contents → Nodes
  nodes_of end = nil
  nodes_of (aside a cs) = nodes_of cs
  nodes_of (within e cs) = cons (node_of e) (nodes_of cs)
