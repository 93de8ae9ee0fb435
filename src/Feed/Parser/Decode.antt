-- ===== src/Feed/Parser/Decode.antt =====
-- `decodeTree` of internal/feed/parser.go, over the tokens of `encoding/xml`.
pub mod Limits
pub mod Directives
pub mod Markup
pub mod RoundTrip
use Prim.Native.String.{◌++◌}
use feeds_server.Base.{
  ℕ, ◌+◌, ◌≡◌, refl, ◌⊎◌, inl, inr, String, Bool, ◌||◌, Option, none, some, List, [], ◌∷◌, ltb,
  if◌then◌else◌,
}
use feeds_server.Base.Seq.{length}
use feeds_server.Base.Text.{Unicode, to_upper, contains_text}
use feeds_server.Feed.Parser.Tree.{XmlName, Attr, Node, node, Nodes, nil, snoc_node}

-- The sentinels of the parser, and its other errors.
pub data ParseError : Type 0 where
  empty_document unsupported_format unsafe_directive too_complex multiple_roots : ParseError
  no_channel : ParseError
  malformed : String → ParseError

pub data Parsed {ℓ} (A : Type ℓ) : Type ℓ where
  parsed : A → Parsed A
  rejected : ParseError → Parsed A

pub Parsed-cases {ℓ} :
    {A : Type ℓ} (r : Parsed A) → ((a : A) × (r ≡ parsed a)) ⊎ ((e : ParseError) × (r ≡ rejected e))
Parsed-cases (parsed a) = inl (a, refl)
Parsed-cases (rejected e) = inr (e, refl)

pub parsed-injective {ℓ} : {A : Type ℓ} {a b : A} → parsed a ≡ parsed b → a ≡ b
parsed-injective e = cc

-- `xml.Token`; comments and processing instructions are `other`.
pub data Token : Type 0 where
  directive : String → Token
  start_element : XmlName → List Attr → Token
  end_element : XmlName → Token
  char_data : String → Token
  other : Token

-- What `decoder.Token` returns until it fails, and its error, none for `io.EOF`.
pub record Stream : Type 0 where
  pub tokens : List Token
  pub failure : Option String

-- `xml.NewDecoder` with `Strict` off.
pub record XmlDecoder : Type 0 where
  pub decode : String → Stream

abbrev pub max_xml_depth : ℕ
max_xml_depth = 64

abbrev pub max_xml_nodes : ℕ
max_xml_nodes = 100_000

-- An element on the stack, with the children that are closed. The source hangs an element on its
-- parent when it starts; here that is done when it ends, or at the end of the document. Nothing
-- reads the tree before.
pub record OpenNode : Type 0 where
  pub name : XmlName
  pub attrs : List Attr
  pub text : String
  pub children : Nodes

abbrev pub closed : OpenNode → Node
closed o = node o.name o.attrs o.text o.children

abbrev pub hang : Node → OpenNode → OpenNode
hang n o = record o { children = snoc_node o.children n }

-- The variables of the loop. `root` is the root that is closed: while it is open, it stands at
-- the bottom of the stack. The top of the stack is the head of the list.
pub record DecodeState : Type 0 where
  pub root : Option Node
  pub stack : List OpenNode
  pub nodes : ℕ

abbrev pub decode_start : DecodeState
decode_start = record { root = none; stack = []; nodes = 0 }

abbrev pub push_node : OpenNode → DecodeState → Option Node → List OpenNode → Parsed DecodeState
push_node o s (some r) [] = rejected multiple_roots
push_node o s none [] = parsed (record { root = none; stack = o ∷ []; nodes = s.nodes + 1 })
push_node o s r (p ∷ ps) = parsed (record { root = r; stack = o ∷ p ∷ ps; nodes = s.nodes + 1 })

abbrev pub pop_node : DecodeState → List OpenNode → DecodeState
pop_node s [] = s
pop_node s (o ∷ []) = record { root = some (closed o); stack = []; nodes = s.nodes }
pop_node s (o ∷ p ∷ ps) = record { root = s.root; stack = hang (closed o) p ∷ ps; nodes = s.nodes }

abbrev pub write_text : String → DecodeState → List OpenNode → DecodeState
write_text t s [] = s
write_text t s (o ∷ ps) = record s { stack = record o { text = o.text ++ t } ∷ ps }

module _ ⦃u : Unicode⦄ where
  unfoldable pub is_unsafe : String → Bool
  unfolding to_upper contains_text
  is_unsafe t = contains_text "DOCTYPE" (to_upper t) || contains_text "ENTITY" (to_upper t)

  -- The body of the loop.
  unfoldable pub decode_step : DecodeState → Token → Parsed DecodeState
  unfolding is_unsafe
  decode_step s (directive t) = if is_unsafe t then rejected unsafe_directive else parsed s
  decode_step s (start_element name attrs) =
      if ltb max_xml_depth (length s.stack + 1)
      then rejected too_complex
      else if ltb max_xml_nodes (s.nodes + 1)
      then rejected too_complex
      else push_node (record { name = name; attrs = attrs; text = ""; children = nil }) s s.root
          s.stack
  decode_step s (end_element name) = parsed (pop_node s s.stack)
  decode_step s (char_data t) = parsed (write_text t s s.stack)
  decode_step s other = parsed s

  unfoldable pub decode_from : DecodeState → List Token → Parsed DecodeState
  decode_from s [] = parsed s
  decode_from s (t ∷ ts) = elim (decode_step s t) [
    | rejected e ↦ rejected e
    | parsed s' ↦ decode_from s' ts
  ]

-- The tree of an element on the stack and those below it.
unfoldable pub collapse : OpenNode → List OpenNode → Node
collapse o [] = closed o
collapse o (p ∷ ps) = collapse (hang (closed o) p) ps

abbrev pub decode_end : Option Node → List OpenNode → Parsed (Node × List String)
decode_end none [] = rejected empty_document
decode_end (some r) [] = parsed (r, [])
decode_end root (o ∷ ps) =
    parsed (collapse o ps, "feed XML ended before all elements were explicitly closed" ∷ [])

module _ ⦃u : Unicode⦄ where
  abbrev pub decode_rest : Option String → DecodeState → Parsed (Node × List String)
  decode_rest (some e) s = rejected (malformed e)
  decode_rest none s = decode_end s.root s.stack

  unfoldable pub decode_stream : Stream → Parsed (Node × List String)
  decode_stream stream = elim (decode_from decode_start stream.tokens) [
    | rejected e ↦ rejected e
    | parsed s ↦ decode_rest stream.failure s
  ]

  unfoldable pub decode_tree : ⦃x : XmlDecoder⦄ → String → Parsed (Node × List String)
  unfolding decode_stream
  decode_tree ⦃x⦄ input = decode_stream (x.decode input)
