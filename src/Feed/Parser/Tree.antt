-- ===== src/Feed/Parser/Tree.antt =====
-- `xmlNode` of internal/feed/parser.go and its methods.
use feeds_server.Base.{String, Option, none, some, List, [], ◌∷◌, if◌then◌else◌}
use feeds_server.Base.Text.{Unicode, trim_space, equal_fold}

-- `xml.Name` and `xml.Attr`
pub record XmlName : Type 0 where
  pub space : String
  pub local : String

pub record Attr : Type 0 where
  pub name : XmlName
  pub value : String

mutual
  -- `xmlNode`: its name, its attributes, its text and its children.
  pub data Node : Type 0 where
    node : XmlName → List Attr → String → Nodes → Node

  pub data Nodes : Type 0 where
    nil : Nodes
    cons : Node → Nodes → Nodes

abbrev pub local_of : Node → String
local_of (node name attrs text children) = name.local

abbrev pub attrs_of : Node → List Attr
attrs_of (node name attrs text children) = attrs

abbrev pub text_of : Node → String
text_of (node name attrs text children) = text

abbrev pub children_of : Node → Nodes
children_of (node name attrs text children) = children

abbrev pub snoc_node : Nodes → Node → Nodes
snoc_node nil n = cons n nil
snoc_node (cons m ms) n = cons m (snoc_node ms n)

-- `value`
unfoldable pub node_value : Node → String
unfolding trim_space
node_value n = trim_space (text_of n)

module _ ⦃u : Unicode⦄ where
  unfoldable pub first_named : String → Nodes → Option Node
  unfolding equal_fold
  first_named local nil = none
  first_named local (cons n ns) =
      if equal_fold (local_of n) local then some n else first_named local ns

  unfoldable pub all_named : String → Nodes → List Node
  unfolding equal_fold
  all_named local nil = []
  all_named local (cons n ns) =
      let rest = all_named local ns in if equal_fold (local_of n) local then n ∷ rest else rest

  -- The methods `child` and `children`
  unfoldable pub child : Node → String → Option Node
  unfolding first_named
  child n local = first_named local (children_of n)

  unfoldable pub children : Node → String → List Node
  unfolding all_named
  children n local = all_named local (children_of n)

  unfoldable pub first_attr : String → List Attr → String
  unfolding equal_fold trim_space
  first_attr local [] = ""
  first_attr local (a ∷ as') =
      if equal_fold a.name.local local then trim_space a.value else first_attr local as'

  unfoldable pub attr : Node → String → String
  unfolding first_attr
  attr n local = first_attr local (attrs_of n)

  unfoldable pub child_value : Node → String → String
  unfolding child node_value
  child_value n local = elim (child n local) [ none ↦ "" | some c ↦ node_value c ]
