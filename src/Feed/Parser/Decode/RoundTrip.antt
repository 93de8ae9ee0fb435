-- ===== src/Feed/Parser/Decode/RoundTrip.antt =====
-- The tokens that write an element, and what `decodeTree` makes of them.
use Prim.Native.String
use text.Mathlib.TextLemmas.{nil-append, append-nil, append_assoc as text_assoc}
use mathlib.Core.List.{append_assoc}
use feeds_server.Base.{
  ℕ, ◌+◌, ◌≤◌, ◌≡◌, refl, sym, ◌∙◌, ap, arith, String, Option, none, some, List, [], ◌∷◌, ◌++◌, map,
}
use mathlib.Core.Path.{ap₂}
use feeds_server.Base.Seq.{length}
use feeds_server.Base.Text.{Unicode}
use feeds_server.Feed.Parser.Tree.{XmlName, Attr, Node, node, Nodes, nil, cons, snoc_node}
use feeds_server.Feed.Parser.Decode.{
  parsed, Token, start_element, end_element, OpenNode, closed, hang, DecodeState, decode_start,
  decode_step, decode_from, decode_stream, max_xml_depth, max_xml_nodes,
}
use feeds_server.Feed.Parser.Decode.Markup.{
  Aside, note, chars, Element, element, Contents, end, aside, within, aside_token, aside_text,
  element_tokens, contents_tokens, events, text_of, node_of, nodes_of,
}
use feeds_server.Feed.Parser.Decode.Limits.{size, size_nodes, depth, depth_nodes}

abbrev append_nodes : Nodes → Nodes → Nodes
append_nodes nil ms = ms
append_nodes (cons n ns) ms = cons n (append_nodes ns ms)

append_nodes-nil : (ns : Nodes) → append_nodes ns nil ≡ ns
append_nodes-nil nil = refl
append_nodes-nil (cons n ns) = ap (cons n) (append_nodes-nil ns)

append-snoc_node :
    (ns : Nodes) (n : Node) (ms : Nodes)
    → append_nodes (snoc_node ns n) ms ≡ append_nodes ns (cons n ms)
append-snoc_node nil n ms = refl
append-snoc_node (cons m ns) n ms = ap (cons m) (append-snoc_node ns n ms)

abbrev at_state : Option Node → List OpenNode → ℕ → DecodeState
at_state root stack nodes = record { root = root; stack = stack; nodes = nodes }

abbrev opened : XmlName → List Attr → String → Nodes → OpenNode
opened name attrs text children = record {
  name = name;
  attrs = attrs;
  text = text;
  children = children;
}

-- An open element behind some contents.
abbrev filled : OpenNode → Contents → OpenNode
filled o cs = record o {
  text = Prim.Native.String.◌++◌ o.text (text_of cs);
  children = append_nodes o.children (nodes_of cs);
}

add_zero : (k : ℕ) → k ≡ k + 0
add_zero k = omega arith

module _ ⦃u : Unicode⦄ where
  start-eq :
      (name : XmlName) (attrs : List Attr) (root : Option Node) (o : OpenNode) (ps : List OpenNode)
      (k : ℕ)
      → length ps + 2 ≤ max_xml_depth
      → k + 1 ≤ max_xml_nodes
      → decode_step (at_state root (o ∷ ps) k) (start_element name attrs)
        ≡ parsed (at_state root (opened name attrs "" nil ∷ o ∷ ps) (k + 1))
  unfolding decode_step
  start-eq name attrs none o ps k lo hi = ground arith
  start-eq name attrs (some r) o ps k lo hi = ground arith

  end-eq :
      (root : Option Node) (o p : OpenNode) (ps : List OpenNode) (k : ℕ) (name : XmlName)
      → decode_step (at_state root (o ∷ p ∷ ps) k) (end_element name)
        ≡ parsed (at_state root (hang (closed o) p ∷ ps) k)
  unfolding decode_step
  end-eq root o p ps k name = refl

  decode_from-step :
      (s s' : DecodeState) (t : Token) (ts : List Token)
      → decode_step s t ≡ parsed s'
      → decode_from s (t ∷ ts) ≡ decode_from s' ts
  unfolding decode_from
  decode_from-step s s' t ts e = rw (e, decode_from)

  decode_from-nil : (s : DecodeState) → decode_from s [] ≡ parsed s
  unfolding decode_from
  decode_from-nil s = refl

  abbrev add_aside : Aside → OpenNode → OpenNode
  add_aside a o = record o { text = Prim.Native.String.◌++◌ o.text (aside_text a) }

  aside-eq :
      (root : Option Node) (o : OpenNode) (ps : List OpenNode) (k : ℕ) (a : Aside)
      → decode_step (at_state root (o ∷ ps) k) (aside_token a)
        ≡ parsed (at_state root (add_aside a o ∷ ps) k)
  unfolding decode_step
  aside-eq root o ps k note =
      ap (λ t. parsed (at_state root (record o { text = t } ∷ ps) k)) (sym (append-nil o.text))
  aside-eq root o ps k (chars t) = refl

  mutual
    unfolding element_tokens node_of text_of size depth

    run_element :
        (e : Element) (root : Option Node) (o : OpenNode) (ps : List OpenNode) (k : ℕ)
        (rest : List Token)
        → depth (node_of e) + (length ps + 1) ≤ max_xml_depth
        → k + size (node_of e) ≤ max_xml_nodes
        → decode_from (at_state root (o ∷ ps) k) (element_tokens e ++ rest)
          ≡ decode_from (at_state root (hang (node_of e) o ∷ ps) (k + size (node_of e))) rest
    run_element (element name attrs cs) root o ps k rest lo hi =
        let o' = opened name attrs "" nil in
        decode_from-step _ _ _ _
          (start-eq name attrs root o ps k (omega (arith, lo)) (omega (arith, hi)))
        ∙ (ap (decode_from (at_state root (o' ∷ o ∷ ps) (k + 1)))
              (append_assoc (contents_tokens cs) (end_element name ∷ []) rest)
            ∙ (run_contents cs root o' (o ∷ ps) (k + 1) (end_element name ∷ rest) (omega arith)
                  (omega arith)
                ∙ (decode_from-step _ _ _ _
                      (end-eq root (filled o' cs) o ps (k + 1 + size_nodes (nodes_of cs)) name)
                    ∙ ap₂
                        (λ (m : ℕ) t.
                          decode_from
                            (at_state root (hang (node name attrs t (nodes_of cs)) o ∷ ps) m) rest)
                        (omega arith) (nil-append (text_of cs)))))

    run_contents :
        (cs : Contents) (root : Option Node) (o : OpenNode) (ps : List OpenNode) (k : ℕ)
        (rest : List Token)
        → depth_nodes (nodes_of cs) + (length ps + 1) ≤ max_xml_depth
        → k + size_nodes (nodes_of cs) ≤ max_xml_nodes
        → decode_from (at_state root (o ∷ ps) k) (contents_tokens cs ++ rest)
          ≡ decode_from (at_state root (filled o cs ∷ ps) (k + size_nodes (nodes_of cs))) rest
    run_contents end root o ps k rest lo hi = λ i.
        decode_from
          (at_state root
            (record o {
              text = sym (append-nil o.text) i;
              children = sym (append_nodes-nil o.children) i;
            }
              ∷ ps)
            (add_zero k i))
          rest
    run_contents (aside a cs) root o ps k rest lo hi =
        decode_from-step _ _ _ _ (aside-eq root o ps k a)
        ∙ (run_contents cs root (add_aside a o) ps k rest lo hi
            ∙ ap
                (λ t.
                  decode_from
                    (at_state root
                      (record o { text = t; children = append_nodes o.children (nodes_of cs) } ∷ ps)
                      (k + size_nodes (nodes_of cs)))
                    rest)
                (text_assoc o.text (aside_text a) (text_of cs)))
    run_contents (within e cs) root o ps k rest lo hi =
        ap (decode_from (at_state root (o ∷ ps) k))
          (append_assoc (element_tokens e) (contents_tokens cs) rest)
        ∙ (run_element e root o ps k (contents_tokens cs ++ rest) (omega arith) (omega arith)
            ∙ (run_contents cs root (hang (node_of e) o) ps (k + size (node_of e)) rest
                  (omega arith) (omega arith)
                ∙ ap₂
                    (λ (m : ℕ) ns.
                      decode_from
                        (at_state root
                          (record o {
                            text = Prim.Native.String.◌++◌ o.text (text_of cs);
                            children = ns;
                          }
                            ∷ ps)
                          m)
                        rest)
                    (omega arith) (append-snoc_node o.children (node_of e) (nodes_of cs))))

  root_start :
      (name : XmlName) (attrs : List Attr)
      → decode_step decode_start (start_element name attrs)
        ≡ parsed (at_state none (opened name attrs "" nil ∷ []) 1)
  unfolding decode_step
  root_start name attrs = refl

  root_end :
      (o : OpenNode) (k : ℕ) (name : XmlName)
      → decode_step (at_state none (o ∷ []) k) (end_element name)
        ≡ parsed (at_state (some (closed o)) [] k)
  unfolding decode_step
  root_end o k name = refl

  -- What stands outside of the root changes nothing.
  outside-eq :
      (root : Option Node) (k : ℕ) (a : Aside)
      → decode_step (at_state root [] k) (aside_token a) ≡ parsed (at_state root [] k)
  unfolding decode_step
  outside-eq root k note = refl
  outside-eq root k (chars t) = refl

  run_outside :
      (xs : List Aside) (root : Option Node) (k : ℕ) (rest : List Token)
      → decode_from (at_state root [] k) (map aside_token xs ++ rest)
        ≡ decode_from (at_state root [] k) rest
  run_outside [] root k rest = refl
  run_outside (a ∷ xs) root k rest =
      decode_from-step _ _ _ _ (outside-eq root k a) ∙ run_outside xs root k rest

  run_behind :
      (xs : List Aside) (root : Option Node) (k : ℕ)
      → decode_from (at_state root [] k) (map aside_token xs) ≡ parsed (at_state root [] k)
  run_behind [] root k = decode_from-nil _
  run_behind (a ∷ xs) root k = decode_from-step _ _ _ _ (outside-eq root k a) ∙ run_behind xs root k

  run_root :
      (e : Element) (after : List Aside)
      → depth (node_of e) ≤ max_xml_depth
      → size (node_of e) ≤ max_xml_nodes
      → (m : ℕ) × (decode_from decode_start (element_tokens e ++ map aside_token after)
          ≡ parsed (at_state (some (node_of e)) [] m))
  unfolding element_tokens node_of size depth
  run_root (element name attrs cs) after lo hi =
      let o = opened name attrs "" nil in
      let ts : List Token = map aside_token after in
      let m = 1 + size_nodes (nodes_of cs) in
      (
        m,
        decode_from-step _ _ _ _ (root_start name attrs)
            ∙ (ap (decode_from (at_state none (o ∷ []) 1))
                  (append_assoc (contents_tokens cs) (end_element name ∷ []) ts)
                ∙ (run_contents cs none o [] 1 (end_element name ∷ ts) (omega arith) (omega arith)
                    ∙ (decode_from-step _ _ _ _ (root_end (filled o cs) m name)
                        ∙ (run_behind after (some (closed (filled o cs))) m
                            ∙ ap
                                (λ t.
                                  parsed (at_state (some (node name attrs t (nodes_of cs))) [] m))
                                (nil-append (text_of cs)))))),
      )

  -- An element of at most 64 levels and 100,000 elements, with any attributes and with text,
  -- comments and elements in any order, comes back as its tree, and without a warning, from the
  -- tokens that write it, also where text and comments stand around it.
  pub decode_stream-events :
      (before : List Aside) (e : Element) (after : List Aside)
      → depth (node_of e) ≤ max_xml_depth
      → size (node_of e) ≤ max_xml_nodes
      → decode_stream (record { tokens = events before e after; failure = none })
        ≡ parsed (node_of e, [])
  unfolding decode_stream
  decode_stream-events before e after lo hi =
      let (m, run) = run_root e after lo hi in
      let all = run_outside before none 0 (element_tokens e ++ map aside_token after) ∙ run in
      rw (all, decode_stream)
