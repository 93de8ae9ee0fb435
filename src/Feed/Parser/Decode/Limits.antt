-- ===== src/Feed/Parser/Decode/Limits.antt =====
-- How large the trees of `decodeTree` can be.
use Prim.Native.Nat.{max}
use feeds_server.Base.{
  ℕ, ◌+◌, ◌≤◌, ◌≡◌, refl, ap, subst, arith, String, Bool-cases, ltb, inl, inr, Option, none, some,
  List, [], ◌∷◌, Option-cases,
}
use feeds_server.Base.Seq.{length}
use feeds_server.Base.Text.{Unicode}
use feeds_server.Feed.Parser.Tree.{Node, node, Nodes, nil, cons, snoc_node}
use feeds_server.Feed.Parser.Decode.{
  parsed, Parsed-cases, parsed-injective, Token, directive, start_element, end_element, char_data,
  other, Stream, OpenNode, closed, hang, DecodeState, decode_start, push_node, pop_node, write_text,
  is_unsafe, decode_step, decode_from, collapse, decode_end, decode_stream, max_xml_depth,
  max_xml_nodes,
}

-- The elements of a tree.
unfoldable mutual
  pub size : Node → ℕ
  size (node name attrs text children) = size_nodes children + 1

  pub size_nodes : Nodes → ℕ
  size_nodes nil = 0
  size_nodes (cons n ns) = size n + size_nodes ns

-- The elements on the longest way down.
unfoldable mutual
  pub depth : Node → ℕ
  depth (node name attrs text children) = depth_nodes children + 1

  pub depth_nodes : Nodes → ℕ
  depth_nodes nil = 0
  depth_nodes (cons n ns) = max (depth n) (depth_nodes ns)

pub size-snoc_node : (ns : Nodes) (n : Node) → size_nodes (snoc_node ns n) ≡ size_nodes ns + size n
unfolding size
size-snoc_node nil n = omega arith
size-snoc_node (cons m ms) n = omega (arith, size-snoc_node ms n)

depth-snoc_node :
    (ns : Nodes) (n : Node) → depth_nodes (snoc_node ns n) ≡ max (depth_nodes ns) (depth n)
unfolding depth
depth-snoc_node nil n = omega arith
depth-snoc_node (cons m ms) n = omega (arith, depth-snoc_node ms n)

abbrev size_open : List OpenNode → ℕ
size_open [] = 0
size_open (o ∷ ps) = size_nodes o.children + 1 + size_open ps

abbrev size_root : Option Node → ℕ
size_root none = 0
size_root (some r) = size r

-- The children of an element at level k are at most 64 - k deep.
abbrev Fits : List OpenNode → Type 0
Fits [] = Unit
Fits (o ∷ ps) = (depth_nodes o.children + (length ps + 1) ≤ max_xml_depth) × Fits ps

abbrev RootFits : Option Node → Type 0
RootFits none = Unit
RootFits (some r) = depth r ≤ max_xml_depth

record Within (root : Option Node) (stack : List OpenNode) (nodes : ℕ) : Type 0 where
  counted : size_root root + size_open stack ≤ nodes
  bounded : nodes ≤ max_xml_nodes
  root_fits : RootFits root
  stack_fits : Fits stack

abbrev IsWithin : DecodeState → Type 0
IsWithin s = Within s.root s.stack s.nodes

collapse-size : (o : OpenNode) (ps : List OpenNode) → size (collapse o ps) ≡ size_open (o ∷ ps)
unfolding collapse size
collapse-size o [] = omega arith
collapse-size o (p ∷ ps) =
    omega (arith, collapse-size (hang (closed o) p) ps, size-snoc_node p.children (closed o))

hang-Fits :
    (o p : OpenNode) (ps : List OpenNode) → Fits (o ∷ p ∷ ps) → Fits (hang (closed o) p ∷ ps)
unfolding depth
hang-Fits o p ps h = (omega (arith, h.0, h.1.0, depth-snoc_node p.children (closed o)), h.1.1)

collapse-depth :
    (o : OpenNode) (ps : List OpenNode) → Fits (o ∷ ps) → depth (collapse o ps) ≤ max_xml_depth
unfolding collapse depth
collapse-depth o [] h = omega (arith, h.0)
collapse-depth o (p ∷ ps) h = collapse-depth (hang (closed o) p) ps (hang-Fits o p ps h)

abbrev state_of : Option Node → List OpenNode → ℕ → DecodeState
state_of root stack nodes = record { root = root; stack = stack; nodes = nodes }

pop_node-IsWithin :
    (root : Option Node) (stack : List OpenNode) (nodes : ℕ)
    → Within root stack nodes
    → IsWithin (pop_node (state_of root stack nodes) stack)
unfolding size depth
pop_node-IsWithin root [] nodes h = h
pop_node-IsWithin root (o ∷ []) nodes h = record {
  counted = omega (arith, h.counted);
  bounded = h.bounded;
  root_fits = omega (arith, h.stack_fits.0);
  stack_fits = tt;
}
pop_node-IsWithin root (o ∷ p ∷ ps) nodes h = record {
  counted = omega (arith, h.counted, size-snoc_node p.children (closed o));
  bounded = h.bounded;
  root_fits = h.root_fits;
  stack_fits = hang-Fits o p ps h.stack_fits;
}

write_text-IsWithin :
    (t : String) (root : Option Node) (stack : List OpenNode) (nodes : ℕ)
    → Within root stack nodes
    → IsWithin (write_text t (state_of root stack nodes) stack)
write_text-IsWithin t root [] nodes h = h
write_text-IsWithin t root (o ∷ ps) nodes h = record {
  counted = h.counted;
  bounded = h.bounded;
  root_fits = h.root_fits;
  stack_fits = h.stack_fits;
}

-- What pushing an element gives, where it is not refused.
push_node-parsed :
    (o : OpenNode) (root : Option Node) (stack : List OpenNode) (nodes : ℕ) (s' : DecodeState)
    → push_node o (state_of root stack nodes) root stack ≡ parsed s'
    → state_of root (o ∷ stack) (nodes + 1) ≡ s'
push_node-parsed o (some r) [] nodes s' e = absurd (cc)
push_node-parsed o none [] nodes s' e = parsed-injective e
push_node-parsed o none (p ∷ ps) nodes s' e = parsed-injective e
push_node-parsed o (some r) (p ∷ ps) nodes s' e = parsed-injective e

push_node-Within :
    (o : OpenNode) (root : Option Node) (stack : List OpenNode) (nodes : ℕ)
    → o.children ≡ nil
    → length stack + 1 ≤ max_xml_depth
    → nodes + 1 ≤ max_xml_nodes
    → Within root stack nodes
    → Within root (o ∷ stack) (nodes + 1)
unfolding size depth
push_node-Within o root stack nodes fresh lo hi h = record {
  counted = rw fresh (omega (arith, h.counted));
  bounded = hi;
  root_fits = h.root_fits;
  stack_fits = (rw fresh (omega arith), h.stack_fits);
}

start-IsWithin : IsWithin decode_start
start-IsWithin = record {
  counted = omega arith;
  bounded = omega arith;
  root_fits = tt;
  stack_fits = tt;
}

module _ ⦃u : Unicode⦄ where
  decode_step-IsWithin :
      (s s' : DecodeState) (t : Token) → IsWithin s → decode_step s t ≡ parsed s' → IsWithin s'
  unfolding decode_step
  decode_step-IsWithin s s' (directive t) h e = elim (Bool-cases (is_unsafe t)) [
    | inl bad ↦ absurd (cc (rw (bad, decode_step) at e))
    | inr good ↦ subst IsWithin (parsed-injective (rw (good, decode_step) at e)) h
  ]
  decode_step-IsWithin s s' (start_element name attrs) h e =
      elim (Bool-cases (ltb max_xml_depth (length s.stack + 1))) [
        | inl deep ↦ absurd (cc (rw (deep, decode_step) at e))
        | inr shallow ↦ elim (Bool-cases (ltb max_xml_nodes (s.nodes + 1))) [
          | inl many ↦ absurd (cc (rw (shallow, decode_step, many) at e))
          | inr few ↦
              let o : OpenNode = record { name = name; attrs = attrs; text = ""; children = nil } in
              subst IsWithin
                (push_node-parsed o s.root s.stack s.nodes s' (rw (shallow, decode_step, few) at e))
                (push_node-Within o s.root s.stack s.nodes refl (ground arith) (ground arith) h)
        ]
      ]
  decode_step-IsWithin s s' (end_element name) h e =
      subst IsWithin (parsed-injective e) (pop_node-IsWithin s.root s.stack s.nodes h)
  decode_step-IsWithin s s' (char_data t) h e =
      subst IsWithin (parsed-injective e) (write_text-IsWithin t s.root s.stack s.nodes h)
  decode_step-IsWithin s s' other h e = subst IsWithin (parsed-injective e) h

  decode_from-IsWithin :
      (ts : List Token) (s s' : DecodeState)
      → IsWithin s
      → decode_from s ts ≡ parsed s'
      → IsWithin s'
  unfolding decode_from
  decode_from-IsWithin [] s s' h e = subst IsWithin (parsed-injective e) h
  decode_from-IsWithin (t ∷ ts) s s' h e = elim (Parsed-cases (decode_step s t)) [
    | inr (bad, r) ↦ absurd (cc (rw (r, decode_from) at e))
    | inl (s₁, r) ↦
        decode_from-IsWithin ts s₁ s' (decode_step-IsWithin s s₁ t h r) (rw (r, decode_from) at e)
  ]

  decode_end-IsWithin :
      (root : Option Node) (stack : List OpenNode) (nodes : ℕ) (n : Node) (ws : List String)
      → Within root stack nodes
      → decode_end root stack ≡ parsed (n, ws)
      → (depth n ≤ max_xml_depth) × (size n ≤ max_xml_nodes)
  decode_end-IsWithin none [] nodes n ws h e = absurd (cc)
  decode_end-IsWithin (some r) [] nodes n ws h e =
      let same : r ≡ n = ap (λ p. p.0) (parsed-injective e) in
      (rw (← same) h.root_fits, rw (← same) (omega (arith, h.counted, h.bounded)))
  decode_end-IsWithin none (o ∷ ps) nodes n ws h e =
      let same : collapse o ps ≡ n = ap (λ p. p.0) (parsed-injective e) in
      (
        rw (← same) (collapse-depth o ps h.stack_fits),
        rw (← same) (omega (arith, h.counted, h.bounded, collapse-size o ps)),
      )
  decode_end-IsWithin (some r) (o ∷ ps) nodes n ws h e =
      let same : collapse o ps ≡ n = ap (λ p. p.0) (parsed-injective e) in
      (
        rw (← same) (collapse-depth o ps h.stack_fits),
        rw (← same) (omega (arith, h.counted, h.bounded, collapse-size o ps)),
      )

  -- A document that is decoded, also one that ends before its elements are closed, gives a tree
  -- of at most 64 levels and at most 100,000 elements.
  pub decode_stream_bounds :
      (stream : Stream) (n : Node) (ws : List String)
      → decode_stream stream ≡ parsed (n, ws)
      → (depth n ≤ max_xml_depth) × (size n ≤ max_xml_nodes)
  unfolding decode_stream
  decode_stream_bounds stream n ws e =
      elim (Parsed-cases (decode_from decode_start stream.tokens)) [
        | inr (bad, r) ↦ absurd (cc (rw (r, decode_stream) at e))
        | inl (s, r) ↦ elim (Option-cases stream.failure) [
          | inr (m, broken) ↦ absurd (cc (rw (r, decode_stream, broken) at e))
          | inl whole ↦
              decode_end-IsWithin s.root s.stack s.nodes n ws
                (decode_from-IsWithin stream.tokens decode_start s start-IsWithin r)
                (rw (r, decode_stream, whole) at e)
        ]
      ]
