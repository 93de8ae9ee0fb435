-- ===== src/Feed/Parser/Decode/Directives.antt =====
-- The directives of a document that `decodeTree` decodes.
use feeds_server.Base.{
  ℕ, zero, suc, ◌≡◌, arith, String, false, Bool-cases, inl, inr, some, List, [], ◌∷◌,
  some-injective,
}
use feeds_server.Base.Seq.{get_elem?}
use feeds_server.Base.Text.{Unicode}
use feeds_server.Feed.Parser.Tree.{Node}
use feeds_server.Feed.Parser.Decode.{
  parsed, Parsed-cases, Token, directive, Stream, DecodeState, decode_start, is_unsafe, decode_step,
  decode_from, decode_stream,
}

module _ ⦃u : Unicode⦄ where
  decode_from_safe :
      (ts : List Token) (s s' : DecodeState) (i : ℕ) (t : String)
      → decode_from s ts ≡ parsed s'
      → get_elem? ts i ≡ some (directive t)
      → is_unsafe t ≡ false
  unfolding decode_from decode_step
  decode_from_safe [] s s' i t e at = absurd (ground arith)
  decode_from_safe (x ∷ ts) s s' zero t e at = elim (Bool-cases (is_unsafe t)) [
    | inr good ↦ good
    | inl bad ↦
        let same : x ≡ directive t = some-injective at in
        absurd (cc (rw (same, decode_from, bad) at e))
  ]
  decode_from_safe (x ∷ ts) s s' (suc i) t e at = elim (Parsed-cases (decode_step s x)) [
    | inr (bad, r) ↦ absurd (cc (rw (r, decode_from) at e))
    | inl (s₁, r) ↦ decode_from_safe ts s₁ s' i t (rw (r, decode_from) at e) at
  ]

  -- A document that is decoded has no directive that declares a document type or an entity.
  pub decode_stream_safe :
      (stream : Stream) (n : Node) (ws : List String) (i : ℕ) (t : String)
      → decode_stream stream ≡ parsed (n, ws)
      → get_elem? stream.tokens i ≡ some (directive t)
      → is_unsafe t ≡ false
  unfolding decode_stream
  decode_stream_safe stream n ws i t e at =
      elim (Parsed-cases (decode_from decode_start stream.tokens)) [
        | inr (bad, r) ↦ absurd (cc (rw (r, decode_stream) at e))
        | inl (s, r) ↦ decode_from_safe stream.tokens decode_start s i t r at
      ]
