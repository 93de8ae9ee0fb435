-- ===== src/Feed/Dedup/Keys/Tokens.antt =====
-- Normalised tokens and contents, and the text that the fingerprint hashes.
use Prim.Native.Char.{Char}
use feeds_server.Base.{String, false, List, [], ◌∷◌, map, ◌≡◌, refl, ap}
use mathlib.Core.Path.{ap₂}
use feeds_server.Base.Seq.{All}
use feeds_server.Base.Text.{Unicode, is_space, fields, join, map_chars, contains_char}
use feeds_server.Base.Text.Split.{split_unique_at}
use feeds_server.Base.Text.Words.{
  IsWord, fields-IsWord, fields-join, map_chars-IsWord, map_chars-join, map_chars_idem,
  newline-join,
}
use feeds_server.Feed.Model.{Time}
use feeds_server.Feed.Dedup.Keys.{
  Fingerprinting, normalize_content, normalize_token, fingerprint_input,
}

map-map_chars_idem :
    (f : Char → Char) (ws : List String)
    → ((c : Char) → f (f c) ≡ f c)
    → map (map_chars f) (map (map_chars f) ws) ≡ map (map_chars f) ws
map-map_chars_idem f [] h = refl
map-map_chars_idem f (w ∷ ws) h =
    ap₂ (λ a as'. a ∷ as') (map_chars_idem f w h) (map-map_chars_idem f ws h)

-- What `unicode.ToLower` does to white space and to the blank, and that it is idempotent.
pub record IsCaseTable (u : Unicode) : Type 0 where
  pub keeps_space : (c : Char) → is_space (u.to_lower c) ≡ is_space c
  pub keeps_blank : u.to_lower " " ≡ " "
  pub idempotent : (c : Char) → u.to_lower (u.to_lower c) ≡ u.to_lower c

-- A second normalisation of a content changes nothing.
pub normalize_content_idem :
    (value : String) → normalize_content (normalize_content value) ≡ normalize_content value
unfolding normalize_content
normalize_content_idem value = ap (join " ") (fields-join (fields value) (fields-IsWord value))

module _ ⦃u : Unicode⦄ (table : IsCaseTable u) where
  -- A token is the lower-case words, joined by blanks.
  normalize_token_words :
      (value : String)
      → normalize_token value ≡ join " " (map (map_chars u.to_lower) (fields value))
  unfolding normalize_token
  normalize_token_words value = map_chars-join u.to_lower " " (fields value) (rw table.keeps_blank)

  token-IsWord : (value : String) → All IsWord (map (map_chars u.to_lower) (fields value))
  token-IsWord value =
      map_chars-IsWord u.to_lower table.keeps_space (fields value) (fields-IsWord value)

  -- With a case table that keeps white space and the blank and is idempotent, a second
  -- normalisation of a token changes nothing.
  pub normalize_token_idem :
      (value : String) → normalize_token (normalize_token value) ≡ normalize_token value
  normalize_token_idem value =
      let words : List String = map (map_chars u.to_lower) (fields value) in
      rw (
        normalize_token_words (normalize_token value),
        normalize_token_words value,
        fields-join words (token-IsWord value),
        map-map_chars_idem u.to_lower (fields value) table.idempotent,
      )

  newline-token : (value : String) → contains_char b'\n' (normalize_token value) ≡ false
  newline-token value = rw normalize_token_words (newline-join _ (token-IsWord value))

-- The texts "2006-01-02T15:04:05.999999999Z07:00" of instants hold no line break.
abbrev pub IsOneLine : Fingerprinting → Type 0
IsOneLine f = (t : Time) → contains_char b'\n' (f.format_time t) ≡ false

module _ ⦃u : Unicode⦄ ⦃f : Fingerprinting⦄ (table : IsCaseTable u) (line : IsOneLine f) where
  -- With such a case table, and formatted times that hold no line break, the text that is hashed
  -- for a fingerprint determines what it was made of: the title token, the author token,
  -- the formatted publication time and the content. No part can run over into the next.
  pub fingerprint_input_injective :
      (title title' author author' : String) (t t' : Time) (content content' : String)
      → fingerprint_input (normalize_token title) (normalize_token author) t content
        ≡ fingerprint_input (normalize_token title') (normalize_token author') t' content'
      → (normalize_token title ≡ normalize_token title')
        × (normalize_token author ≡ normalize_token author')
        × (f.format_time t ≡ f.format_time t')
        × (content ≡ content')
  unfolding fingerprint_input
  fingerprint_input_injective title title' author author' t t' content content' e =
      let (titles, rest) =
        split_unique_at "\n" _ _ _ _ (newline-token table title) (newline-token table title') e in
      let (authors, rest') =
        split_unique_at "\n" _ _ _ _ (newline-token table author) (newline-token table author')
          rest in
      let (times, contents) = split_unique_at "\n" _ _ _ _ (line t) (line t') rest' in
      (titles, authors, times, contents)
