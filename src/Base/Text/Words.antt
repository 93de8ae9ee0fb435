-- ===== src/Base/Text/Words.antt =====
-- `strings.Fields` and `strings.Join`: splitting a text at white space and joining the words.
use Prim.Native.Char.{Char}
use Prim.Native.String.{String, [], ◌∷◌, ◌++◌}
use text.Mathlib.TextLemmas.{nil-append, cons-append}
use mathlib.Core.Path.{◌≡◌, refl, ap}
use mathlib.Core.Bool.{Bool, true, false}
use mathlib.Core.Logic.{inl, inr}
use mathlib.Core.List.{List, map}
use native.Mathlib.Omega.{arith}
use feeds_server.Base.Tests.{Bool-cases}
use feeds_server.Base.Seq.{All}
use feeds_server.Base.Text.{is_space, starts_word, attach, fields, join, map_chars, contains_char}
use feeds_server.Base.Text.Split.{contains_char-append}

-- A text with no white space.
abbrev pub NoSpace : String → Type 0
NoSpace [] = Unit
NoSpace (c ∷ s) = (is_space c ≡ false) × NoSpace s

-- A word: some characters, none of them white space.
abbrev pub IsWord : String → Type 0
IsWord [] = ⊥
IsWord (c ∷ s) = (is_space c ≡ false) × NoSpace s

pub NoSpace-of_IsWord : (w : String) → IsWord w → NoSpace w
NoSpace-of_IsWord [] h = tt
NoSpace-of_IsWord (c ∷ w) h = h

attach-IsWord :
    (c : Char) (b : Bool) (ws : List String)
    → is_space c ≡ false
    → All IsWord ws
    → All IsWord (attach c b ws)
attach-IsWord c true (List.◌∷◌ w ws) h (k, ks) = ((h, NoSpace-of_IsWord w k), ks)
attach-IsWord c true List.[] h k = ((h, tt), tt)
attach-IsWord c false ws h k = ((h, tt), k)

-- What `strings.Fields` gives are words.
pub fields-IsWord : (s : String) → All IsWord (fields s)
unfolding fields
fields-IsWord [] = tt
fields-IsWord (c ∷ s) = elim (Bool-cases (is_space c)) [
  | inl space ↦ rw space (fields-IsWord s)
  | inr other ↦ rw other (attach-IsWord c (starts_word s) (fields s) other (fields-IsWord s))
]

-- A word is its own only word.
fields_word : (w : String) → IsWord w → fields w ≡ List.◌∷◌ w List.[]
unfolding fields
fields_word [] h = absurd h
fields_word (c ∷ []) (h, k) = rw h
fields_word (c ∷ (d ∷ s)) (h, k) = rw (h, fields_word (d ∷ s) k, k.0)

-- A word in front of white space is the first word of the whole.
fields_word_append :
    (w : String) (d : Char) (rest : String)
    → IsWord w
    → is_space d ≡ true
    → fields (w ++ (d ∷ rest)) ≡ List.◌∷◌ w (fields rest)
unfolding fields
fields_word_append [] d rest h g = absurd h
fields_word_append (c ∷ []) d rest (h, k) g = rw (cons-append, nil-append, h, g)
fields_word_append (c ∷ (e ∷ s)) d rest (h, k) g =
    rw (cons-append, h, fields_word_append (e ∷ s) d rest k g, cons-append e s (d ∷ rest), k.0)

space : is_space " " ≡ true
unfolding is_space
space = refl

-- The words of joined words are the words.
pub fields-join : (ws : List String) → All IsWord ws → fields (join " " ws) ≡ ws
unfolding join
fields-join List.[] h = unfold fields in refl
fields-join (List.◌∷◌ w List.[]) (h, _) = fields_word w h
fields-join (List.◌∷◌ w (List.◌∷◌ x ws)) (h, hs) =
    rw (cons-append, nil-append, fields_word_append w " " (join " " (List.◌∷◌ x ws)) h space)
      (ap (List.◌∷◌ w) (fields-join (List.◌∷◌ x ws) hs))

-- A change of characters that keeps white space commutes with splitting and joining.
module _ (f : Char → Char) (keeps : (c : Char) → is_space (f c) ≡ is_space c) where
  map_chars-NoSpace : (s : String) → NoSpace s → NoSpace (map_chars f s)
  map_chars-NoSpace [] h = tt
  map_chars-NoSpace (c ∷ s) (h, hs) = (rw (keeps, h), map_chars-NoSpace s hs)

  pub map_chars-IsWord : (ws : List String) → All IsWord ws → All IsWord (map (map_chars f) ws)
  map_chars-IsWord List.[] h = tt
  map_chars-IsWord (List.◌∷◌ [] ws) (h, hs) = absurd h
  map_chars-IsWord (List.◌∷◌ (c ∷ w) ws) ((h, k), hs) =
      ((rw (keeps, h), map_chars-NoSpace w k), map_chars-IsWord ws hs)

pub map_chars-append :
    (f : Char → Char) (s t : String) → map_chars f (s ++ t) ≡ map_chars f s ++ map_chars f t
map_chars-append f [] t = simp nil-append
map_chars-append f (c ∷ s) t = simp (cons-append, map_chars-append f s t)

pub map_chars-join :
    (f : Char → Char) (sep : String) (ws : List String)
    → map_chars f sep ≡ sep
    → map_chars f (join sep ws) ≡ join sep (map (map_chars f) ws)
unfolding join
map_chars-join f sep List.[] h = refl
map_chars-join f sep (List.◌∷◌ w List.[]) h = refl
map_chars-join f sep (List.◌∷◌ w (List.◌∷◌ x ws)) h =
    simp (map_chars-append, h, map_chars-join f sep (List.◌∷◌ x ws) h)

pub map_chars_idem :
    (f : Char → Char) (s : String)
    → ((c : Char) → f (f c) ≡ f c)
    → map_chars f (map_chars f s) ≡ map_chars f s
map_chars_idem f [] h = refl
map_chars_idem f (c ∷ s) h = rw (h, map_chars_idem f s h)

newline_of_NoSpace : (s : String) → NoSpace s → contains_char b'\n' s ≡ false
unfolding contains_char is_space
newline_of_NoSpace [] h = refl
newline_of_NoSpace (c ∷ s) (h, hs) = ground (arith, newline_of_NoSpace s hs)

-- Words joined by blanks hold no line break.
pub newline-join : (ws : List String) → All IsWord ws → contains_char b'\n' (join " " ws) ≡ false
unfolding join
newline-join List.[] h = unfold contains_char in refl
newline-join (List.◌∷◌ w List.[]) (h, _) = newline_of_NoSpace w (NoSpace-of_IsWord w h)
newline-join (List.◌∷◌ w (List.◌∷◌ x ws)) (h, hs) =
    rw
      (
        contains_char-append,
        contains_char-append,
        newline_of_NoSpace w (NoSpace-of_IsWord w h),
        newline-join (List.◌∷◌ x ws) hs,
      )
      (unfold contains_char in refl)
