-- ===== src/Storage/Apply/Body.antt =====
-- The script between `BEGIN;` and `COMMIT;` of a migration, and slices of a text by bytes.
use Prim.Native.Char.{Char}
use Prim.Native.String.{[], ◌∷◌, ◌++◌}
use text.Mathlib.TextLemmas.{
  nil-append, cons-append, append_assoc, append-ne-nil_of_right_ne-nil, cons≢nil,
}
use mathlib.Core.Path.{ap₂}
use feeds_server.Base.{
  ◌+◌, ◌-◌, ◌<◌, ◌≡◌, ◌≢◌, refl, ap, subst, arith, String, ◌==◌, eq_refl, true, false, leb, eqb,
}
use feeds_server.Base.Text.{
  Unicode, is_space, trim_left, trim_right, trim_space, has_prefix, has_suffix, to_upper,
}
use feeds_server.Base.Text.Split.{eq_false_of_ne}
use feeds_server.Base.Text.Words.{IsWord, NoSpace, NoSpace-of_IsWord, map_chars-append}
use feeds_server.Storage.Attempt.{done}
use feeds_server.Storage.Apply.{width, byte_length, drop_bytes, take_bytes, migration_body}

has_prefix-append : (p s : String) → has_prefix p (p ++ s) ≡ true
unfolding has_prefix
has_prefix-append [] [] = refl
has_prefix-append [] (c ∷ s) = rw nil-append
has_prefix-append (d ∷ p) s = rw cons-append (ground (arith, has_prefix-append p s))

has_suffix_refl : (p : String) → has_suffix p p ≡ true
unfolding has_suffix
has_suffix_refl [] = refl
has_suffix_refl (c ∷ p) = rw (eq_refl (c ∷ p)) refl

has_suffix-append : (p s t : String) → has_suffix p t ≡ true → has_suffix p (s ++ t) ≡ true
unfolding has_suffix
has_suffix-append p [] t h = rw nil-append h
has_suffix-append p (c ∷ s) t h = rw cons-append (ground (arith, has_suffix-append p s t h))

width-positive : (c : Char) → 0 < width c
width-positive c = ground arith

byte_length-append : (s t : String) → byte_length (s ++ t) ≡ byte_length s + byte_length t
unfolding byte_length
byte_length-append [] t = rw nil-append (omega arith)
byte_length-append (c ∷ s) t = rw cons-append (omega (arith, byte_length-append s t))

take_bytes_none : (t : String) → take_bytes 0 t ≡ ""
unfolding take_bytes
take_bytes_none [] = refl
take_bytes_none (c ∷ t) = ground (arith, width-positive c)

take_bytes-append : (s t : String) → take_bytes (byte_length s) (s ++ t) ≡ s
unfolding take_bytes byte_length
take_bytes-append [] t = rw nil-append (take_bytes_none t)
take_bytes-append (c ∷ s) t =
    let less : width c + byte_length s - width c ≡ byte_length s = omega arith in
    let fits : leb (width c) (width c + byte_length s) ≡ true = ground arith in
    rw (cons-append, less, fits) (ap (λ r. c ∷ r) (take_bytes-append s t))

drop_bytes_none : (t : String) → drop_bytes 0 t ≡ t
unfolding drop_bytes
drop_bytes_none [] = refl
drop_bytes_none (c ∷ t) = refl

drop_bytes-append : (s t : String) → drop_bytes (byte_length s) (s ++ t) ≡ t
unfolding drop_bytes byte_length
drop_bytes-append [] t = rw nil-append (drop_bytes_none t)
drop_bytes-append (c ∷ s) t =
    let less : width c + byte_length s - width c ≡ byte_length s = omega arith in
    let more : eqb (width c + byte_length s) 0 ≡ false = ground (arith, width-positive c) in
    rw (cons-append, less, more) (drop_bytes-append s t)

trim_left_word : (w s : String) → IsWord w → trim_left is_space (w ++ s) ≡ w ++ s
unfolding trim_left
trim_left_word [] s h = absurd h
trim_left_word (c ∷ w) s (h, _) = rw (cons-append, h) refl

trim_right-NoSpace : (w : String) → NoSpace w → trim_right is_space w ≡ w
unfolding trim_right
trim_right-NoSpace [] h = refl
trim_right-NoSpace (c ∷ w) (h, hs) = rw (trim_right-NoSpace w hs, h) refl

word-ne-nil : (w : String) → IsWord w → w ≢ ""
word-ne-nil [] h e = h
word-ne-nil (c ∷ w) h e = cons≢nil e

trim_right-append :
    (s t : String) → t ≢ "" → trim_right is_space t ≡ t → trim_right is_space (s ++ t) ≡ s ++ t
unfolding trim_right
trim_right-append [] t there h = rw nil-append h
trim_right-append (c ∷ s) t there h =
    let more : (s ++ t == "") ≡ false =
      eq_false_of_ne (s ++ t) "" (append-ne-nil_of_right_ne-nil s there) in
    rw (cons-append, trim_right-append s t there h, more) (ground arith)

trim_space-between :
    (front back s : String)
    → IsWord front
    → IsWord back
    → trim_space (front ++ (s ++ back)) ≡ front ++ (s ++ back)
unfolding trim_space
trim_space-between front back s hf hb =
    rw (trim_left_word front (s ++ back) hf, ← append_assoc front s back)
      (trim_right-append (front ++ s) back (word-ne-nil back hb)
        (trim_right-NoSpace back (NoSpace-of_IsWord back hb)))

take_front :
    (front script back : String)
    → byte_length back ≡ 7
    → take_bytes (byte_length (front ++ (script ++ back)) - 7) (front ++ (script ++ back))
      ≡ front ++ script
take_front front script back seven =
    let len : byte_length ((front ++ script) ++ back) - 7 ≡ byte_length (front ++ script) =
      omega (arith, byte_length-append (front ++ script) back) in
    rw (← append_assoc front script back, len) (take_bytes-append (front ++ script) back)

module _ ⦃u : Unicode⦄ where
  -- The script of a migration is what stands between its first and its last word, trimmed: for all
  -- texts of six and of seven bytes that are `BEGIN;` and `COMMIT;` in capitals and hold no white
  -- space, and every script between them that is not blank.
  pub migration_body-between :
      (front back script : String)
      → IsWord front
      → IsWord back
      → to_upper front ≡ "BEGIN;"
      → to_upper back ≡ "COMMIT;"
      → byte_length front ≡ 6
      → byte_length back ≡ 7
      → trim_space script ≢ ""
      → migration_body (front ++ (script ++ back)) ≡ done (trim_space script)
  unfolding migration_body to_upper
  migration_body-between front back script hf hb begins ends six seven there =
      let whole = front ++ (script ++ back) in
      let upper : to_upper whole ≡ "BEGIN;" ++ (to_upper script ++ "COMMIT;") =
        rw (map_chars-append, map_chars-append)
          (ap₂ (λ x y. x ++ (to_upper script ++ y)) begins ends) in
      let opens : has_prefix "BEGIN;" (to_upper whole) ≡ true =
        rw upper (has_prefix-append "BEGIN;" (to_upper script ++ "COMMIT;")) in
      let closes : has_suffix "COMMIT;" (to_upper whole) ≡ true = rw upper (
        has_suffix-append "COMMIT;" "BEGIN;" (to_upper script ++ "COMMIT;")
          (has_suffix-append "COMMIT;" (to_upper script) "COMMIT;" (has_suffix_refl "COMMIT;"))) in
      let cut : take_bytes (byte_length whole - 7) whole ≡ front ++ script =
        take_front front script back seven in
      let inner : drop_bytes 6 (front ++ script) ≡ script =
        subst (λ n. drop_bytes n (front ++ script) ≡ script) six (drop_bytes-append front script) in
      let full : (trim_space script == "") ≡ false = eq_false_of_ne _ _ there in
      rw
        (
          migration_body,
          trim_space-between front back script hf hb,
          opens,
          closes,
          cut,
          inner,
          full,
        )
        refl
