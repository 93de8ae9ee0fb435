-- ===== src/Base/Url/Authority.antt =====
-- Authorities taken apart: the host and the port of what is written from a host and a port.
use Prim.Native.Nat.{ℕ, ◌<◌}
use Prim.Native.Char.{Char, code}
use Prim.Native.String.{String, [], ◌∷◌, ◌++◌}
use mathlib.Core.Path.{◌≡◌, refl, ap, subst, sym, ◌∙◌}
use mathlib.Core.Logic.{inl, inr}
use mathlib.Core.Bool.{true, false}
use mathlib.Core.Option.{Option, none, some}
use native.Mathlib.Omega.{arith}
use text.Mathlib.TextLemmas.{nil-append, cons-append, append_assoc}
use feeds_server.Base.Tests.{eqb, if◌then◌else◌, Bool-cases, Option-cases}
use feeds_server.Base.Text.{split_last, cut_last, is_digit, all_chars, contains_char}
use feeds_server.Base.Url.{strip_brackets, split_authority}

-- A text with no occurrence of a character.
abbrev pub Free : ℕ → String → Type 0
Free k s = contains_char k s ≡ false

pub Free-tail :
    (k : ℕ) (c : Char) (s : String) → Free k (c ∷ s) → (eqb (code c) k ≡ false) × Free k s
unfolding contains_char
Free-tail k c s h = ground arith

split_last-none : (k : ℕ) (s : String) → Free k s → split_last k s ≡ none
unfolding split_last
split_last-none k [] h = refl
split_last-none k (c ∷ s) h =
    let (other, rest) = Free-tail k c s h in rw (split_last-none k s rest, other) refl

split_last-missing :
    (k : ℕ) (d : Char) (s : String)
    → split_last k s ≡ none
    → split_last k (d ∷ s) ≡ (if eqb (code d) k then some ("", s) else none)
unfolding split_last
split_last-missing k d s h = rw h refl

split_last-first :
    (c : Char) (t : String) → Free (code c) t → split_last (code c) (c ∷ t) ≡ some ("", t)
unfolding split_last
split_last-first c t h = rw (split_last-none (code c) t h) (ground arith)

cut_last-one : (c : Char) → cut_last (code c) (c ∷ []) ≡ some ""
unfolding cut_last
cut_last-one c = ground arith

split_last-later :
    (k : ℕ) (d : Char) (s : String) {a b : String}
    → split_last k s ≡ some (a, b)
    → split_last k (d ∷ s) ≡ some (d ∷ a, b)
unfolding split_last
split_last-later k d s h = rw h refl

split_last-at :
    (c : Char) (s t : String) → Free (code c) t → split_last (code c) (s ++ (c ∷ t)) ≡ some (s, t)
split_last-at c [] t h = rw nil-append (split_last-first c t h)
split_last-at c (d ∷ s) t h =
    rw cons-append (split_last-later (code c) d (s ++ (c ∷ t)) (split_last-at c s t h))

cut_last-later :
    (k : ℕ) (d : Char) (s : String) {r : String}
    → cut_last k s ≡ some r
    → cut_last k (d ∷ s) ≡ some (d ∷ r)
unfolding cut_last
cut_last-later k d [] h = absurd (cc)
cut_last-later k d (e ∷ s) h = rw h refl

cut_last-at : (c : Char) (s : String) → cut_last (code c) (s ++ (c ∷ [])) ≡ some s
cut_last-at c [] = rw nil-append (cut_last-one c)
cut_last-at c (d ∷ s) = rw cons-append (cut_last-later (code c) d (s ++ (c ∷ [])) (cut_last-at c s))

digits-append :
    (s : String) (c : Char) → is_digit c ≡ false → all_chars is_digit (s ++ (c ∷ [])) ≡ false
digits-append [] c h = rw (nil-append, h) refl
digits-append (d ∷ s) c h = rw (cons-append, digits-append s c h) (ground arith)

-- Behind a last character that is no digit and not the separator, the part that is split off is no
-- number.
abbrev second_of : Option (String × String) → String
second_of none = ""
second_of (some (a, b)) = b

split_last-digits :
    (k : ℕ) (c : Char) (s h p : String)
    → is_digit c ≡ false
    → eqb (code c) k ≡ false
    → split_last k (s ++ (c ∷ [])) ≡ some (h, p)
    → all_chars is_digit p ≡ false
unfolding split_last
split_last-digits k c [] h p bad other e = absurd (cc (rw (nil-append, other) at e))
split_last-digits k c (d ∷ s) h p bad other e =
    let rest = s ++ (c ∷ []) in
    let whole : split_last k (d ∷ rest) ≡ some (h, p) = rw (← cons-append d s (c ∷ [])) e in
    elim (Option-cases (split_last k rest)) [
      | inr ((a, b), found) ↦
          let same : b ≡ p = ap second_of (sym (split_last-later k d rest found) ∙ whole) in
          subst (λ x. all_chars is_digit x ≡ false) same
            (split_last-digits k c s a b bad other found)
      | inl missing ↦
          let last : ◌≡◌ {A = Option (String × String)}
              (if eqb (code d) k then some ("", rest) else none) (some (h, p)) =
            sym (split_last-missing k d rest missing) ∙ whole in
          elim (Bool-cases (eqb (code d) k)) [
            | inl here ↦
                subst (λ x. all_chars is_digit x ≡ false) (ap second_of (rw here at last))
                  (digits-append s c bad)
            | inr there ↦ absurd (cc (rw there at last))
          ]
    ]

pub all_digits-Free : (k : ℕ) (p : String) → 57 < k → all_chars is_digit p ≡ true → Free k p
unfolding contains_char
all_digits-Free k [] lo h = refl
all_digits-Free k (c ∷ p) lo h = ground (arith, all_digits-Free k p lo (ground arith))

pub one-append : (c : Char) (s : String) → (c ∷ []) ++ s ≡ c ∷ s
one-append c s = rw (cons-append, nil-append) refl

split_authority-some :
    (authority h p : String)
    → split_last b':' authority ≡ some (h, p)
    → split_authority authority
      ≡ (if all_chars is_digit p then (strip_brackets h, p) else (strip_brackets authority, ""))
unfolding split_authority
split_authority-some authority h p e = rw (split_authority, e) refl

split_authority-none :
    (authority : String)
    → split_last b':' authority ≡ none
    → split_authority authority ≡ (strip_brackets authority, "")
unfolding split_authority
split_authority-none authority e = rw (split_authority, e) refl

-- A port is made of digits.
pub split_authority-digits :
    (authority : String) → all_chars is_digit (split_authority authority).1 ≡ true
split_authority-digits authority = elim (Option-cases (split_last b':' authority)) [
  | inl missing ↦ rw (split_authority-none authority missing) refl
  | inr ((h, p), found) ↦ elim (Bool-cases (all_chars is_digit p)) [
    | inl digits ↦ rw (split_authority-some authority h p found, digits) digits
    | inr other ↦ rw (split_authority-some authority h p found, other) refl
  ]
]

-- A host and a port that are joined by a colon.
pub split_authority_joined :
    (host p : String)
    → Free b':' p
    → all_chars is_digit p ≡ true
    → split_authority (host ++ (":" ++ p)) ≡ (strip_brackets host, p)
split_authority_joined host p free digits =
    let split : split_last b':' (host ++ (":" ++ p)) ≡ some (host, p) =
      rw (one-append ":" p) (split_last-at ":" host p free) in
    rw (split_authority-some (host ++ (":" ++ p)) host p split, digits) refl

pub strip_brackets-Free : (name : String) → Free b'[' name → strip_brackets name ≡ name
strip_brackets-Free [] h = refl
strip_brackets-Free (c ∷ s) h = rw (Free-tail b'[' c s h).0 refl

strip_brackets-cut :
    (c : Char) (s t : String)
    → eqb (code c) b'[' ≡ true
    → cut_last b']' s ≡ some t
    → strip_brackets (c ∷ s) ≡ t
strip_brackets-cut c s t first cut = rw (first, cut) refl

pub strip_brackets-bracketed : (name : String) → strip_brackets ("[" ++ (name ++ "]")) ≡ name
strip_brackets-bracketed name =
    rw (one-append "[" (name ++ "]"))
      (strip_brackets-cut "[" (name ++ "]") name refl (cut_last-at "]" name))

-- A host with no colon, and no port.
pub split_authority_plain :
    (name : String) → Free b':' name → split_authority name ≡ (strip_brackets name, "")
split_authority_plain name free = split_authority-none name (split_last-none b':' name free)

-- A host in brackets, and no port.
pub split_authority_bracketed :
    (name : String) → split_authority ("[" ++ (name ++ "]")) ≡ (name, "")
unfolding split_authority
split_authority_bracketed name =
    let whole = "[" ++ (name ++ "]") in
    let strip = strip_brackets-bracketed name in
    elim (Option-cases (split_last b':' whole)) [
      | inl missing ↦ rw (split_authority, missing, strip) refl
      | inr ((h, p), found) ↦
          let bad : all_chars is_digit p ≡ false =
            split_last-digits b':' "]" ("[" ++ name) h p refl refl
              (rw (append_assoc "[" name "]") found) in
          rw (split_authority-some whole h p found, bad, strip) refl
    ]
