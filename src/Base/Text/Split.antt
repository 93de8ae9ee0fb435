-- ===== src/Base/Text/Split.antt =====
-- Texts that are joined by a separator which the parts do not hold.
use Prim.Native.Char.{Char, code}
use Prim.Native.String.{String, [], ◌∷◌, ◌++◌}
use text.Mathlib.TextLemmas.{
  nil-append, cons-append, head-eq_of_cons-eq, tail-eq_of_cons-eq, cons≢nil,
}
use text.Mathlib.Text.{◌==◌}
use text.Mathlib.TextEquality.{eq_iff}
use mathlib.Core.Logic.{◌≢◌}
use mathlib.Core.Path.{◌≡◌, refl, sym, ◌∙◌, ap, ap₂}
use mathlib.Core.Bool.{false, ◌||◌}
use Prim.Native.Nat.{ℕ}
use native.Mathlib.Omega.{arith}
use feeds_server.Base.Text.{contains_char}

pub contains_char-append :
    (k : ℕ) (s t : String) → contains_char k (s ++ t) ≡ (contains_char k s || contains_char k t)
unfolding contains_char
contains_char-append k [] t = rw nil-append
contains_char-append k (c ∷ s) t = rw cons-append (ground (arith, contains_char-append k s t))

-- The part before the first separator is determined, and so is the part behind it.
pub split_unique :
    (sep : Char) (a b x y : String)
    → contains_char (code sep) a ≡ false
    → contains_char (code sep) b ≡ false
    → a ++ (sep ∷ x) ≡ b ++ (sep ∷ y)
    → (a ≡ b) × (x ≡ y)
unfolding contains_char
split_unique sep [] [] x y ha hb e =
    (refl, tail-eq_of_cons-eq (sym (nil-append _) ∙ (e ∙ nil-append _)))
split_unique sep [] (d ∷ b) x y ha hb e =
    let same : sep ≡ d = head-eq_of_cons-eq (sym (nil-append _) ∙ (e ∙ cons-append _ _ _)) in
    absurd (ground (arith, ap code same))
split_unique sep (c ∷ a) [] x y ha hb e =
    let same : c ≡ sep = head-eq_of_cons-eq (sym (cons-append _ _ _) ∙ (e ∙ nil-append _)) in
    absurd (ground (arith, ap code same))
split_unique sep (c ∷ a) (d ∷ b) x y ha hb e =
    let whole : c ∷ (a ++ (sep ∷ x)) ≡ d ∷ (b ++ (sep ∷ y)) =
      sym (cons-append _ _ _) ∙ (e ∙ cons-append _ _ _) in
    let (front, back) =
      split_unique sep a b x y (ground arith) (ground arith) (tail-eq_of_cons-eq whole) in
    (ap₂ (λ h t. h ∷ t) (head-eq_of_cons-eq whole) front, back)

-- The same, where the separator is a text of one character.
pub split_unique_at :
    (sep : Char) (a b x y : String)
    → contains_char (code sep) a ≡ false
    → contains_char (code sep) b ≡ false
    → a ++ ((sep ∷ []) ++ x) ≡ b ++ ((sep ∷ []) ++ y)
    → (a ≡ b) × (x ≡ y)
split_unique_at sep a b x y ha hb e =
    split_unique sep a b x y ha hb (simp (cons-append, nil-append) at e)

pub eq_false_of_ne : (s t : String) → s ≢ t → (s == t) ≡ false
eq_false_of_ne s t h = ground (arith, eq_iff s t)

pub append-ne-nil : (c : Char) (s t : String) → (c ∷ s) ++ t ≢ ""
append-ne-nil c s t e = cons≢nil (sym (cons-append c s t) ∙ e)
