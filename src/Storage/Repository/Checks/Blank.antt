-- ===== src/Storage/Repository/Checks/Blank.antt =====
-- A text that is not blank for `strings.TrimSpace` is not blank for `btrim`.
use Prim.Native.Char.{Char}
use Prim.Native.String.{[], ◌∷◌}
use text.Mathlib.TextLemmas.{cons≢nil}
use feeds_server.Base.{
  ◌≡◌, refl, arith, inl, inr, String, ◌==◌, eq_iff, Bool, true, false, Bool-cases,
}
use feeds_server.Base.Text.{
  is_space, trim_left, trim_right, trim_func, trim_space, is_blank, all_chars,
}
use feeds_server.Storage.Repository.Checks.{is_blank_char, btrim, not_blank}

trim_func-all : (p : Char → Bool) (s : String) → trim_func p s ≡ "" → all_chars p s ≡ true
unfolding trim_func trim_left trim_right
trim_func-all p [] h = refl
trim_func-all p (c ∷ s) h = elim (Bool-cases (p c)) [
  | inl hit ↦ rw (hit, trim_func-all p s (rw (trim_func, hit) at h)) refl
  | inr other ↦ absurd (cons≢nil (rw (trim_func, other, other) at h))
]

all-trim_left : (p : Char → Bool) (s : String) → all_chars p s ≡ true → trim_left p s ≡ ""
unfolding trim_left
all-trim_left p [] h = refl
all-trim_left p (c ∷ s) h = ground (arith, all-trim_left p s (ground arith))

all_spaces : (s : String) → all_chars is_blank_char s ≡ true → all_chars is_space s ≡ true
unfolding is_space
all_spaces [] h = refl
all_spaces (c ∷ s) h = ground (arith, all_spaces s (ground arith))

pub not_blank-of_is_blank : (s : String) → is_blank s ≡ false → not_blank s ≡ true
unfolding is_blank trim_space btrim trim_func trim_right
not_blank-of_is_blank s h = elim (Bool-cases (btrim s == "")) [
  | inr there ↦ rw there refl
  | inl gone ↦
      let all = all_spaces s (trim_func-all is_blank_char s ((eq_iff (btrim s) "").0 gone)) in
      absurd (cc (rw (is_blank, trim_space, trim_func, all-trim_left is_space s all) at h))
]
