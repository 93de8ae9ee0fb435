-- ===== src/Feed/Parser/Normal.antt =====
-- What every article of a parsed feed satisfies, and what the shared parts do towards it.
use feeds_server.Base.{
  ◌≡◌, ◌≢◌, ◌⊎◌, sym, ◌∙◌, subst, arith, String, eq_iff, false, Bool-cases, inl, inr, List, [], ◌∷◌,
}
use feeds_server.Base.Int.{ℤ}
use feeds_server.Base.Seq.{All}
use feeds_server.Base.Text.{Unicode}
use feeds_server.Feed.Model.{Article}
use feeds_server.Feed.Parser.Tree.{Node, node_value}
use feeds_server.Feed.Parser.Collect.{add_unique, add_media_or_image}
use feeds_server.Feed.Parser.Collect.Distinct.{
  AreDistinct, add_unique-AreDistinct, IsCollected, bare, add_media_or_image-IsCollected,
  bare-add_media_or_image,
}
use feeds_server.Feed.Parser.Fill.{
  Draft, source_of, with_fallbacks, is_empty_article, add_values, add_texts, keep_article,
}

-- The fields that the literal and the two defaults decide.
abbrev pub IsTextual : String → String → Article → Type 0
IsTextual format url a =
    ((a.identifier ≢ "") ⊎ (a.url ≡ ""))
    × ((a.content ≢ "") ⊎ (a.summary ≡ ""))
    × (a.source ≡ source_of format url)

-- An article that is kept: it says something, it has an identifier where it has a URL, a content
-- where it has a summary, its source, and lists without repetitions.
pub record IsNormal ⦃u : Unicode⦄ (format url : String) (a : Article) : Type 0 where
  pub kept : is_empty_article a ≡ false
  pub textual : IsTextual format url a
  pub collected : IsCollected a

pub with_fallbacks-IsTextual :
    (format url : String) (a : Article)
    → a.source ≡ source_of format url
    → IsTextual format url (with_fallbacks a)
with_fallbacks-IsTextual format url a origin = (
  ground (arith, eq_iff a.identifier "", eq_iff a.url ""),
  ground (arith, eq_iff a.content "", eq_iff a.summary ""),
  origin,
)

pub bare-IsTextual :
    (format url : String) (a b : Article)
    → bare b ≡ bare a
    → IsTextual format url a
    → IsTextual format url b
bare-IsTextual format url a b same h = subst (IsTextual format url) (sym same) h

module _ ⦃u : Unicode⦄ where
  -- A step of the loops: it keeps the lists free of repetitions and the other fields as they are.
  abbrev pub IsStep : Article → Article → Type 0
  IsStep a b = IsCollected b × (bare b ≡ bare a)

  pub IsStep-trans : (a b c : Article) → IsStep a b → (IsCollected b → IsStep b c) → IsStep a c
  IsStep-trans a b c (h, e) k = let (h', e') = k h in (h', e' ∙ e)

  pub add_media_or_image-IsStep :
      (a : Article) (url mime : String) (width height : ℤ) (medium : String)
      → IsCollected a
      → IsStep a (add_media_or_image a url mime width height medium)
  add_media_or_image-IsStep a url mime width height medium h = (
    add_media_or_image-IsCollected a url mime width height medium h,
    bare-add_media_or_image a url mime width height medium,
  )

  pub add_values-AreDistinct :
      (xs : List String) (ns : List Node) → AreDistinct xs → AreDistinct (add_values xs ns)
  unfolding add_values
  add_values-AreDistinct xs [] h = h
  add_values-AreDistinct xs (n ∷ ns) h =
      add_values-AreDistinct (add_unique xs (node_value n)) ns
        (add_unique-AreDistinct xs (node_value n) h)

  pub add_texts-AreDistinct : (xs ts : List String) → AreDistinct xs → AreDistinct (add_texts xs ts)
  unfolding add_texts
  add_texts-AreDistinct xs [] h = h
  add_texts-AreDistinct xs (t ∷ ts) h =
      add_texts-AreDistinct (add_unique xs t) ts (add_unique-AreDistinct xs t h)

  pub keep_article-AreNormal :
      (format url warning : String) (d : Draft) (rest : List Article × List String)
      → IsTextual format url d.0
      → IsCollected d.0
      → All (IsNormal format url) rest.0
      → All (IsNormal format url) (keep_article warning d rest).0
  keep_article-AreNormal format url warning (a, ws) (rest, vs) t c h =
      elim (Bool-cases (is_empty_article a)) [
        | inl empty ↦ rw (empty, keep_article) h
        | inr full ↦ rw (full, keep_article) (record { kept = full; textual = t; collected = c }, h)
      ]
