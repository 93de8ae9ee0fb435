-- ===== src/Feed/Dedup/Counts.antt =====
-- How many articles `deduplicate_articles` keeps and reports, and what happens to articles that
-- have no source scope.
use feeds_server.Base.{
  ℕ, suc, ◌+◌, Option, none, some, List, [], ◌∷◌, ◌++◌, ◌≡◌, refl, ◌∙◌, ap, arith,
}
use feeds_server.Base.Seq.{length, All}
use feeds_server.Base.Text.{Unicode}
use feeds_server.Base.Url.{UrlLibrary}
use feeds_server.Feed.Model.{Article}
use feeds_server.Feed.Dedup.Keys.{ArticleKeys, Fingerprinting, source_scope, keys_for_article}
use feeds_server.Feed.Dedup.{Candidate, deduplicate_articles}
use feeds_server.Feed.Dedup.Reference.{
  Past, verdict, verdicts, kept, numbered, canonical_of, kept_before, deduplicate-eq-verdicts,
}

length-kept-numbered :
    (i : ℕ) (vs : List (Option Candidate)) (as' : List Article)
    → length vs ≡ length as'
    → length (kept vs as') + length (numbered i vs) ≡ length as'
unfolding kept numbered
length-kept-numbered i [] [] h = refl
length-kept-numbered i [] (a ∷ as') h = omega arith
length-kept-numbered i (v ∷ vs) [] h = omega arith
length-kept-numbered i (none ∷ vs) (a ∷ as') h =
    omega (arith, length-kept-numbered (i + 1) vs as' (omega arith))
length-kept-numbered i (some c ∷ vs) (a ∷ as') h =
    omega (arith, length-kept-numbered (i + 1) vs as' (omega arith))

abbrev no_keys : ArticleKeys
no_keys = record { identifier = ""; url = ""; fingerprint = "" }

verdict-no_keys : (past : List Past) → verdict no_keys past ≡ none
unfolding verdict
verdict-no_keys past = refl

module _ ⦃u : Unicode⦄ ⦃l : UrlLibrary⦄ ⦃f : Fingerprinting⦄ where
  pub length-verdicts :
      (n : ℕ) (past : List Past) (rest : List Article) → length (verdicts n past rest) ≡ length rest
  unfolding verdicts
  length-verdicts n past [] = refl
  length-verdicts n past (a ∷ rest) =
      let v = verdict (keys_for_article a) past in
      ap suc (
        length-verdicts (kept_before v n)
          (past ++ record { keys = keys_for_article a; canonical = canonical_of v n } ∷ []) rest)

  -- The kept articles and the reports of duplicates together are as many as the articles.
  pub length-deduplicate :
      (articles : List Article)
      → length (deduplicate_articles articles).0 + length (deduplicate_articles articles).1
        ≡ length articles
  length-deduplicate articles =
      rw deduplicate-eq-verdicts
        (length-kept-numbered 0 (verdicts 0 [] articles) articles (length-verdicts 0 [] articles))

  keys_unscoped : (a : Article) → source_scope a ≡ "" → keys_for_article a ≡ no_keys
  unfolding keys_for_article
  keys_unscoped a h = rw (h, keys_for_article)

  verdicts_unscoped :
      (n i : ℕ) (past : List Past) (articles : List Article)
      → All (λ a. source_scope a ≡ "") articles
      → (kept (verdicts n past articles) articles ≡ articles)
        × (numbered i (verdicts n past articles) ≡ [])
  unfolding verdicts kept numbered
  verdicts_unscoped n i past [] h = (refl, refl)
  verdicts_unscoped n i past (a ∷ rest) (e, h) =
      let p : Past = record { keys = no_keys; canonical = n } in
      let ih = verdicts_unscoped (suc n) (i + 1) (past ++ p ∷ []) rest h in
      rw (keys_unscoped a e, verdicts, verdict-no_keys) (ap (λ r. a ∷ r) ih.0, ih.1)

  -- Articles that have neither a feed nor a usable source URL are all kept, and none is reported.
  pub deduplicate_unscoped :
      (articles : List Article)
      → All (λ a. source_scope a ≡ "") articles
      → deduplicate_articles articles ≡ (articles, [])
  deduplicate_unscoped articles h =
      let (kept_eq, numbered_eq) = verdicts_unscoped 0 0 [] articles h in
      deduplicate-eq-verdicts articles ∙ (λ j. (kept_eq j, numbered_eq j))
