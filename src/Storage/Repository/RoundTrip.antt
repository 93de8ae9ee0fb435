-- ===== src/Storage/Repository/RoundTrip.antt =====
-- What a write of the repository leaves to be read.
use feeds_server.Base.{
  ◌≡◌, refl, sym, ap, ◌∙◌, arith, false, inl, inr, Option, none, some, some-injective, List, [],
  ◌∷◌,
}
use feeds_server.Base.Text.{is_blank}
use feeds_server.Feed.Model.{Time, FeedsId, Article}
use feeds_server.Storage.Attempt.{done, done-injective}
use feeds_server.Storage.Store.{Store}
use feeds_server.Storage.Repository.Table.{column, get-put, text_key}
use feeds_server.Storage.Repository.Rows.{ArticleRow, Tables, identity_key}
use feeds_server.Storage.Repository.Writes.{
  ArticleIdentityKey, ArticleWrite, StoredArticle, is_filled, validate_article_write,
}
use feeds_server.Storage.Repository.Server.{Postgres, get_article, least, greatest, stored_time}
use feeds_server.Storage.Repository.Articles.{
  article_row, ensure_identity_keys, article_transaction, upsert_article, article_by_id,
  scan_article,
}
use feeds_server.Storage.Repository.Articles.Inverted.{
  store_article-done, ensure_identity_key-done, ensure_identity_keys-cons,
  ensure_source_history-done, article_transaction-done, upsert_article-cases,
}

is_filled-false {ℓ} : {A : Type ℓ} (xs : List A) → is_filled xs ≡ false → xs ≡ []
is_filled-false [] h = refl
is_filled-false (x ∷ xs) h = absurd (cc h)

-- What a valid article lacks.
abbrev IsPlain : Article → Type 0
IsPlain a = (a.categories ≡ []) × ((a.tags ≡ []) × ((a.media ≡ []) × (a.images ≡ [])))

validate_article_write-none :
    (w : ArticleWrite)
    → validate_article_write w ≡ none
    → (is_blank w.article.id ≡ false) × IsPlain w.article
unfolding validate_article_write
validate_article_write-none w h =
    let a = w.article in
    (
      ground arith,
      (
        is_filled-false a.categories (ground arith),
        (
          is_filled-false a.tags (ground arith),
          (is_filled-false a.media (ground arith), is_filled-false a.images (ground arith)),
        ),
      ),
    )

-- What `ArticleByID` should give for a write over what stood there.
abbrev pub reread : (Time → Time) → ArticleWrite → Option ArticleRow → StoredArticle
reread f w old = record {
  article = record w.article {
    published_at = stored_time f w.article.published_at;
    updated_at = stored_time f w.article.updated_at;
  };
  normalized_url = w.normalized_url;
  content_fingerprint = w.content_fingerprint;
  first_retrieved_at = elim old [
    | none ↦ f w.retrieved_at
    | some r ↦ least r.first_retrieved_at (f w.retrieved_at)
  ];
  last_retrieved_at = elim old [
    | none ↦ f w.retrieved_at
    | some r ↦ greatest r.last_retrieved_at (f w.retrieved_at)
  ];
  retention_eligible_at = stored_time f w.retention_eligible_at;
}

-- The scan of the written row, where the row is of the article's feed.
scan_article-article_row :
    (f : Time → Time) (now : Time) (w : ArticleWrite) (old : Option ArticleRow)
    → (article_row f now w old).feed_id ≡ w.article.feed_id
    → IsPlain w.article
    → scan_article w.article.id (article_row f now w old) ≡ reread f w old
scan_article-article_row f now w none fed (c, (g, (m, i))) = rw (c, g, m, i) refl
scan_article-article_row f now w (some old) fed (c, (g, (m, i))) = rw (c, g, m, i, fed) refl

module _ {F : Type 0} ⦃pg : Postgres F⦄ (now : Time) where
  ensure_identity_keys-articles :
      (feed_id article_id : FeedsId) (keys : List ArticleIdentityKey) (t t' : Tables F)
      → ensure_identity_keys now feed_id article_id keys t ≡ done t'
      → t'.articles ≡ t.articles
  unfolding ensure_identity_keys
  ensure_identity_keys-articles feed_id article_id [] t t' h =
      ap (λ x. x.articles) (sym (done-injective h))
  ensure_identity_keys-articles feed_id article_id (key ∷ keys) t t' h =
      let (t₁, (here, later)) = ensure_identity_keys-cons now feed_id article_id key keys t t' h in
      let (same, bound) = ensure_identity_key-done now feed_id article_id key t t₁ here in
      ensure_identity_keys-articles feed_id article_id keys t₁ t' later
      ∙ ap (λ x. x.articles) (sym same)

  -- The article's row behind a transaction, which is one of the article's feed.
  article_transaction-row :
      (w : ArticleWrite) (t t' : Tables F)
      → article_transaction now w t ≡ done t'
      → (t'.articles w.article.id
          ≡ some (article_row pg.timestamptz now w (t.articles w.article.id)))
        × ((article_row pg.timestamptz now w (t.articles w.article.id)).feed_id ≡ w.article.feed_id)
  article_transaction-row w t t' h =
      let (t₁, (t₂, (stored, (keyed, noted)))) = article_transaction-done now w t t' h in
      let (same₁, fed) = store_article-done now w t t₁ stored in
      let (same₃, bound) = ensure_source_history-done now w t₂ t' noted in
      let id = w.article.id in
      let row = article_row pg.timestamptz now w (t.articles id) in
      let kept = ensure_identity_keys-articles w.article.feed_id id w.identity_keys t₁ t₂ keyed in
      let written : t₁.articles id ≡ some row =
        ap (λ x. x.articles id) (sym same₁) ∙ get-put id row t.articles in
      (
        ap (λ x. x.articles id) (sym same₃) ∙ (ap (λ g. g id) kept ∙ written),
        some-injective (rw (column, written) at fed),
      )

module _ {F P : Type 0} ⦃pg : Postgres F⦄ (s : Option (Store P)) (now : Time) where
  -- Where `UpsertArticle` succeeds and the server answers the query, `ArticleByID` gives the article
  -- as it was written, with its times as the server stores them; the first retrieval is the least
  -- and the last the greatest of the one written and the ones that stood there before.
  pub article_by_id-upsert_article :
      (w : ArticleWrite) (t t' : Tables F)
      → upsert_article now s w t ≡ (none, t')
      → pg.refuses (get_article w.article.id) t' ≡ none
      → article_by_id s w.article.id t' ≡ done (reread pg.timestamptz w (t.articles w.article.id))
  unfolding article_by_id
  article_by_id-upsert_article w t t' h answers = elim (upsert_article-cases now s w t) [
    | inl (e, refused) ↦ absurd (cc (rw refused at h))
    | inr (t₁, (ran, ((opened, valid), right))) ↦
        let same : t₁ ≡ t' = ap (λ r. r.1) (sym ran ∙ h) in
        let right' : article_transaction now w t ≡ done t' = rw (← same) right in
        let (there, fed) = article_transaction-row now w t t' right' in
        let (id, plain) = validate_article_write-none w valid in
        rw (article_by_id, opened, id, answers, there)
          (ap done
            (scan_article-article_row pg.timestamptz now w (t.articles w.article.id) fed plain))
  ]
