-- ===== src/Storage/Repository/Articles/Inverted.antt =====
-- What the parts of a transaction that succeeds have done.
use feeds_server.Base.{
  ◌≡◌, ◌⊎◌, refl, ◌∙◌, ap, String, ◌==◌, eq_iff, Bool-cases, inl, inr, Option, none, some,
  Option-cases, List, ◌∷◌,
}
use feeds_server.Feed.Model.{Time, FeedsId}
use feeds_server.Storage.Attempt.{done, Attempt-cases, done-injective}
use feeds_server.Storage.Store.{Store, ensure_store}
use feeds_server.Storage.Repository.Table.{column, column-put, text_key}
use feeds_server.Storage.Repository.Rows.{IdentityKey, Tables, identity_key}
use feeds_server.Storage.Repository.Writes.{
  ArticleIdentityKey, ArticleWrite, or_else, validate_article_write,
}
use feeds_server.Storage.Repository.Server.{
  Postgres, begin, put_article, put_key, get_key, put_history, get_history, commit,
}
use feeds_server.Storage.Repository.Articles.{
  article_row, key_of, bound_key, bound_history, with_key, with_history, with_article,
  ensure_identity_key, ensure_identity_keys, ensure_source_history, store_article, committed,
  article_transaction, upsert_article,
}

-- The columns that bind a row to others.
abbrev pub feed_column : {F : Type 0} → Tables F → FeedsId → Option FeedsId
feed_column t = column (λ r. r.feed_id) t.articles

abbrev pub key_column : {F : Type 0} → Tables F → IdentityKey → Option FeedsId
key_column t = column (λ r. r.article_id) t.keys

abbrev pub history_column : {F : Type 0} → Tables F → FeedsId → Option (FeedsId × FeedsId)
history_column t = column (λ r. (r.article_id, r.feed_id)) t.history

module _ {F : Type 0} where
  bound_key-done :
      (article_id : FeedsId) (t t' : Tables F) (k : IdentityKey)
      → bound_key article_id t (t.keys k) ≡ done t'
      → (t ≡ t') × (key_column t k ≡ some article_id)
  bound_key-done article_id t t' k h = elim (Option-cases (t.keys k)) [
    | inl absent ↦ absurd (cc (rw (absent, bound_key) at h))
    | inr (r, there) ↦ elim (Bool-cases (r.article_id == article_id)) [
      | inr other ↦ absurd (cc (rw (there, bound_key, other) at h))
      | inl same ↦ (
        done-injective (rw (there, bound_key, same) at h),
        rw (column, there) (ap some ((eq_iff r.article_id article_id).0 same)),
      )
    ]
  ]

  bound_history-done :
      (w : ArticleWrite) (t t' : Tables F) (id : FeedsId)
      → bound_history w t (t.history id) ≡ done t'
      → (t ≡ t') × (history_column t id ≡ some (w.article.id, w.article.feed_id))
  bound_history-done w t t' id h = elim (Option-cases (t.history id)) [
    | inl absent ↦ absurd (cc (rw (absent, bound_history) at h))
    | inr (r, there) ↦ elim (Bool-cases (r.article_id == w.article.id)) [
      | inr other ↦ absurd (cc (rw (there, bound_history, other) at h))
      | inl article ↦ elim (Bool-cases (r.feed_id == w.article.feed_id)) [
        | inr other ↦ absurd (cc (rw (there, bound_history, article, other) at h))
        | inl feed ↦ (
          done-injective (rw (there, bound_history, article, feed) at h),
          rw
              (
                column,
                there,
                (eq_iff r.article_id w.article.id).0 article,
                (eq_iff r.feed_id w.article.feed_id).0 feed,
              )
              refl,
        )
      ]
    ]
  ]

module _ {F : Type 0} ⦃pg : Postgres F⦄ (now : Time) where
  pub ensure_identity_key-done :
      (feed_id article_id : FeedsId) (key : ArticleIdentityKey) (t t' : Tables F)
      → ensure_identity_key now feed_id article_id key t ≡ done t'
      → (with_key now article_id (key_of feed_id key) t ≡ t')
        × (key_column t' (key_of feed_id key) ≡ some article_id)
  unfolding ensure_identity_key
  ensure_identity_key-done feed_id article_id key t t' h =
      let k = key_of feed_id key in
      let t₁ = with_key now article_id k t in
      elim (Option-cases
        (or_else (pg.refuses (put_key k article_id) t) (pg.refuses (get_key k) t₁))) [
          | inr (e, refused) ↦ absurd (cc (rw (ensure_identity_key, refused) at h))
          | inl sent ↦
              let (same, bound) =
                bound_key-done article_id t₁ t' k (rw (ensure_identity_key, sent) at h) in
              (same, rw (← same) bound)
        ]

  pub ensure_source_history-done :
      (w : ArticleWrite) (t t' : Tables F)
      → ensure_source_history now w t ≡ done t'
      → (with_history now w t ≡ t')
        × (history_column t' w.source_history_id ≡ some (w.article.id, w.article.feed_id))
  unfolding ensure_source_history
  ensure_source_history-done w t t' h =
      let id = w.source_history_id in
      let t₁ = with_history now w t in
      elim (Option-cases
        (or_else (pg.refuses (put_history w) t) (pg.refuses (get_history id) t₁))) [
          | inr (e, refused) ↦ absurd (cc (rw (ensure_source_history, refused) at h))
          | inl sent ↦
              let (same, bound) =
                bound_history-done w t₁ t' id (rw (ensure_source_history, sent) at h) in
              (same, rw (← same) bound)
        ]

  pub store_article-done :
      (w : ArticleWrite) (t t' : Tables F)
      → store_article now w t ≡ done t'
      → (with_article now w t ≡ t') × (feed_column t' w.article.id ≡ some w.article.feed_id)
  unfolding store_article
  store_article-done w t t' h =
      let row = article_row pg.timestamptz now w (t.articles w.article.id) in
      elim (Option-cases (or_else (pg.refuses begin t) (pg.refuses (put_article w) t))) [
        | inr (e, refused) ↦ absurd (cc (rw (store_article, refused) at h))
        | inl sent ↦ elim (Bool-cases (row.feed_id == w.article.feed_id)) [
          | inr other ↦ absurd (cc (rw (store_article, sent, other) at h))
          | inl feed ↦
              let same = done-injective (rw (store_article, sent, feed) at h) in
              (
                same,
                rw (← same) (
                    column-put (λ r. r.feed_id) w.article.id row t.articles
                    ∙ ap some ((eq_iff row.feed_id w.article.feed_id).0 feed)),
              )
        ]
      ]

  -- A transaction that succeeds has gone through its parts.
  pub article_transaction-done :
      (w : ArticleWrite) (t t' : Tables F)
      → article_transaction now w t ≡ done t'
      → (t₁ : Tables F) × ((t₂ : Tables F) × ((store_article now w t ≡ done t₁)
            × ((ensure_identity_keys now w.article.feed_id w.article.id w.identity_keys t₁
                  ≡ done t₂)
                × (ensure_source_history now w t₂ ≡ done t'))))
  unfolding article_transaction
  article_transaction-done w t t' h = elim (Attempt-cases (store_article now w t)) [
    | inr (e, wrong) ↦ absurd (cc (rw (article_transaction, wrong) at h))
    | inl (t₁, stored) ↦
        elim (Attempt-cases
          (ensure_identity_keys now w.article.feed_id w.article.id w.identity_keys t₁)) [
            | inr (e, wrong) ↦ absurd (cc (rw (article_transaction, stored, wrong) at h))
            | inl (t₂, keyed) ↦ elim (Attempt-cases (ensure_source_history now w t₂)) [
              | inr (e, wrong) ↦ absurd (cc (rw (article_transaction, stored, keyed, wrong) at h))
              | inl (t₃, noted) ↦ elim (Option-cases (pg.refuses commit t₃)) [
                | inr (e, wrong) ↦
                    absurd
                      (cc (rw (article_transaction, stored, keyed, noted, committed, wrong) at h))
                | inl sent ↦
                    let same : t₃ ≡ t' =
                      done-injective
                        (rw (article_transaction, stored, keyed, noted, committed, sent) at h) in
                    (t₁, (t₂, (stored, (keyed, noted ∙ ap done same))))
              ]
            ]
          ]
  ]

  pub ensure_identity_keys-cons :
      (feed_id article_id : FeedsId) (key : ArticleIdentityKey) (keys : List ArticleIdentityKey)
      (t t' : Tables F)
      → ensure_identity_keys now feed_id article_id (key ∷ keys) t ≡ done t'
      → (t₁ : Tables F) × ((ensure_identity_key now feed_id article_id key t ≡ done t₁)
          × (ensure_identity_keys now feed_id article_id keys t₁ ≡ done t'))
  unfolding ensure_identity_keys
  ensure_identity_keys-cons feed_id article_id key keys t t' h =
      elim (Attempt-cases (ensure_identity_key now feed_id article_id key t)) [
        | inr (e, wrong) ↦ absurd (cc (rw (ensure_identity_keys, wrong) at h))
        | inl (t₁, right) ↦ (t₁, (right, rw (ensure_identity_keys, right) at h))
      ]

  -- The write of an article is refused and changes nothing, or runs its transaction.
  pub upsert_article-cases :
      {P : Type 0} (s : Option (Store P)) (w : ArticleWrite) (t : Tables F)
      → ((e : String) × (upsert_article now s w t ≡ (some e, t)))
        ⊎ ((t' : Tables F) × ((upsert_article now s w t ≡ (none, t'))
              × (((ensure_store s ≡ none) × (validate_article_write w ≡ none))
                  × (article_transaction now w t ≡ done t'))))
  unfolding upsert_article
  upsert_article-cases s w t = elim (Option-cases (ensure_store s)) [
    | inr (e, wrong) ↦ inl (e, rw (upsert_article, or_else, wrong) refl)
    | inl opened ↦ elim (Option-cases (validate_article_write w)) [
      | inr (e, wrong) ↦ inl (e, rw (upsert_article, or_else, opened, wrong) refl)
      | inl valid ↦ elim (Attempt-cases (article_transaction now w t)) [
        | inr (e, wrong) ↦ inl (e, rw (upsert_article, or_else, opened, valid, wrong) refl)
        | inl (t', right) ↦ inr (
          t',
          (rw (upsert_article, or_else, opened, valid, right) refl, ((opened, valid), right)),
        )
      ]
    ]
  ]
