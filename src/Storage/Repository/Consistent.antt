-- ===== src/Storage/Repository/Consistent.antt =====
-- The invariant of the tables: what refers to an article refers to one of its feed, and no last
-- time is before a first time.
use feeds_server.Base.{◌≤◌, ◌≡◌, refl, arith, inl, inr, Option, none, some, List, [], ◌∷◌}
use feeds_server.Feed.Model.{Time, FeedsId, Float64}
use feeds_server.Storage.Attempt.{done, done-injective}
use feeds_server.Storage.Store.{Store}
use feeds_server.Storage.Repository.Table.{Table, put-cases, put_new-cases, text_key}
use feeds_server.Storage.Repository.Rows.{
  UserRow, SubscriptionRow, StateKey, StateRow, FeedRow, ArticleRow, KeyRow, HistoryRow,
  IdentityKey, Tables, identity_key, no_rows,
}
use feeds_server.Storage.Repository.Writes.{
  UserReference, FeedWrite, SubscriptionWrite, ArticleIdentityKey, ArticleWrite, StoredArticleState,
}
use feeds_server.Storage.Repository.Server.{Postgres}
use feeds_server.Storage.Repository.Operations.{
  user_guard, feed_guard, subscription_guard, state_guard, user_result, subscription_result,
  with_user, feed_after, with_feed, with_subscription, with_state, feed_row, upsert_user_reference,
  upsert_feed, upsert_subscription, upsert_article_state,
}
use feeds_server.Storage.Repository.Articles.{
  article_row, history_row, key_of, with_key, with_history, with_article, ensure_identity_keys,
  article_transaction, upsert_article,
}
use feeds_server.Storage.Repository.Articles.Inverted.{
  feed_column, store_article-done, ensure_identity_key-done, ensure_identity_keys-cons,
  ensure_source_history-done, article_transaction-done, upsert_article-cases,
}
use feeds_server.Storage.Repository.Bindings.{
  guarded-keeps, Extends, ensure_identity_keys-Extends, with_article-Extends, with_key-Extends,
}

pub record IsConsistent {F : Type 0} (t : Tables F) : Type 0 where
  pub keys :
      (k : IdentityKey) (r : KeyRow)
      → t.keys k ≡ some r
      → feed_column t r.article_id ≡ some k.feed_id
  pub history :
      (id : FeedsId) (r : HistoryRow)
      → t.history id ≡ some r
      → feed_column t r.article_id ≡ some r.feed_id
  pub articles :
      (id : FeedsId) (r : ArticleRow)
      → t.articles id ≡ some r
      → r.first_retrieved_at ≤ r.last_retrieved_at
  pub feeds : (id : FeedsId) (r : FeedRow) → t.feeds id ≡ some r → r.first_seen_at ≤ r.last_seen_at

pub no_rows-IsConsistent : {F : Type 0} → IsConsistent (no_rows {F = F})
no_rows-IsConsistent = record {
  keys = λ k r h. absurd (cc h);
  history = λ k r h. absurd (cc h);
  articles = λ k r h. absurd (cc h);
  feeds = λ k r h. absurd (cc h);
}

-- Users, subscriptions and states are not in it.
unrelated-IsConsistent :
    {F : Type 0} (t : Tables F) (users : Table FeedsId UserRow)
    (subscriptions : Table FeedsId SubscriptionRow) (states : Table StateKey (StateRow F))
    → IsConsistent t
    → IsConsistent (record t { users = users; subscriptions = subscriptions; states = states })
unrelated-IsConsistent t users subscriptions states c = record {
  keys = c.keys;
  history = c.history;
  articles = c.articles;
  feeds = c.feeds;
}

feed_row-order :
    (seen now : Time) (w : FeedWrite) (o : Option FeedRow)
    → ((old : FeedRow) → o ≡ some old → old.first_seen_at ≤ old.last_seen_at)
    → (feed_row seen now w o).first_seen_at ≤ (feed_row seen now w o).last_seen_at
feed_row-order seen now w none h = omega arith
feed_row-order seen now w (some old) h = ground (arith, h old refl)

article_row-order :
    (f : Time → Time) (now : Time) (w : ArticleWrite) (o : Option ArticleRow)
    → ((old : ArticleRow) → o ≡ some old → old.first_retrieved_at ≤ old.last_retrieved_at)
    → (article_row f now w o).first_retrieved_at ≤ (article_row f now w o).last_retrieved_at
article_row-order f now w none h = omega arith
article_row-order f now w (some old) h = ground (arith, h old refl)

module _ {F : Type 0} ⦃pg : Postgres F⦄ (now : Time) where
  with_article-IsConsistent :
      (w : ArticleWrite) (t : Tables F) → IsConsistent t → IsConsistent (with_article now w t)
  with_article-IsConsistent w t c =
      let row = article_row pg.timestamptz now w (t.articles w.article.id) in
      let kept = (with_article-Extends now w t).articles in
      record {
        keys = λ k r h. kept r.article_id k.feed_id (c.keys k r h);
        history = λ id r h. kept r.article_id r.feed_id (c.history id r h);
        articles = λ id r h. elim (put-cases w.article.id row t.articles id r h) [
          | inr old ↦ c.articles id r old
          | inl (hit, same) ↦ rw (← same) (
              article_row-order pg.timestamptz now w (t.articles w.article.id)
                (c.articles w.article.id))
        ];
        feeds = c.feeds;
      }

  with_key-IsConsistent :
      (article_id : FeedsId) (k : IdentityKey) (t : Tables F)
      → feed_column t article_id ≡ some k.feed_id
      → IsConsistent t
      → IsConsistent (with_key now article_id k t)
  with_key-IsConsistent article_id k t fed c = record {
    keys = λ j r h.
        elim (put_new-cases k (record { article_id = article_id; created_at = pg.timestamptz now })
          t.keys j r h) [ inr old ↦ c.keys j r old | inl (hit, same) ↦ rw (← same, ← hit) fed ];
    history = c.history;
    articles = c.articles;
    feeds = c.feeds;
  }

  with_history-IsConsistent :
      (w : ArticleWrite) (t : Tables F)
      → feed_column t w.article.id ≡ some w.article.feed_id
      → IsConsistent t
      → IsConsistent (with_history now w t)
  with_history-IsConsistent w t fed c = record {
    keys = c.keys;
    history = λ id r h.
        elim (put_new-cases w.source_history_id (history_row pg.timestamptz w) t.history id r h) [
          | inr old ↦ c.history id r old
          | inl (hit, same) ↦ rw (← same) fed
        ];
    articles = c.articles;
    feeds = c.feeds;
  }

  ensure_identity_keys-IsConsistent :
      (feed_id article_id : FeedsId) (keys : List ArticleIdentityKey) (t t' : Tables F)
      → feed_column t article_id ≡ some feed_id
      → IsConsistent t
      → ensure_identity_keys now feed_id article_id keys t ≡ done t'
      → IsConsistent t'
  unfolding ensure_identity_keys
  ensure_identity_keys-IsConsistent feed_id article_id [] t t' fed c h = rw (← done-injective h) c
  ensure_identity_keys-IsConsistent feed_id article_id (key ∷ keys) t t' fed c h =
      let (t₁, (here, later)) = ensure_identity_keys-cons now feed_id article_id key keys t t' h in
      let (same, bound) = ensure_identity_key-done now feed_id article_id key t t₁ here in
      let k = key_of feed_id key in
      let kept : Extends t t₁ = rw (← same) (with_key-Extends now article_id k t) in
      ensure_identity_keys-IsConsistent feed_id article_id keys t₁ t'
        (kept.articles article_id feed_id fed)
        (rw (← same) (with_key-IsConsistent article_id k t fed c)) later

  pub article_transaction-IsConsistent :
      (w : ArticleWrite) (t t' : Tables F)
      → IsConsistent t
      → article_transaction now w t ≡ done t'
      → IsConsistent t'
  article_transaction-IsConsistent w t t' c h =
      let (t₁, (t₂, (stored, (keyed, noted)))) = article_transaction-done now w t t' h in
      let (same₁, fed) = store_article-done now w t t₁ stored in
      let (same₃, bound) = ensure_source_history-done now w t₂ t' noted in
      let feed_id = w.article.feed_id in
      let id = w.article.id in
      let kept = ensure_identity_keys-Extends now feed_id id w.identity_keys t₁ t₂ keyed in
      let c₁ : IsConsistent t₁ = rw (← same₁) (with_article-IsConsistent w t c) in
      let c₂ = ensure_identity_keys-IsConsistent feed_id id w.identity_keys t₁ t₂ fed c₁ keyed in
      rw (← same₃) (with_history-IsConsistent w t₂ (kept.articles id feed_id fed) c₂)

module _ {F P : Type 0} ⦃pg : Postgres F⦄ (s : Option (Store P)) (now : Time) where
  pub upsert_article-IsConsistent :
      (w : ArticleWrite) (t : Tables F) → IsConsistent t → IsConsistent (upsert_article now s w t).1
  upsert_article-IsConsistent w t c = elim (upsert_article-cases now s w t) [
    | inl (e, refused) ↦ rw refused c
    | inr (t', (ran, (valid, right))) ↦ rw ran (article_transaction-IsConsistent now w t t' c right)
  ]

  pub upsert_feed-IsConsistent :
      (w : FeedWrite) (t : Tables F) → IsConsistent t → IsConsistent (upsert_feed s now w t).1
  unfolding upsert_feed
  upsert_feed-IsConsistent w t c =
      let seen = pg.timestamptz w.seen_at in
      let old = t.feeds w.feed.id in
      guarded-keeps IsConsistent (feed_guard s w t) none (with_feed now w t) t c (record {
        keys = c.keys;
        history = c.history;
        articles = c.articles;
        feeds = λ id r h. elim (put-cases w.feed.id (feed_after now w t) t.feeds id r h) [
          | inr there ↦ c.feeds id r there
          | inl (hit, same) ↦
              rw (← same) (feed_row-order seen (pg.timestamptz now) w old (c.feeds w.feed.id))
        ];
      })

  pub upsert_user_reference-IsConsistent :
      (user : UserReference) (t : Tables F)
      → IsConsistent t
      → IsConsistent (upsert_user_reference s now user t).1
  unfolding upsert_user_reference
  upsert_user_reference-IsConsistent user t c =
      guarded-keeps IsConsistent (user_guard s user t) (user_result now user t)
        (with_user now user t) t c
        (unrelated-IsConsistent t (with_user now user t).users t.subscriptions t.states c)

  pub upsert_subscription-IsConsistent :
      (w : SubscriptionWrite) (t : Tables F)
      → IsConsistent t
      → IsConsistent (upsert_subscription s now w t).1
  unfolding upsert_subscription
  upsert_subscription-IsConsistent w t c =
      guarded-keeps IsConsistent (subscription_guard s w t) (subscription_result now w t)
        (with_subscription now w t) t c
        (unrelated-IsConsistent t t.users (with_subscription now w t).subscriptions t.states c)

  pub upsert_article_state-IsConsistent :
      ⦃f : Float64 F⦄ (w : StoredArticleState F) (t : Tables F)
      → IsConsistent t
      → IsConsistent (upsert_article_state s w t).1
  unfolding upsert_article_state
  upsert_article_state-IsConsistent w t c =
      guarded-keeps IsConsistent (state_guard s w t) none (with_state w t) t c
        (unrelated-IsConsistent t t.users t.subscriptions (with_state w t).states c)
