-- ===== src/Storage/Repository/Checks/Written.antt =====
-- Each row that is written satisfies the constraints.
use feeds_server.Base.{◌≡◌, inl, inr, true, none, List, [], ◌∷◌}
use feeds_server.Feed.Model.{Time, FeedsId}
use feeds_server.Storage.Attempt.{done, done-injective}
use feeds_server.Storage.Repository.Table.{put-cases, put_new-cases, text_key}
use feeds_server.Storage.Repository.Rows.{Tables, identity_key}
use feeds_server.Storage.Repository.Writes.{
  UserReference, FeedWrite, SubscriptionWrite, ArticleIdentityKey, ArticleWrite, user_error,
  feed_error, subscription_error, validate_identity_key, validate_identity_keys,
  validate_article_write,
}
use feeds_server.Storage.Repository.Server.{Postgres}
use feeds_server.Storage.Repository.Operations.{
  user_after, with_user, feed_after, with_feed, subscription_after, with_subscription,
}
use feeds_server.Storage.Repository.Articles.{
  article_row, history_row, key_of, with_key, with_history, with_article, ensure_identity_keys,
  article_transaction,
}
use feeds_server.Storage.Repository.Articles.Inverted.{
  store_article-done, ensure_identity_key-done, ensure_identity_keys-cons,
  ensure_source_history-done, article_transaction-done,
}
use feeds_server.Storage.Repository.Checks.{not_blank, IsChecked}
use feeds_server.Storage.Repository.Checks.Guards.{
  or_else-none, subscription_error-checks, identity_key-checks, article_error-checks,
  user_row-checks, feed_row-checks,
}

module _ {F : Type 0} ⦃pg : Postgres F⦄ (now : Time) where
  with_key-IsChecked :
      (feed_id article_id : FeedsId) (key : ArticleIdentityKey) (t : Tables F)
      → validate_identity_key key ≡ none
      → IsChecked t
      → IsChecked (with_key now article_id (key_of feed_id key) t)
  with_key-IsChecked feed_id article_id key t valid c = record {
    users = c.users;
    feeds = c.feeds;
    subscriptions = c.subscriptions;
    articles = c.articles;
    keys = λ j r h.
        elim (put_new-cases (key_of feed_id key)
          (record { article_id = article_id; created_at = pg.timestamptz now }) t.keys j r h) [
            | inr old ↦ c.keys j r old
            | inl (hit, same) ↦ rw (← hit) (identity_key-checks feed_id key valid)
          ];
    history = c.history;
  }

  with_article-IsChecked :
      (w : ArticleWrite) (t : Tables F)
      → not_blank w.article.id ≡ true
      → IsChecked t
      → IsChecked (with_article now w t)
  with_article-IsChecked w t there c = record {
    users = c.users;
    feeds = c.feeds;
    subscriptions = c.subscriptions;
    articles = λ id r h.
        elim (put-cases w.article.id (article_row pg.timestamptz now w (t.articles w.article.id))
          t.articles id r h) [ inr old ↦ c.articles id r old | inl (hit, same) ↦ rw (← hit) there ];
    keys = c.keys;
    history = c.history;
  }

  with_history-IsChecked :
      (w : ArticleWrite) (t : Tables F)
      → not_blank w.source_history_id ≡ true
      → IsChecked t
      → IsChecked (with_history now w t)
  with_history-IsChecked w t there c = record {
    users = c.users;
    feeds = c.feeds;
    subscriptions = c.subscriptions;
    articles = c.articles;
    keys = c.keys;
    history = λ id r h.
        elim (put_new-cases w.source_history_id (history_row pg.timestamptz w) t.history id r h) [
          | inr old ↦ c.history id r old
          | inl (hit, same) ↦ rw (← hit) there
        ];
  }

  ensure_identity_keys-IsChecked :
      (feed_id article_id : FeedsId) (keys : List ArticleIdentityKey) (t t' : Tables F)
      → validate_identity_keys keys ≡ none
      → IsChecked t
      → ensure_identity_keys now feed_id article_id keys t ≡ done t'
      → IsChecked t'
  unfolding ensure_identity_keys validate_identity_keys
  ensure_identity_keys-IsChecked feed_id article_id [] t t' valid c h = rw (← done-injective h) c
  ensure_identity_keys-IsChecked feed_id article_id (key ∷ keys) t t' valid c h =
      let (first, others) = or_else-none _ _ valid in
      let (t₁, (here, later)) = ensure_identity_keys-cons now feed_id article_id key keys t t' h in
      let (same, bound) = ensure_identity_key-done now feed_id article_id key t t₁ here in
      ensure_identity_keys-IsChecked feed_id article_id keys t₁ t' others
        (rw (← same) (with_key-IsChecked feed_id article_id key t first c)) later

  pub article_transaction-IsChecked :
      (w : ArticleWrite) (t t' : Tables F)
      → validate_article_write w ≡ none
      → IsChecked t
      → article_transaction now w t ≡ done t'
      → IsChecked t'
  article_transaction-IsChecked w t t' valid c h =
      let (id, history, keys) = article_error-checks w valid in
      let (t₁, (t₂, (stored, (keyed, noted)))) = article_transaction-done now w t t' h in
      let (same₁, fed) = store_article-done now w t t₁ stored in
      let (same₃, bound) = ensure_source_history-done now w t₂ t' noted in
      let c₁ : IsChecked t₁ = rw (← same₁) (with_article-IsChecked w t id c) in
      let c₂ =
        ensure_identity_keys-IsChecked w.article.feed_id w.article.id w.identity_keys t₁ t₂ keys c₁
          keyed in
      rw (← same₃) (with_history-IsChecked w t₂ history c₂)

  pub with_user-IsChecked :
      (user : UserReference) (t : Tables F)
      → user_error user ≡ none
      → IsChecked t
      → IsChecked (with_user now user t)
  with_user-IsChecked user t valid c = record {
    users = λ id r h. elim (put-cases user.id (user_after now user t) t.users id r h) [
      | inr old ↦ c.users id r old
      | inl (hit, same) ↦
          rw (← hit, ← same)
            (user_row-checks (pg.timestamptz now) user (t.users user.id) valid (c.users user.id))
    ];
    feeds = c.feeds;
    subscriptions = c.subscriptions;
    articles = c.articles;
    keys = c.keys;
    history = c.history;
  }

  pub with_feed-IsChecked :
      (w : FeedWrite) (t : Tables F)
      → feed_error w ≡ none
      → IsChecked t
      → IsChecked (with_feed now w t)
  with_feed-IsChecked w t valid c = record {
    users = c.users;
    feeds = λ id r h. elim (put-cases w.feed.id (feed_after now w t) t.feeds id r h) [
      | inr old ↦ c.feeds id r old
      | inl (hit, same) ↦
          rw (← hit, ← same)
            (feed_row-checks (pg.timestamptz w.seen_at) (pg.timestamptz now) w (t.feeds w.feed.id)
              valid)
    ];
    subscriptions = c.subscriptions;
    articles = c.articles;
    keys = c.keys;
    history = c.history;
  }

  pub with_subscription-IsChecked :
      (w : SubscriptionWrite) (t : Tables F)
      → subscription_error w ≡ none
      → IsChecked t
      → IsChecked (with_subscription now w t)
  with_subscription-IsChecked w t valid c = record {
    users = c.users;
    feeds = c.feeds;
    subscriptions = λ id r h.
        elim (put-cases w.subscription.id (subscription_after now w t) t.subscriptions id r h) [
          | inr old ↦ c.subscriptions id r old
          | inl (hit, same) ↦ rw (← hit) (subscription_error-checks w valid)
        ];
    articles = c.articles;
    keys = c.keys;
    history = c.history;
  }
