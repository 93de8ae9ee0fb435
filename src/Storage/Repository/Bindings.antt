-- ===== src/Storage/Repository/Bindings.antt =====
-- What an identifier is bound to: the subject of a user, the user and the feed of a subscription,
-- the feed of an article, the article of an identity key, the article and the feed of a history
-- entry.
use feeds_server.Base.{none, some, ◌≡◌, refl, String, inl, inr, Option, List, [], ◌∷◌}
use feeds_server.Feed.Model.{Time, FeedsId, Float64}
use feeds_server.Storage.Attempt.{done, done-injective}
use feeds_server.Storage.Store.{Store}
use feeds_server.Storage.Repository.Table.{Table, column, Keeps, put-Keeps, put_new-Keeps, text_key}
use feeds_server.Storage.Repository.Rows.{
  IdentityKey, Tables, FeedRow, StateKey, StateRow, identity_key,
}
use feeds_server.Storage.Repository.Writes.{
  UserReference, FeedWrite, SubscriptionWrite, ArticleIdentityKey, ArticleWrite, StoredArticleState,
}
use feeds_server.Storage.Repository.Server.{Postgres}
use feeds_server.Storage.Repository.Operations.{
  user_guard, feed_guard, subscription_guard, state_guard, user_result, subscription_result,
  user_row, subscription_row, guarded, user_after, with_user, with_feed, subscription_after,
  with_subscription, with_state, upsert_user_reference, upsert_feed, upsert_subscription,
  upsert_article_state,
}
use feeds_server.Storage.Repository.Articles.{
  article_row, history_row, key_of, with_key, with_history, with_article, ensure_identity_keys,
  article_transaction, upsert_article,
}
use feeds_server.Storage.Repository.Articles.Inverted.{
  feed_column, key_column, history_column, store_article-done, ensure_identity_key-done,
  ensure_identity_keys-cons, ensure_source_history-done, article_transaction-done,
  upsert_article-cases,
}

abbrev pub subject_column : {F : Type 0} → Tables F → Table FeedsId String
subject_column t = column (λ r. r.identity_subject) t.users

abbrev pub pair_column : {F : Type 0} → Tables F → Table FeedsId (FeedsId × FeedsId)
pair_column t = column (λ r. (r.user_id, r.feed_id)) t.subscriptions

-- Every binding of the first tables is one of the second.
pub record Extends {F : Type 0} (t t' : Tables F) : Type 0 where
  pub users : Keeps (subject_column t) (subject_column t')
  pub subscriptions : Keeps (pair_column t) (pair_column t')
  pub articles : Keeps (feed_column t) (feed_column t')
  pub keys : Keeps (key_column t) (key_column t')
  pub history : Keeps (history_column t) (history_column t')

module _ {F : Type 0} where
  pub Extends-refl : (t : Tables F) → Extends t t
  Extends-refl t = record {
    users = λ k v h. h;
    subscriptions = λ k v h. h;
    articles = λ k v h. h;
    keys = λ k v h. h;
    history = λ k v h. h;
  }

  -- Feeds and states bind nothing.
  unbound-Extends :
      (t : Tables F) (feeds : Table FeedsId FeedRow) (states : Table StateKey (StateRow F))
      → Extends t (record t { feeds = feeds; states = states })
  unbound-Extends t feeds states = record {
    users = λ k v h. h;
    subscriptions = λ k v h. h;
    articles = λ k v h. h;
    keys = λ k v h. h;
    history = λ k v h. h;
  }

  -- What holds of the tables on either way holds of them behind a guarded statement.
  pub guarded-keeps :
      (Q : Tables F → Type 0) (o result : Option String) (t' t : Tables F)
      → Q t
      → Q t'
      → Q (guarded o result t' t).1
  guarded-keeps Q (some e) result t' t h k = h
  guarded-keeps Q none result t' t h k = k

  pub Extends-trans : (a b c : Tables F) → Extends a b → Extends b c → Extends a c
  Extends-trans a b c f g = record {
    users = λ k v h. g.users k v (f.users k v h);
    subscriptions = λ k v h. g.subscriptions k v (f.subscriptions k v h);
    articles = λ k v h. g.articles k v (f.articles k v h);
    keys = λ k v h. g.keys k v (f.keys k v h);
    history = λ k v h. g.history k v (f.history k v h);
  }

module _ {F : Type 0} ⦃pg : Postgres F⦄ (now : Time) where
  pub with_article-Extends : (w : ArticleWrite) (t : Tables F) → Extends t (with_article now w t)
  with_article-Extends w t = record {
    users = λ k v h. h;
    subscriptions = λ k v h. h;
    articles =
        put-Keeps (λ r. r.feed_id) w.article.id
          (article_row pg.timestamptz now w (t.articles w.article.id)) t.articles
          (λ old there. rw (there, article_row) refl);
    keys = λ k v h. h;
    history = λ k v h. h;
  }

  pub with_key-Extends :
      (article_id : FeedsId) (k : IdentityKey) (t : Tables F)
      → Extends t (with_key now article_id k t)
  with_key-Extends article_id k t = record {
    users = λ k v h. h;
    subscriptions = λ k v h. h;
    articles = λ k v h. h;
    keys =
        put_new-Keeps (λ r. r.article_id) k
          (record { article_id = article_id; created_at = pg.timestamptz now }) t.keys;
    history = λ k v h. h;
  }

  pub with_history-Extends : (w : ArticleWrite) (t : Tables F) → Extends t (with_history now w t)
  with_history-Extends w t = record {
    users = λ k v h. h;
    subscriptions = λ k v h. h;
    articles = λ k v h. h;
    keys = λ k v h. h;
    history =
        put_new-Keeps (λ r. (r.article_id, r.feed_id)) w.source_history_id
          (history_row pg.timestamptz w) t.history;
  }

  pub ensure_identity_keys-Extends :
      (feed_id article_id : FeedsId) (keys : List ArticleIdentityKey) (t t' : Tables F)
      → ensure_identity_keys now feed_id article_id keys t ≡ done t'
      → Extends t t'
  unfolding ensure_identity_keys
  ensure_identity_keys-Extends feed_id article_id [] t t' h =
      rw (← done-injective h) (Extends-refl t)
  ensure_identity_keys-Extends feed_id article_id (key ∷ keys) t t' h =
      let (t₁, (here, later)) = ensure_identity_keys-cons now feed_id article_id key keys t t' h in
      let (same, bound) = ensure_identity_key-done now feed_id article_id key t t₁ here in
      Extends-trans t t₁ t' (rw (← same) (with_key-Extends article_id (key_of feed_id key) t))
        (ensure_identity_keys-Extends feed_id article_id keys t₁ t' later)

  article_transaction-Extends :
      (w : ArticleWrite) (t t' : Tables F) → article_transaction now w t ≡ done t' → Extends t t'
  article_transaction-Extends w t t' h =
      let (t₁, (t₂, (stored, (keyed, noted)))) = article_transaction-done now w t t' h in
      let (same₁, fed) = store_article-done now w t t₁ stored in
      let (same₃, bound) = ensure_source_history-done now w t₂ t' noted in
      Extends-trans t t₁ t' (rw (← same₁) (with_article-Extends w t)) (
        Extends-trans t₁ t₂ t'
          (ensure_identity_keys-Extends w.article.feed_id w.article.id w.identity_keys t₁ t₂ keyed)
          (rw (← same₃) (with_history-Extends w t₂)))

module _ {F P : Type 0} ⦃pg : Postgres F⦄ (s : Option (Store P)) (now : Time) where
  pub upsert_article-Extends :
      (w : ArticleWrite) (t : Tables F) → Extends t (upsert_article now s w t).1
  upsert_article-Extends w t = elim (upsert_article-cases now s w t) [
    | inl (e, refused) ↦ rw refused (Extends-refl t)
    | inr (t', (ran, (valid, right))) ↦ rw ran (article_transaction-Extends now w t t' right)
  ]

  pub upsert_user_reference-Extends :
      (user : UserReference) (t : Tables F) → Extends t (upsert_user_reference s now user t).1
  unfolding upsert_user_reference
  upsert_user_reference-Extends user t =
      guarded-keeps (Extends t) (user_guard s user t) (user_result now user t)
        (with_user now user t) t (Extends-refl t)
        (record {
          users =
              put-Keeps (λ r. r.identity_subject) user.id (user_after now user t) t.users
                (λ old there. rw (there, user_row) refl);
          subscriptions = λ k v h. h;
          articles = λ k v h. h;
          keys = λ k v h. h;
          history = λ k v h. h;
        })

  pub upsert_feed-Extends : (w : FeedWrite) (t : Tables F) → Extends t (upsert_feed s now w t).1
  unfolding upsert_feed
  upsert_feed-Extends w t =
      guarded-keeps (Extends t) (feed_guard s w t) none (with_feed now w t) t (Extends-refl t)
        (unbound-Extends t (with_feed now w t).feeds t.states)

  pub upsert_article_state-Extends :
      ⦃f : Float64 F⦄ (w : StoredArticleState F) (t : Tables F)
      → Extends t (upsert_article_state s w t).1
  unfolding upsert_article_state
  upsert_article_state-Extends w t =
      guarded-keeps (Extends t) (state_guard s w t) none (with_state w t) t (Extends-refl t)
        (unbound-Extends t t.feeds (with_state w t).states)

  pub upsert_subscription-Extends :
      (w : SubscriptionWrite) (t : Tables F) → Extends t (upsert_subscription s now w t).1
  unfolding upsert_subscription
  upsert_subscription-Extends w t =
      guarded-keeps (Extends t) (subscription_guard s w t) (subscription_result now w t)
        (with_subscription now w t) t (Extends-refl t)
        (record {
          users = λ k v h. h;
          subscriptions =
              put-Keeps (λ r. (r.user_id, r.feed_id)) w.subscription.id (subscription_after now w t)
                t.subscriptions (λ old there. rw (there, subscription_row) refl);
          articles = λ k v h. h;
          keys = λ k v h. h;
          history = λ k v h. h;
        })
