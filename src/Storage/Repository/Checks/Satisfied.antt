-- ===== src/Storage/Repository/Checks/Satisfied.antt =====
-- The checks of the operations are enough for the constraints.
use feeds_server.Base.{◌≡◌, refl, inl, inr, String, Option, none, some, List}
use feeds_server.Feed.Model.{Time, Float64}
use feeds_server.Storage.Store.{Store}
use feeds_server.Storage.Repository.Table.{text_key}
use feeds_server.Storage.Repository.Rows.{Tables, no_rows, identity_key}
use feeds_server.Storage.Repository.Writes.{or_else}
use feeds_server.Storage.Repository.Server.{Postgres}
use feeds_server.Storage.Repository.Operations.{
  guarded, user_guard, feed_guard, subscription_guard, state_guard, user_result,
  subscription_result, with_user, with_feed, with_subscription, with_state, upsert_user_reference,
  upsert_feed, upsert_subscription, upsert_article_state,
}
use feeds_server.Storage.Repository.Articles.Inverted.{upsert_article-cases}
use feeds_server.Storage.Repository.History.{
  Operation, write_user, write_feed, write_subscription, write_article, write_state, perform,
  perform_all, perform_all-keeps,
}
use feeds_server.Storage.Repository.Checks.{IsChecked}
use feeds_server.Storage.Repository.Checks.Guards.{or_else-none}
use feeds_server.Storage.Repository.Checks.Written.{
  with_user-IsChecked, with_feed-IsChecked, with_subscription-IsChecked,
  article_transaction-IsChecked,
}

guarded-when :
    {F : Type 0} (Q : Tables F → Type 0) (o result : Option String) (t' t : Tables F)
    → Q t
    → (o ≡ none → Q t')
    → Q (guarded o result t' t).1
guarded-when Q (some e) result t' t h k = h
guarded-when Q none result t' t h k = k refl

-- The check of the arguments, between those of the store and of the server.
valid_of : (a b c : Option String) → or_else a (or_else b c) ≡ none → b ≡ none
valid_of a b c h = (or_else-none b c (or_else-none a (or_else b c) h).1).0

no_rows-IsChecked : {F : Type 0} → IsChecked (no_rows {F = F})
no_rows-IsChecked = record {
  users = λ k r h. absurd (cc h);
  feeds = λ k r h. absurd (cc h);
  subscriptions = λ k r h. absurd (cc h);
  articles = λ k r h. absurd (cc h);
  keys = λ k r h. absurd (cc h);
  history = λ k r h. absurd (cc h);
}

module _ {F P : Type 0} ⦃f : Float64 F⦄ ⦃pg : Postgres F⦄ (s : Option (Store P)) where
  perform-IsChecked :
      (now : Time) (o : Operation F) (t : Tables F) → IsChecked t → IsChecked (perform s now o t).1
  unfolding perform upsert_user_reference upsert_feed upsert_subscription upsert_article_state
  perform-IsChecked now (write_user user) t c =
      guarded-when IsChecked (user_guard s user t) (user_result now user t) (with_user now user t) t
        c (λ h. with_user-IsChecked now user t (valid_of _ _ _ h) c)
  perform-IsChecked now (write_feed w) t c =
      guarded-when IsChecked (feed_guard s w t) none (with_feed now w t) t c
        (λ h. with_feed-IsChecked now w t (valid_of _ _ _ h) c)
  perform-IsChecked now (write_subscription w) t c =
      guarded-when IsChecked (subscription_guard s w t) (subscription_result now w t)
        (with_subscription now w t) t c
        (λ h. with_subscription-IsChecked now w t (valid_of _ _ _ h) c)
  perform-IsChecked now (write_article w) t c = elim (upsert_article-cases now s w t) [
    | inl (e, refused) ↦ rw refused c
    | inr (t', (ran, ((opened, valid), right))) ↦
        rw ran (article_transaction-IsChecked now w t t' valid c right)
  ]
  perform-IsChecked now (write_state w) t c =
      guarded-when IsChecked (state_guard s w t) none (with_state w t) t c (λ h. record {
        users = c.users;
        feeds = c.feeds;
        subscriptions = c.subscriptions;
        articles = c.articles;
        keys = c.keys;
        history = c.history;
      })

  -- From empty tables, whatever writes run and whatever the server refuses, every row satisfies the
  -- constraints of the schema that identifiers, subjects of users, URLs of feeds and identity keys
  -- are not blank and that an identity key has one of the three types.
  pub perform_all-IsChecked :
      (os : List (Time × Operation F)) → IsChecked (perform_all s os no_rows)
  perform_all-IsChecked os =
      perform_all-keeps s IsChecked perform-IsChecked os no_rows no_rows-IsChecked
