-- ===== src/Storage/Repository/History.antt =====
-- Sequences of writes of the repository, in the order in which the server runs them.
use feeds_server.Base.{String, Option, List, [], ◌∷◌}
use feeds_server.Feed.Model.{Time, Float64}
use feeds_server.Storage.Store.{Store}
use feeds_server.Storage.Repository.Rows.{Tables, no_rows}
use feeds_server.Storage.Repository.Writes.{
  UserReference, FeedWrite, SubscriptionWrite, ArticleWrite, StoredArticleState,
}
use feeds_server.Storage.Repository.Server.{Postgres}
use feeds_server.Storage.Repository.Operations.{
  upsert_user_reference, upsert_feed, upsert_subscription, upsert_article_state,
  article_state_for_user,
}
use feeds_server.Storage.Repository.Articles.{
  upsert_article, article_by_id, article_transaction, ensure_identity_keys, ensure_source_history,
  store_article,
}
use feeds_server.Storage.Repository.Bindings.{
  Extends, Extends-refl, Extends-trans, upsert_article-Extends, upsert_user_reference-Extends,
  upsert_feed-Extends, upsert_subscription-Extends, upsert_article_state-Extends,
}
use feeds_server.Storage.Repository.Consistent.{
  IsConsistent, no_rows-IsConsistent, upsert_article-IsConsistent,
  upsert_user_reference-IsConsistent, upsert_feed-IsConsistent, upsert_subscription-IsConsistent,
  upsert_article_state-IsConsistent,
}

pub data Operation (F : Type 0) : Type 0 where
  write_user : UserReference → Operation F
  write_feed : FeedWrite → Operation F
  write_subscription : SubscriptionWrite → Operation F
  write_article : ArticleWrite → Operation F
  write_state : StoredArticleState F → Operation F

module _ {F P : Type 0} ⦃f : Float64 F⦄ ⦃pg : Postgres F⦄ (s : Option (Store P)) where
  unfoldable pub perform : Time → Operation F → Tables F → Option String × Tables F
  unfolding upsert_user_reference upsert_feed upsert_subscription upsert_article
      upsert_article_state
  perform now (write_user user) t = upsert_user_reference s now user t
  perform now (write_feed w) t = upsert_feed s now w t
  perform now (write_subscription w) t = upsert_subscription s now w t
  perform now (write_article w) t = upsert_article now s w t
  perform now (write_state w) t = upsert_article_state s w t

  -- The tables behind all of them, whether they fail or not.
  unfoldable pub perform_all : List (Time × Operation F) → Tables F → Tables F
  unfolding perform
  perform_all [] t = t
  perform_all ((now, o) ∷ os) t = perform_all os (perform now o t).1

  pub perform-Extends :
      (now : Time) (o : Operation F) (t : Tables F) → Extends t (perform now o t).1
  unfolding perform
  perform-Extends now (write_user user) t = upsert_user_reference-Extends s now user t
  perform-Extends now (write_feed w) t = upsert_feed-Extends s now w t
  perform-Extends now (write_subscription w) t = upsert_subscription-Extends s now w t
  perform-Extends now (write_article w) t = upsert_article-Extends s now w t
  perform-Extends now (write_state w) t = upsert_article_state-Extends s now w t

  perform-IsConsistent :
      (now : Time) (o : Operation F) (t : Tables F)
      → IsConsistent t
      → IsConsistent (perform now o t).1
  unfolding perform
  perform-IsConsistent now (write_user user) t = upsert_user_reference-IsConsistent s now user t
  perform-IsConsistent now (write_feed w) t = upsert_feed-IsConsistent s now w t
  perform-IsConsistent now (write_subscription w) t = upsert_subscription-IsConsistent s now w t
  perform-IsConsistent now (write_article w) t = upsert_article-IsConsistent s now w t
  perform-IsConsistent now (write_state w) t = upsert_article_state-IsConsistent s now w t

  -- Whatever writes run, in whatever order and whether they fail or not, no binding changes: the
  -- subject of a user, the user and the feed of a subscription, the feed of an article, the article
  -- of an identity key, and the article and the feed of a history entry.
  pub perform_all-Extends :
      (os : List (Time × Operation F)) (t : Tables F) → Extends t (perform_all os t)
  unfolding perform_all
  perform_all-Extends [] t = Extends-refl t
  perform_all-Extends ((now, o) ∷ os) t =
      let t₁ = (perform now o t).1 in
      Extends-trans t t₁ (perform_all os t₁) (perform-Extends now o t) (perform_all-Extends os t₁)

  -- What every write keeps a sequence of them keeps.
  pub perform_all-keeps :
      (Q : Tables F → Type 0)
      → ((now : Time) (o : Operation F) (t : Tables F) → Q t → Q (perform now o t).1)
      → (os : List (Time × Operation F)) (t : Tables F) → Q t
      → Q (perform_all os t)
  unfolding perform_all
  perform_all-keeps Q keeps [] t h = h
  perform_all-keeps Q keeps ((now, o) ∷ os) t h =
      perform_all-keeps Q keeps os (perform now o t).1 (keeps now o t h)

  -- From empty tables, whatever writes run, in whatever order and whether they fail or not, every
  -- identity key and every history entry is for an article that is stored under the same feed, and
  -- no article and no feed has its last time before its first.
  pub perform_all-IsConsistent :
      (os : List (Time × Operation F)) → IsConsistent (perform_all os no_rows)
  perform_all-IsConsistent os =
      perform_all-keeps IsConsistent perform-IsConsistent os no_rows no_rows-IsConsistent

-- Opens all that the operations go through.
unfoldable pub repository_run : Unit {0}
unfolding perform_all article_by_id article_state_for_user article_transaction ensure_identity_keys
    ensure_source_history store_article
repository_run = tt
