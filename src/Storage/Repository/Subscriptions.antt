-- ===== src/Storage/Repository/Subscriptions.antt =====
-- Subscriptions whose identifier is written for two pairs of user and feed.
use feeds_server.Base.{
  ◌≡◌, ◌≢◌, ◌⊎◌, refl, ap, ◌∙◌, arith, String, ◌==◌, eq_iff, true, not, ◌||◌, Bool-cases, inl, inr,
  Option, none, some, Option-cases, List,
}
use feeds_server.Feed.Model.{Time, Float64}
use feeds_server.Storage.Store.{Store}
use feeds_server.Storage.Repository.Table.{column-some, get-put, column-put, text_key}
use feeds_server.Storage.Repository.Rows.{SubscriptionRow, Tables, state_key}
use feeds_server.Storage.Repository.Writes.{SubscriptionWrite, refuse_if}
use feeds_server.Storage.Repository.Server.{Postgres}
use feeds_server.Storage.Repository.Operations.{
  subscription_guard, subscription_after, subscription_row, upsert_subscription,
}
use feeds_server.Storage.Repository.Bindings.{pair_column}
use feeds_server.Storage.Repository.History.{Operation, perform_all, perform_all-Extends}

module _ {F P : Type 0} ⦃pg : Postgres F⦄ (s : Option (Store P)) where
  -- A write of a subscription whose identifier belongs to another pair of user and feed fails, and
  -- yet sets the `disabled` flag of the subscription that stands there, where the store is open, the
  -- arguments are valid and the server takes the statement.
  upsert_subscription-mismatch :
      (now : Time) (w : SubscriptionWrite) (t : Tables F) (old : SubscriptionRow)
      → subscription_guard s w t ≡ none
      → t.subscriptions w.subscription.id ≡ some old
      → (old.user_id ≢ w.subscription.user_id) ⊎ (old.feed_id ≢ w.subscription.feed_id)
      → (e : String) × (((upsert_subscription s now w t).0 ≡ some e)
          × ((upsert_subscription s now w t).1.subscriptions w.subscription.id
              ≡ some (record old { disabled = w.disabled; updated_at = pg.timestamptz now })))
  unfolding upsert_subscription
  upsert_subscription-mismatch now w t old sent there differs =
      let row_of =
        subscription_row (pg.timestamptz w.subscription.created_at) (pg.timestamptz now) w in
      let flag : (not (old.user_id == w.subscription.user_id)
            || not (old.feed_id == w.subscription.feed_id))
          ≡ true =
        ground (
          arith,
          differs,
          eq_iff old.user_id w.subscription.user_id,
          eq_iff old.feed_id w.subscription.feed_id,
        ) in
      (
        "subscription id is already bound to a different user/feed pair",
        (
          rw (upsert_subscription, sent, there, subscription_row, refuse_if, flag) refl,
          rw (upsert_subscription, sent)
              (get-put w.subscription.id (row_of (t.subscriptions w.subscription.id))
                  t.subscriptions
                ∙ ap (λ o. some (row_of o)) there),
        ),
      )

  upsert_subscription-binds :
      (now : Time) (w : SubscriptionWrite) (t t' : Tables F)
      → upsert_subscription s now w t ≡ (none, t')
      → pair_column t' w.subscription.id ≡ some (w.subscription.user_id, w.subscription.feed_id)
  unfolding upsert_subscription
  upsert_subscription-binds now w t t' h =
      let row = subscription_after now w t in
      let user = w.subscription.user_id in
      let feed = w.subscription.feed_id in
      elim (Option-cases (subscription_guard s w t)) [
        | inr (e, refused) ↦ absurd (cc (rw (upsert_subscription, refused) at h))
        | inl sent ↦ elim (Bool-cases (row.user_id == user)) [
          | inr other ↦ absurd (cc (rw (upsert_subscription, sent, refuse_if, other) at h))
          | inl mine ↦ elim (Bool-cases (row.feed_id == feed)) [
            | inr other ↦ absurd (cc (rw (upsert_subscription, sent, refuse_if, mine, other) at h))
            | inl too ↦
                let written =
                  column-put (λ r. (r.user_id, r.feed_id)) w.subscription.id row t.subscriptions in
                let pair : (row.user_id, row.feed_id) ≡ (user, feed) =
                  rw ((eq_iff row.user_id user).0 mine, (eq_iff row.feed_id feed).0 too) refl in
                rw (← ap (λ r. r.1) (rw (upsert_subscription, sent) at h)) (written ∙ ap some pair)
          ]
        ]
      ]

  -- Once a subscription has been written, a write under its identifier for another pair of user and
  -- feed fails, whatever other writes run between them; where its checks pass and the server takes
  -- its statement, it yet sets the `disabled` flag of the subscription, which keeps its pair.
  pub upsert_subscription-taken :
      ⦃f : Float64 F⦄ (now later : Time) (v w : SubscriptionWrite) (t t₁ : Tables F)
      (os : List (Time × Operation F))
      → upsert_subscription s now v t ≡ (none, t₁)
      → subscription_guard s w (perform_all s os t₁) ≡ none
      → v.subscription.id ≡ w.subscription.id
      → (v.subscription.user_id ≢ w.subscription.user_id)
        ⊎ (v.subscription.feed_id ≢ w.subscription.feed_id)
      → (e : String) × (r : SubscriptionRow) × ((upsert_subscription s later w
            (perform_all s os t₁)).0
          ≡ some e)
        × ((upsert_subscription s later w (perform_all s os t₁)).1.subscriptions w.subscription.id
            ≡ some r)
        × (r.disabled ≡ w.disabled)
        × (r.user_id ≡ v.subscription.user_id)
        × (r.feed_id ≡ v.subscription.feed_id)
  upsert_subscription-taken now later v w t t₁ os h sent same differs =
      let t' = perform_all s os t₁ in
      let user = v.subscription.user_id in
      let feed = v.subscription.feed_id in
      let first = upsert_subscription-binds now v t t₁ h in
      let kept = perform_all-Extends s os t₁ in
      let bound : pair_column t' w.subscription.id ≡ some (user, feed) =
        rw (← same) (kept.subscriptions v.subscription.id (user, feed) first) in
      let (old, there, pair) =
        column-some (λ r. (r.user_id, r.feed_id)) t'.subscriptions w.subscription.id (user, feed)
          bound in
      let users : old.user_id ≡ user = ap (λ p. p.0) pair in
      let feeds : old.feed_id ≡ feed = ap (λ p. p.1) pair in
      let other : (old.user_id ≢ w.subscription.user_id) ⊎ (old.feed_id ≢ w.subscription.feed_id) =
        rw (users, feeds) differs in
      let (e, (failed, left)) = upsert_subscription-mismatch later w t' old sent there other in
      (
        e,
        record old { disabled = w.disabled; updated_at = pg.timestamptz later },
        failed,
        left,
        refl,
        users,
        feeds,
      )
