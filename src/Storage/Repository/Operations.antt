-- ===== src/Storage/Repository/Operations.antt =====
-- The operations of repository.go on users, feeds, subscriptions and article states. Each takes the
-- time of its statement, `CURRENT_TIMESTAMP`, and a write gives its error with the tables behind
-- it; a statement outside a transaction stays where the operation fails behind it.
use feeds_server.Base.{String, ◌==◌, ◌||◌, not, Option, none, some}
use feeds_server.Base.Text.{is_blank}
use feeds_server.Feed.Model.{Time, FeedsId, Float64}
use feeds_server.Storage.Attempt.{Attempt, done, failed}
use feeds_server.Storage.Store.{Store, ensure_store}
use feeds_server.Storage.Repository.Table.{put, text_key}
use feeds_server.Storage.Repository.Rows.{
  UserRow, FeedRow, SubscriptionRow, StateKey, StateRow, Tables, state_key,
}
use feeds_server.Storage.Repository.Writes.{
  UserReference, FeedWrite, SubscriptionWrite, StoredArticleState, or_else, refuse_if, user_error,
  feed_error, subscription_error, state_error,
}
use feeds_server.Storage.Repository.Server.{
  put_user, put_feed, put_subscription, put_state, get_state, Postgres, least, greatest,
  stored_time,
}

-- The row behind `INSERT INTO users … ON CONFLICT (id) DO UPDATE`.
abbrev pub user_row : Time → UserReference → Option UserRow → UserRow
user_row now user none = record {
  identity_subject = user.identity_subject;
  created_at = now;
  updated_at = now;
}
user_row now user (some old) = record old { updated_at = now }

abbrev pub subscription_row :
    Time → Time → SubscriptionWrite → Option SubscriptionRow → SubscriptionRow
subscription_row created now w none = record {
  user_id = w.subscription.user_id;
  feed_id = w.subscription.feed_id;
  created_at = created;
  updated_at = now;
  disabled = w.disabled;
}
subscription_row created now w (some old) = record old { disabled = w.disabled; updated_at = now }

abbrev pub new_feed_row : Time → Time → FeedWrite → FeedRow
new_feed_row seen now w = record {
  canonical_url = w.feed.url;
  normalized_url = w.normalized_url;
  title = w.feed.title;
  description = w.feed.description;
  icon_url = w.feed.icon_url;
  image_url = w.feed.image_url;
  language = w.feed.language;
  source = w.feed.source;
  first_seen_at = seen;
  last_seen_at = seen;
  updated_at = now;
}

abbrev pub feed_row : Time → Time → FeedWrite → Option FeedRow → FeedRow
feed_row seen now w none = new_feed_row seen now w
feed_row seen now w (some old) = record (new_feed_row seen now w) {
  first_seen_at = least old.first_seen_at seen;
  last_seen_at = greatest old.last_seen_at seen;
}

-- A statement outside a transaction runs where nothing is wrong with it, and stays.
abbrev pub guarded :
    {F : Type 0} → Option String → Option String → Tables F → Tables F → Option String × Tables F
guarded (some e) result t' t = (some e, t)
guarded none result t' t = (result, t')

module _ {F : Type 0} ⦃pg : Postgres F⦄ (now : Time) where
  -- The row and the tables behind each statement.
  abbrev pub user_after : UserReference → Tables F → UserRow
  user_after user t = user_row (pg.timestamptz now) user (t.users user.id)

  abbrev pub with_user : UserReference → Tables F → Tables F
  with_user user t = record t { users = put user.id (user_after user t) t.users }

  abbrev pub feed_after : FeedWrite → Tables F → FeedRow
  feed_after w t = feed_row (pg.timestamptz w.seen_at) (pg.timestamptz now) w (t.feeds w.feed.id)

  abbrev pub with_feed : FeedWrite → Tables F → Tables F
  with_feed w t = record t { feeds = put w.feed.id (feed_after w t) t.feeds }

  abbrev pub subscription_after : SubscriptionWrite → Tables F → SubscriptionRow
  subscription_after w t =
      subscription_row (pg.timestamptz w.subscription.created_at) (pg.timestamptz now) w
        (t.subscriptions w.subscription.id)

  abbrev pub with_subscription : SubscriptionWrite → Tables F → Tables F
  with_subscription w t = record t {
    subscriptions = put w.subscription.id (subscription_after w t) t.subscriptions;
  }

module _ {F : Type 0} ⦃pg : Postgres F⦄ (now : Time) where
  -- The comparison of what the statement gives back.
  abbrev pub user_result : UserReference → Tables F → Option String
  user_result user t =
      refuse_if (not ((user_after now user t).identity_subject == user.identity_subject))
        "user id is already bound to a different identity subject"

  abbrev pub subscription_result : SubscriptionWrite → Tables F → Option String
  subscription_result w t =
      let row = subscription_after now w t in
      refuse_if
        (not (row.user_id == w.subscription.user_id) || not (row.feed_id == w.subscription.feed_id))
        "subscription id is already bound to a different user/feed pair"

module _ {F P : Type 0} ⦃pg : Postgres F⦄ (s : Option (Store P)) where
  -- What is in front of a statement, and what the server refuses.
  abbrev pub user_guard : UserReference → Tables F → Option String
  user_guard user t =
      or_else (ensure_store s) (or_else (user_error user) (pg.refuses (put_user user) t))

  abbrev pub feed_guard : FeedWrite → Tables F → Option String
  feed_guard w t = or_else (ensure_store s) (or_else (feed_error w) (pg.refuses (put_feed w) t))

  abbrev pub subscription_guard : SubscriptionWrite → Tables F → Option String
  subscription_guard w t =
      or_else (ensure_store s) (or_else (subscription_error w) (pg.refuses (put_subscription w) t))

  abbrev pub state_guard : ⦃f : Float64 F⦄ → StoredArticleState F → Tables F → Option String
  state_guard w t = or_else (ensure_store s) (or_else (state_error w) (pg.refuses (put_state w) t))

module _ {F P : Type 0} ⦃pg : Postgres F⦄ (s : Option (Store P)) (now : Time) where
  unfoldable pub upsert_user_reference : UserReference → Tables F → Option String × Tables F
  unfolding ensure_store user_error put
  upsert_user_reference user t =
      guarded (user_guard s user t) (user_result now user t) (with_user now user t) t

  unfoldable pub upsert_feed : FeedWrite → Tables F → Option String × Tables F
  unfolding ensure_store feed_error put
  upsert_feed w t = guarded (feed_guard s w t) none (with_feed now w t) t

  unfoldable pub upsert_subscription : SubscriptionWrite → Tables F → Option String × Tables F
  unfolding ensure_store subscription_error put
  upsert_subscription w t =
      guarded (subscription_guard s w t) (subscription_result now w t) (with_subscription now w t) t

module _ {F : Type 0} ⦃pg : Postgres F⦄ where
  abbrev pub state_row : StoredArticleState F → StateRow F
  state_row w = record {
    read = w.state.read;
    saved = w.state.saved;
    favorite = w.state.favorite;
    preserved = w.preserved;
    read_position = w.state.read_position;
    last_read_at = stored_time pg.timestamptz w.last_read_at;
    updated_at = pg.timestamptz w.state.updated_at;
  }

  abbrev pub with_state : StoredArticleState F → Tables F → Tables F
  with_state w t =
      let k : StateKey = record { user_id = w.state.user_id; article_id = w.state.article_id } in
      record t { states = put k (state_row w) t.states }

module _ {F P : Type 0} ⦃f : Float64 F⦄ ⦃pg : Postgres F⦄ (s : Option (Store P)) where
  unfoldable pub upsert_article_state : StoredArticleState F → Tables F → Option String × Tables F
  unfolding ensure_store state_error put
  upsert_article_state w t = guarded (state_guard s w t) none (with_state w t) t

  -- The columns of a row, scanned.
  abbrev pub scan_state : StateKey → StateRow F → StoredArticleState F
  scan_state k r = record {
    state = record {
      user_id = k.user_id;
      article_id = k.article_id;
      read = r.read;
      saved = r.saved;
      favorite = r.favorite;
      read_position = r.read_position;
      updated_at = r.updated_at;
    };
    preserved = r.preserved;
    last_read_at = r.last_read_at;
  }

  unfoldable pub article_state_for_user :
      FeedsId → FeedsId → Tables F → Attempt (StoredArticleState F)
  unfolding ensure_store is_blank
  article_state_for_user user_id article_id t =
      let k : StateKey = record { user_id = user_id; article_id = article_id } in
      elim (or_else (ensure_store s) (
        or_else
          (refuse_if (is_blank user_id || is_blank article_id)
            "article state user id and article id are required")
          (pg.refuses (get_state k) t))) [
            | some e ↦ failed e
            | none ↦ elim (t.states k) [
              | none ↦ failed "no rows in result set"
              | some r ↦ done (scan_state k r)
            ]
          ]
