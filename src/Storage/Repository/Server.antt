-- ===== src/Storage/Repository/Server.antt =====
-- The statements that repository.go sends, and the server that runs them.
use feeds_server.Base.{String, Option, none, some, leb, if◌then◌else◌}
use feeds_server.Feed.Model.{Time, FeedsId}
use feeds_server.Storage.Repository.Rows.{IdentityKey, StateKey, Tables}
use feeds_server.Storage.Repository.Writes.{
  UserReference, FeedWrite, SubscriptionWrite, ArticleWrite, StoredArticleState,
}

pub data Statement (F : Type 0) : Type 0 where
  put_user : UserReference → Statement F
  put_feed : FeedWrite → Statement F
  put_subscription : SubscriptionWrite → Statement F
  begin : Statement F
  put_article : ArticleWrite → Statement F
  put_key : IdentityKey → FeedsId → Statement F
  get_key : IdentityKey → Statement F
  put_history : ArticleWrite → Statement F
  get_history : FeedsId → Statement F
  commit : Statement F
  get_article : FeedsId → Statement F
  put_state : StoredArticleState F → Statement F
  get_state : StateKey → Statement F

-- `pgx` with its server: a statement may be refused, as by a constraint of the schema or a lost
-- connection, and has then no effect; a time is stored with the precision of `timestamptz`.
pub record Postgres (F : Type 0) : Type 0 where
  pub refuses : Statement F → Tables F → Option String
  pub timestamptz : Time → Time

-- `LEAST` and `GREATEST`
abbrev pub least : Time → Time → Time
least a b = if leb a b then a else b

abbrev pub greatest : Time → Time → Time
greatest a b = if leb a b then b else a

-- A column that may be null.
abbrev pub stored_time : (Time → Time) → Option Time → Option Time
stored_time f none = none
stored_time f (some t) = some (f t)
