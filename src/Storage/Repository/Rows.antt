-- ===== src/Storage/Repository/Rows.antt =====
-- The rows of the tables that the statements of repository.go write: their columns, with the
-- primary key left out.
use feeds_server.Base.{◌≡◌, ◌↔◌, arith, String, ◌==◌, eq_iff, Bool, true, ◌&&◌, Option, none}
use feeds_server.Feed.Model.{Time, FeedsId, SourceInfo}
use feeds_server.Storage.Repository.Table.{Key, Table}

pub record UserRow : Type 0 where
  pub identity_subject : String
  pub created_at : Time
  pub updated_at : Time

pub record FeedRow : Type 0 where
  pub canonical_url : String
  pub normalized_url : String
  pub title : String
  pub description : String
  pub icon_url : String
  pub image_url : String
  pub language : String
  pub source : SourceInfo
  pub first_seen_at : Time
  pub last_seen_at : Time
  pub updated_at : Time

pub record SubscriptionRow : Type 0 where
  pub user_id : FeedsId
  pub feed_id : FeedsId
  pub created_at : Time
  pub updated_at : Time
  pub disabled : Bool

pub record ArticleRow : Type 0 where
  pub feed_id : FeedsId
  pub source_identifier : String
  pub canonical_url : String
  pub normalized_url : String
  pub title : String
  pub author : String
  pub published_at : Option Time
  pub source_updated_at : Option Time
  pub summary : String
  pub content : String
  pub language : String
  pub source : SourceInfo
  pub content_fingerprint : String
  pub first_retrieved_at : Time
  pub last_retrieved_at : Time
  pub retention_eligible_at : Option Time
  pub created_at : Time
  pub updated_at : Time

-- The primary key of article_identity_keys, and its row.
pub record IdentityKey : Type 0 where
  pub feed_id : FeedsId
  pub key_type : String
  pub key_value : String

pub record KeyRow : Type 0 where
  pub article_id : FeedsId
  pub created_at : Time

pub record HistoryRow : Type 0 where
  pub article_id : FeedsId
  pub feed_id : FeedsId
  pub retrieved_at : Time
  pub source_identifier : String
  pub canonical_url : String
  pub normalized_url : String
  pub title : String
  pub author : String
  pub published_at : Option Time
  pub source_updated_at : Option Time
  pub content_fingerprint : String

-- The primary key of article_states, and its row.
pub record StateKey : Type 0 where
  pub user_id : FeedsId
  pub article_id : FeedsId

pub record StateRow (F : Type 0) : Type 0 where
  pub read : Bool
  pub saved : Bool
  pub favorite : Bool
  pub preserved : Bool
  pub read_position : F
  pub last_read_at : Option Time
  pub updated_at : Time

pub record Tables (F : Type 0) : Type 0 where
  pub users : Table FeedsId UserRow
  pub feeds : Table FeedsId FeedRow
  pub subscriptions : Table FeedsId SubscriptionRow
  pub articles : Table FeedsId ArticleRow
  pub keys : Table IdentityKey KeyRow
  pub history : Table FeedsId HistoryRow
  pub states : Table StateKey (StateRow F)

-- The tables behind the migration.
abbrev pub no_rows : {F : Type 0} → Tables F
no_rows = record {
  users = λ k. none;
  feeds = λ k. none;
  subscriptions = λ k. none;
  articles = λ k. none;
  keys = λ k. none;
  history = λ k. none;
  states = λ k. none;
}

abbrev pub same_identity : IdentityKey → IdentityKey → Bool
same_identity j k =
    j.feed_id == k.feed_id && (j.key_type == k.key_type && j.key_value == k.key_value)

pub same_identity_iff : (j k : IdentityKey) → (same_identity j k ≡ true) ↔ (j ≡ k)
same_identity_iff j k = ground (
  arith,
  eq_iff j.feed_id k.feed_id,
  eq_iff j.key_type k.key_type,
  eq_iff j.key_value k.key_value,
)

abbrev pub same_state : StateKey → StateKey → Bool
same_state j k = j.user_id == k.user_id && j.article_id == k.article_id

pub same_state_iff : (j k : StateKey) → (same_state j k ≡ true) ↔ (j ≡ k)
same_state_iff j k = ground (arith, eq_iff j.user_id k.user_id, eq_iff j.article_id k.article_id)

instance abbrev pub identity_key : Key IdentityKey
identity_key = record { same = same_identity; same_iff = same_identity_iff }

instance abbrev pub state_key : Key StateKey
state_key = record { same = same_state; same_iff = same_state_iff }
