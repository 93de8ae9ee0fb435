-- ===== src/Feed/Model.antt =====
-- internal/feed/model.go
use feeds_server.Base.{ℕ, String, Bool, Option, List}
use feeds_server.Base.Int.{ℤ}

-- `time.Time` as an instant: the nanoseconds since the zero time, 1 January of year 1, UTC. The
-- zone is not kept, so `UTC()` is the identity; `IsZero` is the test for 0.
abbrev pub Time : Type 0
Time = ℕ

-- `type ID string`
abbrev pub FeedsId : Type 0
FeedsId = String

pub record SourceInfo : Type 0 where
  pub format : String
  pub url : String

pub record User : Type 0 where
  pub id : FeedsId

pub record Subscription : Type 0 where
  pub id : FeedsId
  pub user_id : FeedsId
  pub feed_id : FeedsId
  pub feed_url : String
  pub created_at : Time

pub record Feed : Type 0 where
  pub id : FeedsId
  pub url : String
  pub title : String
  pub description : String
  pub icon_url : String
  pub image_url : String
  pub language : String
  pub source : SourceInfo

pub record Media : Type 0 where
  pub url : String
  pub mime_type : String
  pub width : ℤ
  pub height : ℤ

pub record Image : Type 0 where
  pub url : String
  pub width : ℤ
  pub height : ℤ

pub record Article : Type 0 where
  pub id : FeedsId
  pub feed_id : FeedsId
  pub identifier : String
  pub url : String
  pub title : String
  pub author : String
  pub published_at : Option Time
  pub updated_at : Option Time
  pub summary : String
  pub content : String
  pub categories : List String
  pub tags : List String
  pub media : List Media
  pub images : List Image
  pub language : String
  pub source : SourceInfo

-- `float64`: the read position is only compared with 0 and 1, and a NaN fails both tests.
pub record Float64 (F : Type 0) : Type 0 where
  pub below_zero : F → Bool
  pub above_one : F → Bool

pub record ArticleState (F : Type 0) : Type 0 where
  pub user_id : FeedsId
  pub article_id : FeedsId
  pub read : Bool
  pub saved : Bool
  pub favorite : Bool
  pub read_position : F
  pub updated_at : Time

pub record ParsedFeed : Type 0 where
  pub feed : Feed
  pub articles : List Article
  pub warnings : List String
