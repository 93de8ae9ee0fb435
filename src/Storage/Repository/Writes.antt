-- ===== src/Storage/Repository/Writes.antt =====
-- The arguments and the results of the operations of repository.go, their checks, and the rows
-- that the statements write.
use feeds_server.Base.{
  String, ◌==◌, Bool, true, false, ◌||◌, not, Option, none, some, List, [], ◌∷◌, eqb, if◌then◌else◌,
}
use feeds_server.Base.Text.{is_blank}
use feeds_server.Feed.Model.{Time, FeedsId, Feed, Subscription, Article, ArticleState, Float64}
use feeds_server.Feed.Dedup.{
  DuplicateReason, duplicate_by_source_identifier, duplicate_by_normalized_url,
  duplicate_by_content_fingerprint,
}

pub record UserReference : Type 0 where
  pub id : FeedsId
  pub identity_subject : String

pub record FeedWrite : Type 0 where
  pub feed : Feed
  pub normalized_url : String
  pub seen_at : Time

pub record SubscriptionWrite : Type 0 where
  pub subscription : Subscription
  pub disabled : Bool

pub record ArticleIdentityKey : Type 0 where
  pub key_type : DuplicateReason
  pub value : String

pub record ArticleWrite : Type 0 where
  pub article : Article
  pub normalized_url : String
  pub content_fingerprint : String
  pub retrieved_at : Time
  pub retention_eligible_at : Option Time
  pub source_history_id : FeedsId
  pub identity_keys : List ArticleIdentityKey

pub record StoredArticle : Type 0 where
  pub article : Article
  pub normalized_url : String
  pub content_fingerprint : String
  pub first_retrieved_at : Time
  pub last_retrieved_at : Time
  pub retention_eligible_at : Option Time

-- `ArticleStateWrite` and `StoredArticleState`, which have the same fields.
pub record StoredArticleState (F : Type 0) : Type 0 where
  pub state : ArticleState F
  pub preserved : Bool
  pub last_read_at : Option Time

-- The first error of two checks.
abbrev pub or_else : Option String → Option String → Option String
or_else none r = r
or_else (some e) r = some e

-- The check of one condition.
abbrev pub refuse_if : Bool → String → Option String
refuse_if b e = if b then some e else none

unfoldable pub user_error : UserReference → Option String
unfolding is_blank
user_error user =
    or_else (refuse_if (is_blank user.id) "user id is required")
      (refuse_if (is_blank user.identity_subject) "identity subject is required")

unfoldable pub feed_error : FeedWrite → Option String
unfolding is_blank
feed_error w = or_else (refuse_if (is_blank w.feed.id) "feed id is required") (
    or_else (refuse_if (is_blank w.feed.url) "feed canonical url is required") (
      or_else (refuse_if (is_blank w.normalized_url) "feed normalized url is required")
        (refuse_if (eqb w.seen_at 0) "feed seen time is required")))

unfoldable pub subscription_error : SubscriptionWrite → Option String
unfolding is_blank
subscription_error w =
    let s = w.subscription in
    or_else (refuse_if (is_blank s.id) "subscription id is required") (
      or_else
        (refuse_if (is_blank s.user_id || is_blank s.feed_id)
          "subscription user id and feed id are required")
        (refuse_if (eqb s.created_at 0) "subscription creation time is required"))

-- `validateIdentityKey`
unfoldable pub validate_identity_key : ArticleIdentityKey → Option String
unfolding is_blank
validate_identity_key key =
    or_else
      (refuse_if
        (not (
          key.key_type == duplicate_by_source_identifier
          || (key.key_type == duplicate_by_normalized_url
              || key.key_type == duplicate_by_content_fingerprint)))
        "unsupported article identity key type")
      (refuse_if (is_blank key.value) "article identity key value is required")

unfoldable pub validate_identity_keys : List ArticleIdentityKey → Option String
unfolding validate_identity_key
validate_identity_keys [] = none
validate_identity_keys (k ∷ ks) = or_else (validate_identity_key k) (validate_identity_keys ks)

-- The test of `len(xs) > 0`.
abbrev pub is_filled {ℓ} : {A : Type ℓ} → List A → Bool
is_filled [] = false
is_filled (x ∷ xs) = true

abbrev pub unsupported_article_metadata : String
unsupported_article_metadata =
    "article categories, tags, media, and images are not yet supported by the PostgreSQL schema"

-- `validateArticleWrite`
unfoldable pub validate_article_write : ArticleWrite → Option String
unfolding is_blank validate_identity_keys
validate_article_write w =
    let a = w.article in
    or_else (refuse_if (is_blank a.id) "article id is required") (
      or_else (refuse_if (is_blank a.feed_id) "article feed id is required") (
        or_else (refuse_if (eqb w.retrieved_at 0) "article retrieval time is required") (
          or_else (refuse_if (is_blank w.source_history_id) "article source history id is required")
            (or_else
              (refuse_if
                (is_filled a.categories
                  || (is_filled a.tags || (is_filled a.media || is_filled a.images)))
                unsupported_article_metadata)
              (validate_identity_keys w.identity_keys)))))

unfoldable pub state_error : {F : Type 0} → ⦃f : Float64 F⦄ → StoredArticleState F → Option String
unfolding is_blank
state_error ⦃f⦄ w =
    let s = w.state in
    or_else
      (refuse_if (is_blank s.user_id || is_blank s.article_id)
        "article state user id and article id are required")
      (or_else
        (refuse_if (f.below_zero s.read_position || f.above_one s.read_position)
          "article read position must be between 0 and 1")
        (refuse_if (eqb s.updated_at 0) "article state update time is required"))
