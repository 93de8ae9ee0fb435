-- ===== src/Storage/Repository/Checks/Guards.antt =====
-- What the checks of the operations give for the constraints.
use feeds_server.Base.{◌≡◌, refl, arith, String, Bool, true, false, ◌&&◌, Option, none, some}
use feeds_server.Feed.Model.{Time, FeedsId}
use feeds_server.Base.Text.{is_blank}
use feeds_server.Storage.Repository.Table.{text_key}
use feeds_server.Storage.Repository.Rows.{UserRow, FeedRow, identity_key}
use feeds_server.Storage.Repository.Writes.{
  UserReference, FeedWrite, SubscriptionWrite, ArticleIdentityKey, ArticleWrite, or_else, refuse_if,
  user_error, feed_error, subscription_error, validate_identity_key, validate_identity_keys,
  validate_article_write,
}
use feeds_server.Storage.Repository.Operations.{user_row, feed_row}
use feeds_server.Storage.Repository.Articles.{key_of}
use feeds_server.Storage.Repository.Checks.{not_blank, user_check, feed_check, key_check}
use feeds_server.Storage.Repository.Checks.Blank.{not_blank-of_is_blank}

pub or_else-none : (a b : Option String) → or_else a b ≡ none → (a ≡ none) × (b ≡ none)
or_else-none none b h = (refl, h)
or_else-none (some e) b h = absurd (cc)

refuse_if-none : (b : Bool) (e : String) → refuse_if b e ≡ none → b ≡ false
refuse_if-none b e h = ground arith

filled : (s e : String) → refuse_if (is_blank s) e ≡ none → not_blank s ≡ true
filled s e h = not_blank-of_is_blank s (refuse_if-none (is_blank s) e h)

pub user_error-checks :
    (user : UserReference)
    → user_error user ≡ none
    → (not_blank user.id ≡ true) × (not_blank user.identity_subject ≡ true)
unfolding user_error
user_error-checks user h =
    let (id, subject) = or_else-none _ _ h in
    (filled user.id _ id, filled user.identity_subject _ subject)

pub feed_error-checks :
    (w : FeedWrite)
    → feed_error w ≡ none
    → (not_blank w.feed.id ≡ true)
      × (not_blank w.feed.url ≡ true)
      × (not_blank w.normalized_url ≡ true)
unfolding feed_error
feed_error-checks w h =
    let (id, a) = or_else-none _ _ h in
    let (url, b) = or_else-none _ _ a in
    let (normalized, c) = or_else-none _ _ b in
    (filled w.feed.id _ id, filled w.feed.url _ url, filled w.normalized_url _ normalized)

pub subscription_error-checks :
    (w : SubscriptionWrite) → subscription_error w ≡ none → not_blank w.subscription.id ≡ true
unfolding subscription_error
subscription_error-checks w h = filled w.subscription.id _ (or_else-none _ _ h).0

pub identity_key-checks :
    (feed_id : FeedsId) (k : ArticleIdentityKey)
    → validate_identity_key k ≡ none
    → key_check (key_of feed_id k) ≡ true
unfolding validate_identity_key
identity_key-checks feed_id k h =
    let (kind, value) = or_else-none _ _ h in
    let there = filled k.value _ value in let known = refuse_if-none _ _ kind in ground arith

pub article_error-checks :
    (w : ArticleWrite)
    → validate_article_write w ≡ none
    → (not_blank w.article.id ≡ true)
      × (not_blank w.source_history_id ≡ true)
      × (validate_identity_keys w.identity_keys ≡ none)
unfolding validate_article_write
article_error-checks w h =
    let (id, a) = or_else-none _ _ h in
    let (feed, b) = or_else-none _ _ a in
    let (time, c) = or_else-none _ _ b in
    let (history, d) = or_else-none _ _ c in
    let (metadata, keys) = or_else-none _ _ d in
    (filled w.article.id _ id, filled w.source_history_id _ history, keys)

both : (a b : Bool) → a ≡ true → b ≡ true → (a && b) ≡ true
both a b h k = ground arith

-- The rows that are written for a user and a feed, over an old one or not.
pub user_row-checks :
    (now : Time) (user : UserReference) (o : Option UserRow)
    → user_error user ≡ none
    → ((old : UserRow) → o ≡ some old → user_check user.id old ≡ true)
    → user_check user.id (user_row now user o) ≡ true
user_row-checks now user none valid h =
    let (id, subject) = user_error-checks user valid in both _ _ id subject
user_row-checks now user (some old) valid h = h old refl

pub feed_row-checks :
    (seen now : Time) (w : FeedWrite) (o : Option FeedRow)
    → feed_error w ≡ none
    → feed_check w.feed.id (feed_row seen now w o) ≡ true
feed_row-checks seen now w none valid =
    let (id, url, normalized) = feed_error-checks w valid in both _ _ id (both _ _ url normalized)
feed_row-checks seen now w (some old) valid =
    let (id, url, normalized) = feed_error-checks w valid in both _ _ id (both _ _ url normalized)
