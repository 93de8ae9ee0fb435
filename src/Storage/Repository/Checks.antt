-- ===== src/Storage/Repository/Checks.antt =====
-- The CHECK constraints of internal/storage/postgres/migrations/0001_initial.sql on the columns
-- that the repository validates itself.
pub mod Blank
pub mod Guards
pub mod Written
pub mod Satisfied
use Prim.Native.Char.{Char, code}
use feeds_server.Base.{String, ◌==◌, Bool, true, ◌≡◌, ◌&&◌, ◌||◌, not, some, eqb}
use feeds_server.Base.Text.{trim_func}
use feeds_server.Feed.Model.{FeedsId}
use feeds_server.Storage.Repository.Rows.{
  UserRow, FeedRow, SubscriptionRow, ArticleRow, IdentityKey, KeyRow, HistoryRow, Tables,
}

-- `btrim`, which takes away blanks and no other white space.
abbrev pub is_blank_char : Char → Bool
is_blank_char c = eqb (code c) b' '

unfoldable pub btrim : String → String
unfolding trim_func
btrim s = trim_func is_blank_char s

abbrev pub not_blank : String → Bool
not_blank s = not (btrim s == "")

abbrev pub user_check : FeedsId → UserRow → Bool
user_check id r = not_blank id && not_blank r.identity_subject

abbrev pub feed_check : FeedsId → FeedRow → Bool
feed_check id r = not_blank id && (not_blank r.canonical_url && not_blank r.normalized_url)

abbrev pub key_check : IdentityKey → Bool
key_check k =
    (k.key_type == "source_identifier"
      || (k.key_type == "normalized_url" || k.key_type == "content_fingerprint"))
    && not_blank k.key_value

-- Every row satisfies the constraints.
pub record IsChecked {F : Type 0} (t : Tables F) : Type 0 where
  pub users : (id : FeedsId) (r : UserRow) → t.users id ≡ some r → user_check id r ≡ true
  pub feeds : (id : FeedsId) (r : FeedRow) → t.feeds id ≡ some r → feed_check id r ≡ true
  pub subscriptions :
      (id : FeedsId) (r : SubscriptionRow) → t.subscriptions id ≡ some r → not_blank id ≡ true
  pub articles : (id : FeedsId) (r : ArticleRow) → t.articles id ≡ some r → not_blank id ≡ true
  pub keys : (k : IdentityKey) (r : KeyRow) → t.keys k ≡ some r → key_check k ≡ true
  pub history : (id : FeedsId) (r : HistoryRow) → t.history id ≡ some r → not_blank id ≡ true
