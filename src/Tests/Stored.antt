-- ===== src/Tests/Stored.antt =====
-- Rows, arguments and a server for the runs of the repository.
use feeds_server.Base.{ℕ, ◌/◌, Bool, true, false, Option, none, some, List, [], ◌∷◌, ltb}
use feeds_server.Feed.Model.{Time, FeedsId, Article, Feed, Float64}
use feeds_server.Feed.Dedup.{duplicate_by_normalized_url}
use feeds_server.Storage.Store.{Store}
use feeds_server.Storage.Repository.Rows.{Tables, no_rows}
use feeds_server.Storage.Repository.Writes.{
  UserReference, FeedWrite, SubscriptionWrite, ArticleIdentityKey, ArticleWrite, StoredArticleState,
}
use feeds_server.Storage.Repository.Server.{Postgres}
use feeds_server.Storage.Repository.History.{
  Operation, write_user, write_feed, write_subscription, write_article, write_state, perform_all,
}

-- A read position in percent.
instance abbrev pub sample_float : Float64 ℕ
sample_float = record { below_zero = λ n. false; above_one = λ n. ltb 100 n }

-- A server that takes every statement, and stores times in microseconds.
instance abbrev pub sample_postgres : Postgres ℕ
sample_postgres = record { refuses = λ st t. none; timestamptz = λ t. t / 1000 }

abbrev pub open_one : Option (Store ℕ)
open_one = some (record { pool = some 0 })

abbrev pub sample_user : UserReference
sample_user = record { id = "u"; identity_subject = "sub" }

abbrev pub sample_source : Feed
sample_source = record {
  id = "f";
  url = "https://f";
  title = "";
  description = "";
  icon_url = "";
  image_url = "";
  language = "";
  source = record { format = "rss"; url = "https://f" };
}

abbrev pub sample_feed_write : FeedWrite
sample_feed_write = record { feed = sample_source; normalized_url = "https://f"; seen_at = 5000 }

abbrev pub url_key : ArticleIdentityKey
url_key = record { key_type = duplicate_by_normalized_url; value = "https://f/1" }

abbrev pub stored_one : FeedsId → Article
stored_one id = record {
  id = id;
  feed_id = "f";
  identifier = "1";
  url = "https://f/1";
  title = "x";
  author = "";
  published_at = some 3000;
  updated_at = none;
  summary = "s";
  content = "c";
  categories = [];
  tags = [];
  media = [];
  images = [];
  language = "";
  source = record { format = "rss"; url = "https://f" };
}

abbrev pub article_write : FeedsId → ArticleWrite
article_write id = record {
  article = stored_one id;
  normalized_url = "https://f/1";
  content_fingerprint = "";
  retrieved_at = 7000;
  retention_eligible_at = none;
  source_history_id = "h";
  identity_keys = url_key ∷ [];
}

abbrev pub subscription_of : FeedsId → Bool → SubscriptionWrite
subscription_of user disabled = record {
  subscription = record {
    id = "s";
    user_id = user;
    feed_id = "f";
    feed_url = "https://f";
    created_at = 5000;
  };
  disabled = disabled;
}

abbrev pub sample_state : StoredArticleState ℕ
sample_state = record {
  state = record {
    user_id = "u";
    article_id = "a";
    read = true;
    saved = false;
    favorite = false;
    read_position = 50;
    updated_at = 9000;
  };
  preserved = false;
  last_read_at = some 8000;
}

abbrev pub sample_history : List (Time × Operation ℕ)
sample_history =
    (5000, write_user sample_user)
    ∷ (5000, write_feed sample_feed_write)
    ∷ (6000, write_subscription (subscription_of "u" false))
    ∷ (7000, write_article (article_write "a"))
    ∷ (9000, write_state sample_state)
    ∷ []

abbrev pub sample_tables : Tables ℕ
sample_tables = perform_all open_one sample_history no_rows
