-- ===== src/Storage/Repository/Articles.antt =====
-- The operations of repository.go on articles.
pub mod Inverted
use feeds_server.Base.{
  ℕ, String, ◌==◌, Bool, ◌||◌, not, Option, none, some, List, [], ◌∷◌, if◌then◌else◌,
}
use feeds_server.Base.Text.{is_blank}
use feeds_server.Feed.Model.{Time, FeedsId, Article}
use feeds_server.Storage.Attempt.{Attempt, done, failed}
use feeds_server.Storage.Store.{Store, ensure_store}
use feeds_server.Storage.Repository.Table.{put, put_new, text_key}
use feeds_server.Storage.Repository.Rows.{
  ArticleRow, IdentityKey, KeyRow, HistoryRow, Tables, identity_key,
}
use feeds_server.Storage.Repository.Writes.{
  ArticleIdentityKey, ArticleWrite, StoredArticle, or_else, refuse_if, validate_article_write,
}
use feeds_server.Storage.Repository.Server.{
  Statement, begin, put_article, put_key, get_key, put_history, get_history, commit, get_article,
  Postgres, least, greatest, stored_time,
}

-- The row behind `INSERT INTO articles … ON CONFLICT (id) DO UPDATE`, of the stored times.
abbrev pub new_article_row : (Time → Time) → Time → ArticleWrite → ArticleRow
new_article_row f now w = record {
  feed_id = w.article.feed_id;
  source_identifier = w.article.identifier;
  canonical_url = w.article.url;
  normalized_url = w.normalized_url;
  title = w.article.title;
  author = w.article.author;
  published_at = stored_time f w.article.published_at;
  source_updated_at = stored_time f w.article.updated_at;
  summary = w.article.summary;
  content = w.article.content;
  language = w.article.language;
  source = w.article.source;
  content_fingerprint = w.content_fingerprint;
  first_retrieved_at = f w.retrieved_at;
  last_retrieved_at = f w.retrieved_at;
  retention_eligible_at = stored_time f w.retention_eligible_at;
  created_at = f now;
  updated_at = f now;
}

abbrev pub article_row : (Time → Time) → Time → ArticleWrite → Option ArticleRow → ArticleRow
article_row f now w none = new_article_row f now w
article_row f now w (some old) = record (new_article_row f now w) {
  feed_id = old.feed_id;
  first_retrieved_at = least old.first_retrieved_at (f w.retrieved_at);
  last_retrieved_at = greatest old.last_retrieved_at (f w.retrieved_at);
  created_at = old.created_at;
}

abbrev pub history_row : (Time → Time) → ArticleWrite → HistoryRow
history_row f w = record {
  article_id = w.article.id;
  feed_id = w.article.feed_id;
  retrieved_at = f w.retrieved_at;
  source_identifier = w.article.identifier;
  canonical_url = w.article.url;
  normalized_url = w.normalized_url;
  title = w.article.title;
  author = w.article.author;
  published_at = stored_time f w.article.published_at;
  source_updated_at = stored_time f w.article.updated_at;
  content_fingerprint = w.content_fingerprint;
}

abbrev pub key_of : FeedsId → ArticleIdentityKey → IdentityKey
key_of feed_id k = record { feed_id = feed_id; key_type = k.key_type; key_value = k.value }

-- The two `verify` queries, on the row that is there.
abbrev pub bound_key : {F : Type 0} → FeedsId → Tables F → Option KeyRow → Attempt (Tables F)
bound_key article_id t none = failed "no rows in result set"
bound_key article_id t (some r) =
    if r.article_id == article_id
    then done t
    else failed "article identity key is already bound to an article"

abbrev pub bound_history :
    {F : Type 0} → ArticleWrite → Tables F → Option HistoryRow → Attempt (Tables F)
bound_history w t none = failed "no rows in result set"
bound_history w t (some r) =
    if not (r.article_id == w.article.id) || not (r.feed_id == w.article.feed_id)
    then failed "article source history id is already bound to a different article/feed"
    else done t

module _ {F : Type 0} ⦃pg : Postgres F⦄ (now : Time) where
  -- The tables behind each statement.
  abbrev pub with_key : FeedsId → IdentityKey → Tables F → Tables F
  with_key article_id k t = record t {
    keys = put_new k (record { article_id = article_id; created_at = pg.timestamptz now }) t.keys;
  }

  abbrev pub with_history : ArticleWrite → Tables F → Tables F
  with_history w t = record t {
    history = put_new w.source_history_id (history_row pg.timestamptz w) t.history;
  }

  abbrev pub with_article : ArticleWrite → Tables F → Tables F
  with_article w t = record t {
    articles =
        put w.article.id (article_row pg.timestamptz now w (t.articles w.article.id)) t.articles;
  }

  unfoldable pub ensure_identity_key :
      FeedsId → FeedsId → ArticleIdentityKey → Tables F → Attempt (Tables F)
  unfolding put_new
  ensure_identity_key feed_id article_id key t =
      let k = key_of feed_id key in
      let t' = with_key article_id k t in
      elim (or_else (pg.refuses (put_key k article_id) t) (pg.refuses (get_key k) t')) [
        | some e ↦ failed e
        | none ↦ bound_key article_id t' (t'.keys k)
      ]

  unfoldable pub ensure_identity_keys :
      FeedsId → FeedsId → List ArticleIdentityKey → Tables F → Attempt (Tables F)
  unfolding ensure_identity_key
  ensure_identity_keys feed_id article_id [] t = done t
  ensure_identity_keys feed_id article_id (key ∷ keys) t =
      elim (ensure_identity_key feed_id article_id key t) [
        | failed e ↦ failed e
        | done t' ↦ ensure_identity_keys feed_id article_id keys t'
      ]

  unfoldable pub ensure_source_history : ArticleWrite → Tables F → Attempt (Tables F)
  unfolding put_new
  ensure_source_history w t =
      let t' = with_history w t in
      elim (or_else (pg.refuses (put_history w) t)
        (pg.refuses (get_history w.source_history_id) t')) [
          | some e ↦ failed e
          | none ↦ bound_history w t' (t'.history w.source_history_id)
        ]

  -- The `INSERT` of the article, with the feed that it gives back.
  unfoldable pub store_article : ArticleWrite → Tables F → Attempt (Tables F)
  unfolding put
  store_article w t = elim (or_else (pg.refuses begin t) (pg.refuses (put_article w) t)) [
    | some e ↦ failed e
    | none ↦
        if (article_row pg.timestamptz now w (t.articles w.article.id)).feed_id == w.article.feed_id
        then done (with_article w t)
        else failed "article id is already bound to a different feed"
  ]

  abbrev pub committed : Tables F → Attempt (Tables F)
  committed t = elim (pg.refuses commit t) [ some e ↦ failed e | none ↦ done t ]

  unfoldable pub article_transaction : ArticleWrite → Tables F → Attempt (Tables F)
  unfolding store_article ensure_identity_keys ensure_source_history
  article_transaction w t = elim (store_article w t) [
    | failed e ↦ failed e
    | done t₁ ↦ elim (ensure_identity_keys w.article.feed_id w.article.id w.identity_keys t₁) [
      | failed e ↦ failed e
      | done t₂ ↦ elim (ensure_source_history w t₂) [ failed e ↦ failed e | done t₃ ↦ committed t₃ ]
    ]
  ]

  -- A transaction that fails is rolled back.
  unfoldable pub upsert_article :
      {P : Type 0} → Option (Store P) → ArticleWrite → Tables F → Option String × Tables F
  unfolding ensure_store validate_article_write article_transaction
  upsert_article s w t = elim (or_else (ensure_store s) (validate_article_write w)) [
    | some e ↦ (some e, t)
    | none ↦ elim (article_transaction w t) [ failed e ↦ (some e, t) | done t' ↦ (none, t') ]
  ]

-- The columns of a row, scanned into the zero value.
abbrev pub scan_article : FeedsId → ArticleRow → StoredArticle
scan_article id r = record {
  article = record {
    id = id;
    feed_id = r.feed_id;
    identifier = r.source_identifier;
    url = r.canonical_url;
    title = r.title;
    author = r.author;
    published_at = r.published_at;
    updated_at = r.source_updated_at;
    summary = r.summary;
    content = r.content;
    categories = [];
    tags = [];
    media = [];
    images = [];
    language = r.language;
    source = r.source;
  };
  normalized_url = r.normalized_url;
  content_fingerprint = r.content_fingerprint;
  first_retrieved_at = r.first_retrieved_at;
  last_retrieved_at = r.last_retrieved_at;
  retention_eligible_at = r.retention_eligible_at;
}

unfoldable pub article_by_id :
    {F P : Type 0}
    → ⦃pg : Postgres F⦄ → Option (Store P)
    → FeedsId
    → Tables F
    → Attempt StoredArticle
unfolding ensure_store is_blank
article_by_id ⦃pg⦄ s id t =
    elim (or_else (ensure_store s) (
      or_else (refuse_if (is_blank id) "article id is required") (pg.refuses (get_article id) t))) [
        | some e ↦ failed e
        | none ↦ elim (t.articles id) [
          | none ↦ failed "no rows in result set"
          | some r ↦ done (scan_article id r)
        ]
      ]
