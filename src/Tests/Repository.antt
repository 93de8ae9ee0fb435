-- ===== src/Tests/Repository.antt =====
-- internal/storage/postgres/repository.go and store.go, on a store with one user, one feed and
-- one article.
use feeds_server.Base.{
  ℕ, ◌/◌, ◌≡◌, ◌≢◌, ◌⊎◌, inl, refl, arith, String, eq_iff, true, false, none, some, List, [], ◌∷◌,
}
use feeds_server.Feed.Model.{Time, FeedsId}
use feeds_server.Storage.Attempt.{done}
use feeds_server.Storage.Store.{Pgxpool, open_store, ensure_store}
use feeds_server.Storage.Store.Opened.{IsLive, IsClosed, open_store-cases}
use feeds_server.Storage.Repository.Rows.{SubscriptionRow, StateKey, Tables, no_rows}
use feeds_server.Storage.Repository.Writes.{
  SubscriptionWrite, ArticleWrite, StoredArticleState, subscription_error,
}
use feeds_server.Storage.Repository.Operations.{
  subscription_guard, upsert_subscription, upsert_article_state, article_state_for_user,
}
use feeds_server.Storage.Repository.Articles.{key_of, upsert_article, article_by_id}
use feeds_server.Storage.Repository.Articles.Inverted.{key_column}
use feeds_server.Storage.Repository.Bindings.{Extends}
use feeds_server.Storage.Repository.Consistent.{IsConsistent}
use feeds_server.Storage.Repository.Checks.{IsChecked}
use feeds_server.Storage.Repository.Checks.Satisfied.{perform_all-IsChecked}
use feeds_server.Storage.Repository.History.{
  Operation, write_feed, write_article, perform_all, perform_all-Extends, perform_all-IsConsistent,
  repository_run,
}
use feeds_server.Storage.Repository.RoundTrip.{reread, article_by_id-upsert_article}
use feeds_server.Storage.Repository.Identity.{upsert_article-taken, upsert_article-agree}
use feeds_server.Storage.Repository.Subscriptions.{upsert_subscription-taken}
use feeds_server.Storage.Repository.Accounts.{article_state_for_user-upsert_article_state}
use feeds_server.Tests.Stored.{
  sample_float, sample_postgres, open_one, sample_feed_write, url_key, stored_one, article_write,
  subscription_of, sample_state, sample_history, sample_tables,
}

perform_all-Extends_example :
    Extends sample_tables (perform_all open_one sample_history sample_tables)
perform_all-Extends_example = perform_all-Extends open_one sample_history sample_tables

perform_all-IsConsistent_example : IsConsistent sample_tables
perform_all-IsConsistent_example = perform_all-IsConsistent open_one sample_history

perform_all-IsChecked_example : IsChecked sample_tables
perform_all-IsChecked_example = perform_all-IsChecked open_one sample_history

abbrev written : Tables ℕ
written = (upsert_article 7000 open_one (article_write "a") no_rows).1

write_test : upsert_article 7000 open_one (article_write "a") no_rows ≡ (none, written)
unfolding repository_run
write_test = refl

abbrev between : List (Time × Operation ℕ)
between = (7500, write_feed sample_feed_write) ∷ (7600, write_article (article_write "b")) ∷ []

abbrev later_write : ArticleWrite
later_write = record (article_write "a") { retrieved_at = 8000; content_fingerprint = "00" }

abbrev rewritten : Tables ℕ
rewritten = (upsert_article 8000 open_one later_write (perform_all open_one between written)).1

again_test :
    upsert_article 8000 open_one later_write (perform_all open_one between written)
    ≡ (none, rewritten)
unfolding repository_run
again_test = refl

read_test :
    article_by_id open_one "a" written
    ≡ done (record {
      article = record (stored_one "a") { published_at = some 3 };
      normalized_url = "https://f/1";
      content_fingerprint = "";
      first_retrieved_at = 7;
      last_retrieved_at = 7;
      retention_eligible_at = none;
    })
unfolding repository_run
read_test = refl

article_by_id-upsert_article_example :
    article_by_id open_one "a" written ≡ done (reread (λ t. t / 1000) (article_write "a") none)
article_by_id-upsert_article_example =
    article_by_id-upsert_article open_one 7000 (article_write "a") no_rows written write_test refl

key_test : key_column written (key_of "f" url_key) ≡ some "a"
unfolding repository_run
key_test = refl

abbrev first_id : FeedsId
first_id = "a"

abbrev second_id : FeedsId
second_id = "b"

a_is_not_b : first_id ≢ second_id
a_is_not_b h = ground (arith, eq_iff "a" "b")

upsert_article-taken_example :
    (e : String) × (upsert_article 9000 open_one (article_write "b") written ≡ (some e, written))
upsert_article-taken_example =
    upsert_article-taken open_one 9000 (article_write "b") written 0 url_key "a" refl key_test
      a_is_not_b

upsert_article-agree_example : (article_write "a").article.id ≡ later_write.article.id
upsert_article-agree_example =
    upsert_article-agree open_one 7000 8000 (article_write "a") later_write no_rows written
      rewritten between 0 0 url_key write_test again_test refl refl refl

abbrev owned : SubscriptionWrite
owned = subscription_of "u" false

abbrev subscribed : Tables ℕ
subscribed = (upsert_subscription open_one 6000 owned no_rows).1

subscribe_test : upsert_subscription open_one 6000 owned no_rows ≡ (none, subscribed)
unfolding repository_run
subscribe_test = refl

abbrev intruding : SubscriptionWrite
intruding = subscription_of "v" true

taken_over : subscription_guard open_one intruding (perform_all open_one between subscribed) ≡ none
unfolding ensure_store subscription_error
taken_over = refl

abbrev first_user : FeedsId
first_user = "u"

abbrev second_user : FeedsId
second_user = "v"

u_is_not_v : first_user ≢ second_user
u_is_not_v h = ground (arith, eq_iff "u" "v")

abbrev state_written : Tables ℕ
state_written = (upsert_article_state open_one sample_state no_rows).1

state_test : upsert_article_state open_one sample_state no_rows ≡ (none, state_written)
unfolding repository_run
state_test = refl

abbrev stored_state : StoredArticleState ℕ
stored_state = record sample_state {
  state = record sample_state.state { updated_at = 9 };
  last_read_at = some 8;
}

article_state_for_user-upsert_article_state_example :
    (article_state_for_user open_one "u" "a" state_written ≡ done stored_state)
    × ((k : StateKey) → (k.user_id ≢ "u") ⊎ (k.article_id ≢ "a") → state_written.states k ≡ none)
article_state_for_user-upsert_article_state_example =
    article_state_for_user-upsert_article_state open_one sample_state no_rows state_written
      state_test refl

-- A library whose pools do not answer.
abbrev sample_pools : Pgxpool ℕ
sample_pools = record {
  parse_config = λ c. done (record {
    connection = c;
    max_conns = 100;
    min_conns = 1;
    connect_timeout = 0;
    runtime_params = [];
  });
  new_with_config = λ c. done 1;
  ping = λ p. some "unreachable";
}

open_store-cases_example :
    IsLive sample_pools (open_store sample_pools "host=a")
    ⊎ IsClosed (open_store sample_pools "host=a")
open_store-cases_example = open_store-cases sample_pools "host=a"

upsert_subscription-taken_example :
    (e : String) × (r : SubscriptionRow) × ((upsert_subscription open_one 9000 intruding
        (perform_all open_one between subscribed)).0
      ≡ some e)
    × ((upsert_subscription open_one 9000 intruding
            (perform_all open_one between subscribed)).1.subscriptions
          "s"
        ≡ some r)
    × (r.disabled ≡ true)
    × (r.user_id ≡ "u")
    × (r.feed_id ≡ "f")
upsert_subscription-taken_example =
    upsert_subscription-taken open_one 6000 9000 owned intruding no_rows subscribed between
      subscribe_test taken_over refl (inl u_is_not_v)
