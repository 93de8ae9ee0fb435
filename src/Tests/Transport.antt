-- ===== src/Tests/Transport.antt =====
-- Redirects, dials and whole fetches of internal/retrieval on concrete requests.
use feeds_server.Base.{◌≡◌, eq_iff, true, false, none, some, [], ◌∷◌, refl, inl, inr, arith}
use feeds_server.Base.Dict.{lookup}
use feeds_server.Base.Int.{pos}
use feeds_server.Base.Text.{to_lower, trim_space}
use feeds_server.Base.Url.{hostname, port}
use feeds_server.Retrieval.Error.{nil, cons, wrapped, joined, plain, is, as_status}
use feeds_server.Retrieval.Policy.{err, ok, policy_run}
use feeds_server.Retrieval.Redirect.{Request, last_of, same_origin, check_redirect, redirect_run}
use feeds_server.Retrieval.Redirect.Stripped.{Sensitive, check_redirect-strips}
use feeds_server.Retrieval.Dial.{dial_loop}
use feeds_server.Retrieval.Config.{Client, new_client, config_run}
use feeds_server.Retrieval.Config.Bounds.{IsBounded, new_client-IsBounded}
use feeds_server.Retrieval.RetryAfter.{retry_after_run}
use feeds_server.Retrieval.Backoff.{backoff}
use feeds_server.Retrieval.Fetch.{response_outcome, fetch_with_slot, fetch, fetch_run}
use feeds_server.Retrieval.Fetch.Attempt.{IsDelivered}
use feeds_server.Retrieval.Fetch.Retries.{IsRun, fetch_with_slot-Run}
use feeds_server.Retrieval.Fetch.Delivery.{response_outcome_delivers}
use feeds_server.Retrieval.Fetch.Ends.{fetch-IsDelivered}
use feeds_server.Tests.Samples.{
  sample_unicode, sample_urls, sample_dates, sample_addresses, sample_dialer, sample_world,
  sample_request, response_at, feed_url, public_addr, strict_policy, zero_config, url_of,
}

abbrev first_request : Request
first_request = record {
  url = feed_url;
  header = ("If-None-Match", "x") ∷ ("Accept", "a") ∷ ("Cookie", "c") ∷ [];
}

abbrev same_site : Request
same_site = record { url = url_of "https" "feeds.example" "/new"; header = first_request.header }

abbrev other_site : Request
other_site = record { url = url_of "https" "other.example" "/rss"; header = first_request.header }

redirect_tests :
    ((check_redirect strict_policy other_site (first_request ∷ [])).0 ≡ none)
    × ((check_redirect strict_policy same_site (first_request ∷ [])).0 ≡ none)
    × (last_of (first_request ∷ []) ≡ some first_request)
    × (same_origin (some feed_url) (some other_site.url) ≡ false)
    × (same_origin (some feed_url) (some same_site.url) ≡ true)
unfolding redirect_run policy_run hostname to_lower port
redirect_tests = (refl, refl, refl, refl, refl)

check_redirect-strips_example :
    lookup "If-None-Match" (check_redirect strict_policy other_site (first_request ∷ [])).1.header
    ≡ none
check_redirect-strips_example =
    check_redirect-strips strict_policy other_site (first_request ∷ []) first_request
      "If-None-Match" redirect_tests.0 redirect_tests.2 (inr (redirect_tests.3, inl refl))

accept_plain : ¬ Sensitive "Accept"
accept_plain s = ground (
  arith,
  eq_iff "Accept" "Authorization",
  eq_iff "Accept" "Proxy-Authorization",
  eq_iff "Accept" "Cookie",
  eq_iff "Accept" "Referer",
)

refused :
    (dial_loop "tcp" "feeds.example" "80" nil (public_addr ∷ [])).1
    ≡ err (wrapped "dial retrieval destination feeds.example" (joined (cons (plain "refused") nil)))
unfolding dial_loop
refused = refl

abbrev pub default_client : Client
default_client = record {
  policy = strict_policy;
  max_body_bytes = pos 8_388_608;
  user_agent = "GoreeCloud-Feeds/0.1.0-dev";
  concurrent = pos 8;
  max_attempts = pos 3;
  base_backoff = pos 250_000_000;
  max_backoff = pos 2_000_000_000;
  request_timeout = pos 30_000_000_000;
  connect_timeout = pos 5_000_000_000;
  response_header_timeout = pos 10_000_000_000;
}

default_client_made : new_client zero_config ≡ ok default_client
unfolding config_run
default_client_made = refl

new_client-IsBounded_example : IsBounded default_client
new_client-IsBounded_example = new_client-IsBounded zero_config default_client default_client_made

abbrev pub default_IsBounded : IsBounded default_client
default_IsBounded = record {
  body = (8_388_608, refl, omega arith);
  slots = (8, refl, omega arith);
  attempts = (3, refl, omega arith);
  base = 250_000_000;
  limit = 2_000_000_000;
  base_backoff = refl;
  max_backoff = refl;
  base_positive = omega arith;
  ordered = omega arith;
  request_timeout = (30_000_000_000, refl, omega arith);
  connect_timeout = (5_000_000_000, refl, omega arith);
  header_timeout = (10_000_000_000, refl, omega arith);
}

fetch_with_slot-Run_example :
    IsRun sample_world default_client sample_request 0 2_000_000_000
      (fetch_with_slot sample_world default_client sample_request 0)
fetch_with_slot-Run_example =
    fetch_with_slot-Run sample_world default_client default_IsBounded (omega arith) sample_request 0

-- The second attempt delivers.
fetch_tests :
    ((fetch sample_world default_client sample_request 0).0.1 ≡ none)
    × ((fetch sample_world default_client sample_request 0).0.0.attempts ≡ 2)
    × ((fetch sample_world default_client sample_request 0).0.0.body ≡ 1 ∷ 2 ∷ 3 ∷ [])
unfolding fetch_run policy_run retry_after_run hostname to_lower trim_space is as_status backoff
fetch_tests = (refl, refl, refl)

fetch-IsDelivered_example :
    IsDelivered default_client (fetch sample_world default_client sample_request 0).0.0
fetch-IsDelivered_example =
    fetch-IsDelivered sample_world default_client default_IsBounded (omega arith) sample_request 0
      fetch_tests.0

response_outcome_delivers_example :
    ((response_outcome sample_world default_client (response_at 1) 0 2 1).error ≡ none)
    × ((response_outcome sample_world default_client (response_at 1) 0 2 1).result.body
        ≡ (response_at 1).body.bytes)
    × ((response_outcome sample_world default_client (response_at 1) 0 2 1).result.not_modified
        ≡ false)
response_outcome_delivers_example =
    response_outcome_delivers sample_world default_client (response_at 1) 0 2 1 8_388_608 refl
      (omega arith) (omega arith) (omega arith) refl refl (omega arith)
