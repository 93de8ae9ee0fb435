-- ===== src/Tests/Network.antt =====
-- Fetches of internal/retrieval over a small network: the first answer is a redirect.
use feeds_server.Base.{
  ℕ, suc, ◌+◌, ◌-◌, ◌*◌, ◌≤◌, ◌≡◌, ◌⊎◌, inl, inr, refl, sym, ap, arith, String, ◌==◌, true,
  Bool-cases, some-injective, Option, none, some, List, [], ◌∷◌,
}
use feeds_server.Base.Seq.{length}
use feeds_server.Base.Dict.{lookup}
use feeds_server.Base.Text.{to_lower, trim_space}
use feeds_server.Base.Url.{Url, hostname, port}
use feeds_server.Retrieval.Error.{is, as_status}
use feeds_server.Retrieval.Backoff.{backoff}
use feeds_server.Retrieval.RetryAfter.{retry_after_run}
use feeds_server.Retrieval.Policy.{Result, ok, err, policy_run}
use feeds_server.Retrieval.Redirect.{Request, max_redirects, redirect_run}
use feeds_server.Retrieval.Dial.{dial_loop, dial_context}
use feeds_server.Retrieval.Exchange.{size}
use feeds_server.Retrieval.Fetch.{fetch, fetch_run}
use feeds_server.Retrieval.Transport.{HttpLibrary, no_traffic, client_do, networked}
use feeds_server.Retrieval.Transport.Redirects.{Exchange, client_do-ends}
use feeds_server.Retrieval.Transport.Contained.{SameDestination, Contained}
use feeds_server.Retrieval.Transport.Fetches.{fetch-Contained}
use feeds_server.Retrieval.Sleep.{Timers, sleep_context, timed}
use feeds_server.Retrieval.Sleep.Total.{fetch-total}
use feeds_server.Tests.Samples.{
  sample_unicode, sample_urls, sample_dates, sample_addresses, sample_dialer, sample_world,
  sample_parse, sample_print, sample_request, response_at, feed_url, article_url, strict_policy,
  url_of,
}
use feeds_server.Tests.Transport.{default_client, default_IsBounded}

abbrev moved : Request
moved = record { url = url_of "https" "feeds.example" "/new"; header = ("Cookie", "c") ∷ [] }

abbrev first_to_moved : List Request → Option (Result Request)
first_to_moved [] = some (ok moved)
first_to_moved (r ∷ rs) = none

-- Every request goes over a new connection.
abbrev sample_network : HttpLibrary ℕ
sample_network = record {
  connects = λ r n. some ("tcp", "feeds.example:443");
  exchange = λ r conn n. (ok (response_at n), n + 1);
  redirected = λ via r resp. first_to_moved via;
}

network_tests :
    ((fetch
        (networked sample_network strict_policy sample_world)
        default_client
        sample_request
        (0, no_traffic)).0.1
      ≡ none)
    × (length
          (fetch
            (networked sample_network strict_policy sample_world)
            default_client
            sample_request
            (0, no_traffic)).1.1.requests
        ≡ 2)
unfolding fetch_run policy_run redirect_run retry_after_run hostname port to_lower trim_space is
    as_status backoff client_do dial_context dial_loop
network_tests = (refl, refl)

sample_parse-cases :
    (text : String) (url : Url)
    → sample_parse text ≡ some url
    → (url ≡ feed_url) ⊎ (url ≡ article_url)
sample_parse-cases text url h = elim (Bool-cases (text == "https://feeds.example/rss")) [
  | inl feed ↦ inl (sym (some-injective (rw (sample_parse, feed) at h)))
  | inr other ↦ elim (Bool-cases (text == "https://feeds.example:443/a")) [
    | inl article ↦ inr (sym (some-injective (rw (sample_parse, other, article) at h)))
    | inr unknown ↦ absurd (cc (rw (sample_parse, other, unknown) at h))
  ]
]

abbrev answer : {A : Type 0} → A → Result A → A
answer a (ok b) = b
answer a (err e) = a

sample_reads :
    (text : String) (url target : Url)
    → sample_parse text ≡ some url
    → sample_world.new_request (sample_print url) ≡ ok target
    → SameDestination target url
sample_reads text url target parsed made = elim (sample_parse-cases text url parsed) [
  | inl feed ↦
      let same : feed_url ≡ target = ap (answer feed_url) (rw feed at made) in
      rw (← same, feed) (refl, refl, refl)
  | inr article ↦
      let same : article_url ≡ target = ap (answer feed_url) (rw article at made) in
      rw (← same, article) (refl, refl, refl)
]

fetch-Contained_example :
    Contained strict_policy
      (fetch
        (networked sample_network strict_policy sample_world)
        default_client
        sample_request
        (0, no_traffic)).1.1
fetch-Contained_example =
    fetch-Contained sample_network sample_world default_client sample_reads sample_request 0

client_do-ends_example :
    Exchange sample_network strict_policy moved [] 0
      (client_do sample_network strict_policy moved 0)
    × (length (client_do sample_network strict_policy moved 0).traffic.requests ≤ suc max_redirects)
client_do-ends_example = client_do-ends sample_network strict_policy moved 0

-- Every timer fires.
abbrev sample_timers : Timers ℕ
sample_timers = record { fires = λ d n. (true, n) }

timer_tests :
    (fetch (timed sample_timers sample_world) default_client sample_request (0, 0)).1.1
    ≡ 1_000_000_000
unfolding fetch_run policy_run retry_after_run hostname to_lower trim_space is as_status backoff
    sleep_context lookup
timer_tests = refl

fetch-total_example :
    (fetch (timed sample_timers sample_world) default_client sample_request (0, 0)).1.1
    ≤ (size default_client.max_attempts - 1) * 2_000_000_000
fetch-total_example =
    fetch-total sample_timers sample_world default_client default_IsBounded (omega arith)
      sample_request 0
