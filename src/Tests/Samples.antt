-- ===== src/Tests/Samples.antt =====
-- Small instances of the libraries that the program calls, and data for the tests.
use Prim.Native.Char.{Char, code}
use Prim.Native.String.{◌++◌}
use feeds_server.Base.{ℕ, ◌+◌, String, ◌==◌, Option, none, some, [], ◌∷◌, eqb, if◌then◌else◌, false}
use feeds_server.Base.Int.{pos}
use feeds_server.Base.Address.{Addr, v4}
use feeds_server.Base.Text.{Unicode}
use feeds_server.Base.Url.{Url, UrlLibrary}
use feeds_server.Feed.Model.{Article}
use feeds_server.Feed.Dedup.Keys.{Fingerprinting}
use feeds_server.Retrieval.Error.{plain}
use feeds_server.Retrieval.RetryAfter.{HttpDates}
use feeds_server.Retrieval.Policy.{ok, err, Addresses, DestinationPolicy}
use feeds_server.Retrieval.Dial.{NetDialer}
use feeds_server.Retrieval.Config.{Config}
use feeds_server.Retrieval.Exchange.{World, FetchRequest, Response}

abbrev pub lower_letter : Char → Char
lower_letter c =
    if eqb (code c) b'A'
    then "a"
    else if eqb (code c) b'H'
    then "h"
    else if eqb (code c) b'T'
    then "t"
    else c

-- A case table with three letters.
instance abbrev pub sample_unicode : Unicode
sample_unicode = record { to_lower = lower_letter; to_upper = λ c. c; fold = lower_letter }

abbrev pub url_of : String → String → String → Url
url_of scheme host path = record {
  scheme = scheme;
  opaque = "";
  user = none;
  host = host;
  path = path;
  raw_path = "";
  omit_host = false;
  force_query = false;
  raw_query = "";
  fragment = "";
  raw_fragment = "";
}

abbrev pub feed_url : Url
feed_url = url_of "https" "feeds.example" "/rss"

abbrev pub article_url : Url
article_url = url_of "https" "feeds.example:443" "/a"

abbrev pub sample_parse : String → Option Url
sample_parse s =
    if s == "https://feeds.example/rss"
    then some feed_url
    else if s == "https://feeds.example:443/a"
    then some article_url
    else none

abbrev pub sample_print : Url → String
sample_print u = u.scheme ++ ("://" ++ (u.host ++ u.path))

instance abbrev pub sample_urls : UrlLibrary
sample_urls = record { parse = sample_parse; print = sample_print; encode_query = λ q. q }

-- The text itself in place of its digest.
instance abbrev pub sample_fingerprints : Fingerprinting
sample_fingerprints = record {
  sha256_hex = λ s. s;
  format_time = λ t. if eqb t 0 then "0001-01-01T00:00:00Z" else "0001-01-01T00:00:01Z";
}

instance abbrev pub sample_dates : HttpDates
sample_dates = record {
  parse_time = λ s. if s == "Mon, 01 Jan 0001 00:00:05 GMT" then some 5_000_000_000 else none;
}

abbrev pub public_addr : Addr
public_addr = v4 0x08080808

abbrev pub local_addr : Addr
local_addr = v4 0x7f000001

-- One name with a public address, and one that has a loopback address behind it.
instance abbrev pub sample_addresses : Addresses
sample_addresses = record {
  parse_addr = λ s. if s == "127.0.0.1" then some local_addr else none;
  lookup_net_ip = λ s.
      if s == "feeds.example"
      then ok (public_addr ∷ v4 0x08080404 ∷ [])
      else if s == "rebind.example"
      then ok (public_addr ∷ local_addr ∷ [])
      else err (plain "no such host");
}

-- Every connection on port 443 succeeds, every other fails.
instance abbrev pub sample_dialer : NetDialer
sample_dialer = record {
  split_host_port = λ s.
      if s == "feeds.example:443" then ok ("feeds.example", "443") else err (plain "missing port");
  dial = λ network a port. if port == "443" then ok 7 else err (plain "refused");
}

abbrev pub strict_policy : DestinationPolicy
strict_policy = record { allow_plain_http = false; allowed_networks = [] }

abbrev pub zero_config : Config
zero_config = record {
  request_timeout = pos 0;
  connect_timeout = pos 0;
  response_header_timeout = pos 0;
  max_body_bytes = pos 0;
  max_concurrent = pos 0;
  max_attempts = pos 0;
  base_backoff = pos 0;
  max_backoff = pos 0;
  allow_plain_http = false;
  allowed_networks = [];
  user_agent = "";
}

abbrev pub article_of : String → String → String → Article
article_of feed_id identifier url = record {
  id = "";
  feed_id = feed_id;
  identifier = identifier;
  url = url;
  title = "";
  author = "";
  published_at = none;
  updated_at = none;
  summary = "";
  content = "";
  categories = [];
  tags = [];
  media = [];
  images = [];
  language = "";
  source = record { format = ""; url = "" };
}

-- A server that answers 503 at the first request and delivers at the second; the state counts the
-- requests.
abbrev pub response_at : ℕ → Response
response_at n = record {
  url = feed_url;
  status_code = if eqb n 0 then 503 else 200;
  header = ("Retry-After", "1") ∷ [];
  content_length = pos 3;
  body = record { bytes = 1 ∷ 2 ∷ 3 ∷ []; failure = none };
}

abbrev pub sample_world : World ℕ
sample_world = record {
  ctx_err = λ n. none;
  now = λ n. n;
  acquire = λ n. (none, n);
  release = λ n. n;
  new_request = λ s. elim (sample_parse s) [ none ↦ err (plain "parse") | some u ↦ ok u ];
  send = λ r n. (ok (response_at n), n + 1);
  sleep = λ d n. (none, n);
}

abbrev pub sample_request : FetchRequest
sample_request = record { url = " https://feeds.example/rss "; etag = "x"; last_modified = "" }
