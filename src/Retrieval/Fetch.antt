-- ===== src/Retrieval/Fetch.antt =====
-- `Fetch`, `fetchAttempt` and `shouldRetry` of internal/retrieval/client.go, over a world that
-- answers the calls of the context, the clock, the semaphore, `http.Client.Do` and `sleep`.
pub mod Attempt
pub mod Delivery
pub mod Ends
pub mod Kept
pub mod Retries
pub mod Runs
use feeds_server.Base.{
  ℕ, zero, suc, ◌+◌, ◌-◌, String, ◌==◌, Bool, true, false, ◌&&◌, ◌||◌, not, ltb, leb, eqb, Option,
  none, some, List, [], ◌∷◌, if◌then◌else◌,
}
use feeds_server.Base.Seq.{length, take}
use feeds_server.Base.Dict.{Dict, lookup, insert}
use feeds_server.Base.Int.{ℤ, pos, negsuc, minus_one, ltz, is_negative, wrap_int64}
use feeds_server.Base.Text.{Unicode, trim_space}
use feeds_server.Base.Url.{Url, UrlLibrary}
use feeds_server.Feed.Model.{Time}
use feeds_server.Retrieval.Error.{
  Error, sentinel, http_status, wrapped, plain, is, as_status, response_too_large, https_downgrade,
  too_many_redirects, destination_blocked, embedded_credentials, unsupported_scheme,
}
use feeds_server.Retrieval.Backoff.{backoff}
use feeds_server.Retrieval.RetryAfter.{HttpDates, sub_time, parse_retry_after}
use feeds_server.Retrieval.Policy.{Result, ok, err, Addresses, validate_url}
use feeds_server.Retrieval.Redirect.{Request}
use feeds_server.Retrieval.Config.{Client}
use feeds_server.Retrieval.Exchange.{
  FetchRequest, FetchResult, no_result, Body, Response, World, size,
}

-- `io.ReadAll(io.LimitReader(body, limit))`
unfoldable pub read_limited : ℕ → Body → Result (List ℕ)
read_limited limit body =
    if leb limit (length body.bytes)
    then ok (take limit body.bytes)
    else elim body.failure [ some e ↦ err e | none ↦ ok body.bytes ]

-- `c.maxBodyBytes+1` on `int64`, as the limit of a reader, which reads nothing where it is negative.
unfoldable pub read_limit : Client → ℕ
read_limit c = size (wrap_int64 (pos (size c.max_body_bytes + 1)))

-- `header.Get`
unfoldable pub header_get : String → Dict String → String
header_get name h = elim (lookup name h) [ none ↦ "" | some v ↦ v ]

abbrev pub set_unless_blank : String → String → Dict String → Dict String
set_unless_blank name value h = if not (value == "") then insert name value h else h

-- The header of the request.
unfoldable pub request_header : String → FetchRequest → Dict String
request_header user_agent input =
    set_unless_blank "If-Modified-Since" (trim_space input.last_modified) (
      set_unless_blank "If-None-Match" (trim_space input.etag) (
        insert "Pragma" "no-cache" (
          insert "Cache-Control" "no-cache" (
            insert "User-Agent" user_agent (
              insert "Accept"
                "application/atom+xml, application/rss+xml, application/xml, text/xml, */*;q=0.1"
                [])))))

-- The statuses that are worth another attempt.
unfoldable pub is_transient : ℕ → Bool
is_transient code =
    eqb code 408
    || (eqb code 425
        || (eqb code 429 || (eqb code 500 || (eqb code 502 || (eqb code 503 || eqb code 504)))))

-- The errors that another attempt cannot mend.
unfoldable pub is_final : Error → Bool
is_final e =
    is response_too_large e
    || (is https_downgrade e
        || (is too_many_redirects e
            || (is destination_blocked e
                || (is embedded_credentials e || is unsupported_scheme e))))

-- `shouldRetry` at an error that is not nil, with what `ctx.Err()` is.
unfoldable pub should_retry : Option Error → Error → Bool
should_retry (some canceled) e = false
should_retry none e = elim (as_status e) [ some code ↦ is_transient code | none ↦ not (is_final e) ]

-- What `fetchAttempt` returns: the result, the delay that the server asks for, and the error.
pub record Outcome : Type 0 where
  pub result : FetchResult
  pub retry_after : ℤ
  pub error : Option Error

-- The end of `fetchAttempt`: the body is read, up to one byte more than the limit.
abbrev pub body_outcome : Client → FetchResult → Result (List ℕ) → Outcome
body_outcome c result (err e) = record {
  result = result;
  retry_after = minus_one;
  error = some (wrapped "read feed retrieval response" e);
}
body_outcome c result (ok body) =
    if ltb (size c.max_body_bytes) (length body)
    then record {
      result = result;
      retry_after = minus_one;
      error = some (sentinel response_too_large);
    }
    else record { result = record result { body = body }; retry_after = minus_one; error = none }

-- The delay before the next attempt.
abbrev pub retry_delay : Client → ℤ → ℕ → ℤ
retry_delay c retry_after attempt =
    if is_negative retry_after then backoff c.base_backoff c.max_backoff attempt else retry_after

module _ {W : Type 0} ⦃dates : HttpDates⦄ ⦃l : UrlLibrary⦄ (world : World W) (c : Client) where
  -- The result that holds the head of a response; `finish` has set the duration.
  unfoldable pub head_result : Response → Time → ℕ → W → FetchResult
  head_result resp started attempt w = record no_result {
    url = l.print resp.url;
    status_code = resp.status_code;
    etag = trim_space (header_get "Etag" resp.header);
    last_modified = trim_space (header_get "Last-Modified" resp.header);
    content_type = trim_space (header_get "Content-Type" resp.header);
    fetched_at = world.now w;
    duration = sub_time (world.now w) started;
    attempts = attempt;
  }

  -- The branches behind a response, in the order of the source.
  unfoldable pub response_outcome : Response → Time → ℕ → W → Outcome
  response_outcome resp started attempt w =
      let result = head_result resp started attempt w in
      if eqb resp.status_code 304
      then record {
        result = record result { not_modified = true };
        retry_after = minus_one;
        error = none;
      }
      else if ltb resp.status_code 200 || leb 300 resp.status_code
      then record {
        result = result;
        retry_after =
            parse_retry_after (header_get "Retry-After" resp.header) (world.now w) c.max_backoff;
        error = some (http_status resp.status_code);
      }
      else if ltz c.max_body_bytes resp.content_length
      then record {
        result = result;
        retry_after = minus_one;
        error = some (sentinel response_too_large);
      }
      else body_outcome c result (read_limited (read_limit c) resp.body)

  -- No response: the attempt and the time it took.
  abbrev pub failed_outcome : String → Error → Time → ℕ → W → Outcome
  failed_outcome message e started attempt w = record {
    result = record no_result { attempts = attempt; duration = sub_time (world.now w) started };
    retry_after = minus_one;
    error = some (wrapped message e);
  }

  abbrev pub sent_outcome : Result Response × W → Time → ℕ → Outcome × W
  sent_outcome (err e, w) started attempt = (failed_outcome "retrieve feed" e started attempt w, w)
  sent_outcome (ok resp, w) started attempt = (response_outcome resp started attempt w, w)

  unfoldable pub fetch_attempt : Url → FetchRequest → Time → ℕ → W → Outcome × W
  fetch_attempt url input started attempt w = elim (world.new_request (l.print url)) [
    | err e ↦ (failed_outcome "create feed retrieval request" e started attempt w, w)
    | ok target ↦
        sent_outcome
          (world.send (record { url = target; header = request_header c.user_agent input }) w)
          started attempt
  ]

  -- The loop of `Fetch`, with the rounds that are left.
  unfoldable pub fetch_loop :
      Url → FetchRequest → Time → ℕ → ℕ → FetchResult → W → (FetchResult × Option Error) × W
  fetch_loop url input started zero attempt last w =
      ((last, some (plain "feed retrieval exhausted configured attempts")), w)
  fetch_loop url input started (suc rounds) attempt last w = elim (world.ctx_err w) [
    | some e ↦ ((last, some e), w)
    | none ↦
        let (outcome, w') = fetch_attempt url input started attempt w in
        elim outcome.error [
          | none ↦ ((outcome.result, none), w')
          | some e ↦
              elim (eqb attempt (size c.max_attempts) || not (should_retry (world.ctx_err w') e)) [
                | true ↦ ((outcome.result, some e), w')
                | false ↦
                    let (woken, w'') = world.sleep (retry_delay c outcome.retry_after attempt) w' in
                    elim woken [
                      | some e' ↦ ((outcome.result, some e'), w'')
                      | none ↦ fetch_loop url input started rounds (attempt + 1) outcome.result w''
                    ]
              ]
        ]
  ]

module _ {W : Type 0} ⦃dates : HttpDates⦄ ⦃l : UrlLibrary⦄ ⦃n : Addresses⦄ ⦃u : Unicode⦄
    (world : World W) (c : Client) where
  -- `Fetch` with a slot of the semaphore.
  unfoldable pub fetch_with_slot : FetchRequest → W → (FetchResult × Option Error) × W
  fetch_with_slot input w = elim (l.parse (trim_space input.url)) [
    | none ↦ ((no_result, some (plain "parse feed retrieval URL")), w)
    | some url ↦ elim (validate_url c.policy (some url)) [
      | some e ↦ ((no_result, some e), w)
      | none ↦ fetch_loop world c url input (world.now w) (size c.max_attempts) 1 no_result w
    ]
  ]

  unfoldable pub fetch : FetchRequest → W → (FetchResult × Option Error) × W
  fetch input w =
      let (waited, w') = world.acquire w in
      elim waited [
        | some e ↦ ((no_result, some e), w')
        | none ↦ let (result, w'') = fetch_with_slot input w' in (result, world.release w'')
      ]

-- Opens all that `fetch` goes through.
unfoldable pub fetch_run : Unit {0}
unfolding fetch fetch_with_slot fetch_loop fetch_attempt response_outcome head_result read_limited
    read_limit header_get should_retry is_transient is_final request_header
fetch_run = tt
