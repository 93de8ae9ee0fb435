-- ===== src/Retrieval/Fetch/Delivery.antt =====
-- When a response is delivered whole.
use feeds_server.Base.{ℕ, ◌+◌, ◌^◌, ◌≤◌, ◌<◌, ◌≡◌, refl, arith, none, false, leb, ltb, eqb, ◌||◌}
use feeds_server.Base.Seq.{length}
use feeds_server.Base.Int.{pos, ltz}
use feeds_server.Base.Url.{UrlLibrary}
use feeds_server.Feed.Model.{Time}
use feeds_server.Retrieval.RetryAfter.{HttpDates}
use feeds_server.Retrieval.Policy.{ok}
use feeds_server.Retrieval.Config.{Client}
use feeds_server.Retrieval.Exchange.{World, Response, Body, size}
use feeds_server.Retrieval.Fetch.{
  read_limited, read_limit, response_outcome, head_result, body_outcome,
}

read_limit-eq-suc :
    (c : Client) (m : ℕ) → c.max_body_bytes ≡ pos m → m + 1 < 2 ^ 63 → read_limit c ≡ m + 1
unfolding read_limit
read_limit-eq-suc c m max fits = rw max (ground arith)

read_limited_whole :
    (limit : ℕ) (b : Body)
    → length b.bytes < limit
    → b.failure ≡ none
    → read_limited limit b ≡ ok b.bytes
unfolding read_limited
read_limited_whole limit b short whole = ground arith

module _ {W : Type 0} ⦃dates : HttpDates⦄ ⦃l : UrlLibrary⦄ (world : World W) (c : Client) where
  -- With a body limit below the end of int64, a response of status 200 to 299 that announces no
  -- more than the limit, and whose body is read with no failure and within the limit, is returned
  -- with that body unchanged and without an error.
  pub response_outcome_delivers :
      (resp : Response) (started : Time) (attempt : ℕ) (w : W) (m : ℕ)
      → c.max_body_bytes ≡ pos m
      → m + 1 < 2 ^ 63
      → 200 ≤ resp.status_code
      → resp.status_code < 300
      → ltz (pos m) resp.content_length ≡ false
      → resp.body.failure ≡ none
      → length resp.body.bytes ≤ m
      → ((response_outcome world c resp started attempt w).error ≡ none)
        × ((response_outcome world c resp started attempt w).result.body ≡ resp.body.bytes)
        × ((response_outcome world c resp started attempt w).result.not_modified ≡ false)
  unfolding response_outcome head_result
  response_outcome_delivers resp started attempt w m max fits lo hi announced whole short =
      let read = read_limited_whole (m + 1) resp.body (omega arith) whole in
      let limit = read_limit-eq-suc c m max fits in
      let not_cached : eqb resp.status_code 304 ≡ false = ground arith in
      let fine : (ltb resp.status_code 200 || leb 300 resp.status_code) ≡ false = ground arith in
      let fits_announced : ltz c.max_body_bytes resp.content_length ≡ false = rw max announced in
      let small : ltb (size c.max_body_bytes) (length resp.body.bytes) ≡ false =
        rw max (ground arith) in
      rw (not_cached, response_outcome, fine, fits_announced, limit, read, small, body_outcome)
        (refl, refl, refl)
