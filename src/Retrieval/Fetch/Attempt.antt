-- ===== src/Retrieval/Fetch/Attempt.antt =====
-- What one attempt brings back.
use feeds_server.Base.{
  ℕ, ◌+◌, ◌^◌, ◌≤◌, ◌<◌, ◌≡◌, ◌⊎◌, inl, inr, refl, arith, none, true, false, Bool-cases, leb, List,
  ltb, eqb, eqb_iff, ◌||◌,
}
use feeds_server.Base.Seq.{length}
use feeds_server.Base.Int.{pos, ltz}
use feeds_server.Base.Url.{Url, UrlLibrary}
use feeds_server.Feed.Model.{Time}
use feeds_server.Retrieval.RetryAfter.{HttpDates, second}
use feeds_server.Retrieval.RetryAfter.Bounds.{IsCapped, parse_retry_after-IsCapped}
use feeds_server.Retrieval.Policy.{Result, ok, err}
use feeds_server.Retrieval.Policy.Resolved.{Result-cases}
use feeds_server.Retrieval.Config.{Client}
use feeds_server.Retrieval.Exchange.{FetchRequest, FetchResult, World, Response, size}
use feeds_server.Retrieval.Fetch.{
  read_limited, read_limit, body_outcome, response_outcome, sent_outcome, fetch_attempt,
  head_result,
}

-- A result that is returned with no error: the feed has not changed, or it was delivered with a
-- status of success and a body within the limit.
abbrev pub IsDelivered : Client → FetchResult → Type 0
IsDelivered c r =
    ((r.status_code ≡ 304) × (r.not_modified ≡ true))
    ⊎ ((200 ≤ r.status_code)
        × (r.status_code < 300)
        × (r.not_modified ≡ false)
        × (length r.body ≤ size c.max_body_bytes))

module _ (c : Client) where
  body_outcome-IsDelivered :
      (r : FetchResult) (read : Result (List ℕ))
      → 200 ≤ r.status_code
      → r.status_code < 300
      → r.not_modified ≡ false
      → (body_outcome c r read).error ≡ none
      → IsDelivered c (body_outcome c r read).result
  body_outcome-IsDelivered r (err e) lo hi m h = absurd (cc)
  body_outcome-IsDelivered r (ok body) lo hi m h =
      elim (Bool-cases (ltb (size c.max_body_bytes) (length body))) [
        | inl long ↦ absurd (cc (rw (long, body_outcome) at h))
        | inr fits ↦ rw (fits, body_outcome) (inr (lo, hi, m, ground arith))
      ]

  attempts-body_outcome :
      (r : FetchResult) (read : Result (List ℕ))
      → (body_outcome c r read).result.attempts ≡ r.attempts
  attempts-body_outcome r (err e) = refl
  attempts-body_outcome r (ok body) = ground arith

  body_outcome-IsCapped :
      (limit : ℕ) (r : FetchResult) (read : Result (List ℕ))
      → IsCapped limit (body_outcome c r read).retry_after
  body_outcome-IsCapped limit r (err e) = inl refl
  body_outcome-IsCapped limit r (ok body) =
      elim (Bool-cases (ltb (size c.max_body_bytes) (length body))) [
        | inl long ↦ rw (long, body_outcome) (inl refl)
        | inr short ↦ rw (short, body_outcome) (inl refl)
      ]

module _ {W : Type 0} ⦃dates : HttpDates⦄ ⦃l : UrlLibrary⦄ (world : World W) (c : Client) where
  response_outcome-IsDelivered :
      (resp : Response) (started : Time) (attempt : ℕ) (w : W)
      → (response_outcome world c resp started attempt w).error ≡ none
      → IsDelivered c (response_outcome world c resp started attempt w).result
  unfolding response_outcome head_result
  response_outcome-IsDelivered resp started attempt w h =
      elim (Bool-cases (eqb resp.status_code 304)) [
        | inl cached ↦ rw (cached, response_outcome) (inl ((eqb_iff _ _).0 cached, refl))
        | inr other ↦ elim (Bool-cases (ltb resp.status_code 200 || leb 300 resp.status_code)) [
          | inl failed ↦ absurd (cc (rw (other, response_outcome, failed) at h))
          | inr fine ↦ elim (Bool-cases (ltz c.max_body_bytes resp.content_length)) [
            | inl long ↦ absurd (cc (rw (other, response_outcome, fine, long) at h))
            | inr fits ↦
                rw (other, response_outcome, fine, fits)
                  (body_outcome-IsDelivered c (head_result world c resp started attempt w)
                    (read_limited (read_limit c) resp.body) (ground arith) (ground arith) refl
                    (rw (other, response_outcome, fine, fits) at h))
          ]
        ]
      ]

  attempts-response_outcome :
      (resp : Response) (started : Time) (attempt : ℕ) (w : W)
      → (response_outcome world c resp started attempt w).result.attempts ≡ attempt
  unfolding response_outcome head_result
  attempts-response_outcome resp started attempt w = ground (
    arith,
    attempts-body_outcome c (head_result world c resp started attempt w)
        (read_limited (read_limit c) resp.body),
  )

  sent_outcome-IsDelivered :
      (sent : Result Response × W) (started : Time) (attempt : ℕ)
      → (sent_outcome world c sent started attempt).0.error ≡ none
      → IsDelivered c (sent_outcome world c sent started attempt).0.result
  sent_outcome-IsDelivered (err e, w) started attempt h = absurd (cc)
  sent_outcome-IsDelivered (ok resp, w) started attempt h =
      response_outcome-IsDelivered resp started attempt w h

  attempts-sent_outcome :
      (sent : Result Response × W) (started : Time) (attempt : ℕ)
      → (sent_outcome world c sent started attempt).0.result.attempts ≡ attempt
  attempts-sent_outcome (err e, w) started attempt = refl
  attempts-sent_outcome (ok resp, w) started attempt =
      attempts-response_outcome resp started attempt w

  -- An attempt that ends with no error has delivered the feed, or the news that it is unchanged.
  pub fetch_attempt-IsDelivered :
      (url : Url) (input : FetchRequest) (started : Time) (attempt : ℕ) (w : W)
      → (fetch_attempt world c url input started attempt w).0.error ≡ none
      → IsDelivered c (fetch_attempt world c url input started attempt w).0.result
  unfolding fetch_attempt
  fetch_attempt-IsDelivered url input started attempt w h =
      elim (Result-cases (world.new_request (l.print url))) [
        | inr (e, bad) ↦ absurd (cc (rw (bad, fetch_attempt) at h))
        | inl (target, good) ↦
            rw (good, fetch_attempt)
              (sent_outcome-IsDelivered _ started attempt (rw (good, fetch_attempt) at h))
      ]

  -- The result of an attempt carries its number, whatever happened.
  pub attempts-fetch_attempt :
      (url : Url) (input : FetchRequest) (started : Time) (attempt : ℕ) (w : W)
      → (fetch_attempt world c url input started attempt w).0.result.attempts ≡ attempt
  unfolding fetch_attempt
  attempts-fetch_attempt url input started attempt w =
      elim (Result-cases (world.new_request (l.print url))) [
        | inr (e, bad) ↦ rw (bad, fetch_attempt)
        | inl (target, good) ↦ rw (good, fetch_attempt) (attempts-sent_outcome _ started attempt)
      ]

  module _ (limit : ℕ) (max : c.max_backoff ≡ pos limit) (h : 0 < limit)
      (fits : limit + second < 2 ^ 63) where
    response_outcome-IsCapped :
        (resp : Response) (started : Time) (attempt : ℕ) (w : W)
        → IsCapped limit (response_outcome world c resp started attempt w).retry_after
    unfolding response_outcome
    response_outcome-IsCapped resp started attempt w =
        elim (Bool-cases (eqb resp.status_code 304)) [
          | inl cached ↦ rw (cached, response_outcome) (inl refl)
          | inr other ↦ elim (Bool-cases (ltb resp.status_code 200 || leb 300 resp.status_code)) [
            | inl failed ↦
                rw (other, response_outcome, failed, max)
                  (parse_retry_after-IsCapped _ (world.now w) limit h fits)
            | inr fine ↦ elim (Bool-cases (ltz c.max_body_bytes resp.content_length)) [
              | inl long ↦ rw (other, response_outcome, fine, long) (inl refl)
              | inr short ↦
                  rw (other, response_outcome, fine, short)
                    (body_outcome-IsCapped c limit (head_result world c resp started attempt w)
                      (read_limited (read_limit c) resp.body))
            ]
          ]
        ]

    sent_outcome-IsCapped :
        (sent : Result Response × W) (started : Time) (attempt : ℕ)
        → IsCapped limit (sent_outcome world c sent started attempt).0.retry_after
    sent_outcome-IsCapped (err e, w) started attempt = inl refl
    sent_outcome-IsCapped (ok resp, w) started attempt =
        response_outcome-IsCapped resp started attempt w

    -- The delay that an attempt reports is none or at most the client's maximum.
    pub fetch_attempt-IsCapped :
        (url : Url) (input : FetchRequest) (started : Time) (attempt : ℕ) (w : W)
        → IsCapped limit (fetch_attempt world c url input started attempt w).0.retry_after
    unfolding fetch_attempt
    fetch_attempt-IsCapped url input started attempt w =
        elim (Result-cases (world.new_request (l.print url))) [
          | inr (e, bad) ↦ rw (bad, fetch_attempt) (inl refl)
          | inl (target, good) ↦ rw (good, fetch_attempt) (sent_outcome-IsCapped _ started attempt)
        ]
