-- ===== src/Retrieval/Fetch/Ends.antt =====
-- What `Fetch` returns, and how it uses the semaphore.
use feeds_server.Base.{◌+◌, ◌^◌, ◌≤◌, ◌<◌, ◌≡◌, inl, inr, arith, none, Option-cases}
use feeds_server.Base.Text.{Unicode}
use feeds_server.Base.Url.{UrlLibrary}
use feeds_server.Retrieval.RetryAfter.{HttpDates, second}
use feeds_server.Retrieval.Policy.{Addresses}
use feeds_server.Retrieval.Config.{Client}
use feeds_server.Retrieval.Config.Bounds.{IsBounded}
use feeds_server.Retrieval.Exchange.{FetchRequest, World, size}
use feeds_server.Retrieval.Fetch.{fetch}
use feeds_server.Retrieval.Fetch.Attempt.{IsDelivered}
use feeds_server.Retrieval.Fetch.Retries.{fetch_with_slot-IsDelivered, fetch_with_slot-attempts}

module _ {W : Type 0} ⦃dates : HttpDates⦄ ⦃l : UrlLibrary⦄ ⦃n : Addresses⦄ ⦃u : Unicode⦄
    (world : World W) (c : Client) (bounded : IsBounded c) (fits : bounded.limit + second < 2 ^ 63)
    (input : FetchRequest) (w : W) where
  -- With a bounded client whose maximal backoff is a second below the end of int64, a fetch that
  -- returns no error returns a delivered feed: a 304 that is marked as not modified, or a status
  -- from 200 to 299 and a body within the limit.
  pub fetch-IsDelivered :
      (fetch world c input w).0.1 ≡ none → IsDelivered c (fetch world c input w).0.0
  unfolding fetch
  fetch-IsDelivered h = elim (Option-cases (world.acquire w).0) [
    | inr (e, busy) ↦ absurd (cc (rw (busy, fetch) at h))
    | inl free ↦
        rw (free, fetch)
          (fetch_with_slot-IsDelivered world c bounded fits input _ (rw (free, fetch) at h))
  ]

  -- With a bounded client whose maximal backoff is a second below the end of int64, the result of
  -- a fetch, also of one that fails, counts at most the attempts that the client allows.
  pub fetch-attempts : (fetch world c input w).0.0.attempts ≤ size c.max_attempts
  unfolding fetch
  fetch-attempts = elim (Option-cases (world.acquire w).0) [
    | inr (e, busy) ↦ rw (busy, fetch) (omega arith)
    | inl free ↦ rw (free, fetch) (fetch_with_slot-attempts world c bounded fits input _)
  ]
