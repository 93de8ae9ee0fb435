-- ===== src/Retrieval/Fetch/Kept.antt =====
-- What an attempt leaves of the world: only `http.Client.Do` changes it.
use feeds_server.Base.{ℕ, ◌≡◌, refl, inl, inr}
use feeds_server.Base.Url.{Url, UrlLibrary}
use feeds_server.Feed.Model.{Time}
use feeds_server.Retrieval.RetryAfter.{HttpDates}
use feeds_server.Retrieval.Policy.{Result, ok, err}
use feeds_server.Retrieval.Policy.Resolved.{Result-cases}
use feeds_server.Retrieval.Config.{Client}
use feeds_server.Retrieval.Exchange.{FetchRequest, World, Response}
use feeds_server.Retrieval.Fetch.{request_header, sent_outcome, fetch_attempt}

module _ {W : Type 0} ⦃dates : HttpDates⦄ ⦃l : UrlLibrary⦄ (world : World W) (c : Client) where
  sent_outcome-state :
      (sent : Result Response × W) (started : Time) (attempt : ℕ)
      → (sent_outcome world c sent started attempt).1 ≡ sent.1
  sent_outcome-state (err e, w) started attempt = refl
  sent_outcome-state (ok resp, w) started attempt = refl

  -- What holds before an attempt and behind the request that it sends holds behind it.
  pub fetch_attempt-keeps :
      (Q : W → Type 0) (url : Url) (input : FetchRequest) (started : Time) (attempt : ℕ) (w : W)
      → ((target : Url)
          → world.new_request (l.print url) ≡ ok target
          → Q
              (world.send
                (record { url = target; header = request_header c.user_agent input })
                w).1)
      → Q w
      → Q (fetch_attempt world c url input started attempt w).1
  unfolding fetch_attempt
  fetch_attempt-keeps Q url input started attempt w sends h =
      elim (Result-cases (world.new_request (l.print url))) [
        | inr (e, bad) ↦ rw (fetch_attempt, bad) h
        | inl (target, made) ↦
            rw (fetch_attempt, made, sent_outcome-state _ started attempt) (sends target made)
      ]
