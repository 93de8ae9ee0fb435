-- ===== src/Retrieval/Fetch/Retries.antt =====
-- The loop of `Fetch`: how often it tries, how long it waits, and what it returns.
use feeds_server.Base.{
  ℕ, ◌+◌, ◌^◌, ◌≤◌, ◌<◌, ◌≡◌, ◌⊎◌, inl, inr, arith, Option, none, some, Option-cases,
}
use feeds_server.Base.Int.{ℤ}
use feeds_server.Base.Text.{Unicode, trim_space}
use feeds_server.Base.Url.{Url, UrlLibrary}
use feeds_server.Retrieval.Error.{Error, plain}
use feeds_server.Retrieval.RetryAfter.{HttpDates, second}
use feeds_server.Retrieval.Policy.{Addresses, validate_url}
use feeds_server.Retrieval.Config.{Client}
use feeds_server.Retrieval.Config.Bounds.{IsBounded, IsPositive}
use feeds_server.Retrieval.Exchange.{FetchRequest, FetchResult, no_result, World, size}
use feeds_server.Retrieval.Fetch.{fetch_with_slot}
use feeds_server.Retrieval.Fetch.Attempt.{IsDelivered}
use feeds_server.Retrieval.Fetch.Runs.{Run, fetch_loop-Run, Run-attempts, Run-IsDelivered}

pub size-pos : (z : ℤ) → IsPositive z → 0 < size z
size-pos z (n, eq, h) = rw eq h

module _ {W : Type 0} ⦃dates : HttpDates⦄ ⦃l : UrlLibrary⦄ ⦃n : Addresses⦄ ⦃u : Unicode⦄
    (world : World W) (c : Client) (input : FetchRequest) (w : W) where
  -- An error before anything is requested, or a run of the loop for a URL that the policy accepts.
  abbrev pub IsRun : ℕ → (FetchResult × Option Error) × W → Type 0
  IsRun limit p =
      ((e : Error) × (p ≡ ((no_result, some e), w)))
      ⊎ ((url : Url) × (l.parse (trim_space input.url) ≡ some url)
          × (validate_url c.policy (some url) ≡ none)
          × Run world c url input (world.now w) limit 1 no_result w p.0.0 p.0.1 p.1)

module _ {W : Type 0} ⦃dates : HttpDates⦄ ⦃l : UrlLibrary⦄ ⦃n : Addresses⦄ ⦃u : Unicode⦄
    (world : World W) (c : Client) (bounded : IsBounded c) (fits : bounded.limit + second < 2 ^ 63)
    (input : FetchRequest) (w : W) where
  -- With a bounded client whose maximal backoff is a second below the end of int64, a fetch that
  -- has its slot either ends with an error before anything is requested, or its URL is accepted by
  -- the policy and it makes a run of the loop from the first attempt, in which every retry comes
  -- after a failure that is worth one, before the last attempt that the client allows, and after a
  -- wait of at most the maximal backoff.
  pub fetch_with_slot-Run : IsRun world c input w bounded.limit (fetch_with_slot world c input w)
  unfolding fetch_with_slot
  fetch_with_slot-Run = elim (Option-cases (l.parse (trim_space input.url))) [
    | inl malformed ↦ inl (plain "parse feed retrieval URL", rw (malformed, fetch_with_slot))
    | inr (url, parsed) ↦ elim (Option-cases (validate_url c.policy (some url))) [
      | inr (e, rejected) ↦ inl (e, rw (parsed, fetch_with_slot, rejected))
      | inl accepted ↦ inr (
        url,
        parsed,
        accepted,
        rw (parsed, fetch_with_slot, accepted)
            (fetch_loop-Run world c url input (world.now w) bounded.base bounded.limit
              bounded.base_backoff bounded.max_backoff bounded.base_positive bounded.ordered fits
              (size c.max_attempts) 1 no_result w (omega arith)
              (size-pos c.max_attempts bounded.attempts) (omega arith)),
      )
    ]
  ]

  pub fetch_with_slot-IsDelivered :
      (fetch_with_slot world c input w).0.1 ≡ none
      → IsDelivered c (fetch_with_slot world c input w).0.0
  fetch_with_slot-IsDelivered h = elim fetch_with_slot-Run [
    | inl (e, failed) ↦ absurd (cc (rw failed at h))
    | inr (url, parsed, accepted, run) ↦ Run-IsDelivered world c url input (world.now w) run h
  ]

  pub fetch_with_slot-attempts :
      (fetch_with_slot world c input w).0.0.attempts ≤ size c.max_attempts
  fetch_with_slot-attempts = elim fetch_with_slot-Run [
    | inl (e, failed) ↦ rw failed (omega arith)
    | inr (url, parsed, accepted, run) ↦
        Run-attempts world c url input (world.now w) run (omega arith)
          (size-pos c.max_attempts bounded.attempts)
  ]
