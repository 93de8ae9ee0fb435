-- ===== src/Retrieval/Fetch/Runs.antt =====
-- The loop of `Fetch` as a relation: each way to end, and each retry.
use Prim.Native.Nat.{min}
use feeds_server.Base.{
  ℕ, zero, suc, ◌+◌, ◌*◌, ◌^◌, ◌≤◌, ◌<◌, ◌≡◌, ◌≢◌, ◌⊎◌, inl, inr, refl, sym, ◌∙◌, ap, subst, arith,
  Option, none, some, true, false, Bool, Bool-cases, Option-cases, eqb, not, ◌||◌,
}
use feeds_server.Base.Int.{ℤ, pos}
use feeds_server.Base.Url.{Url, UrlLibrary}
use feeds_server.Feed.Model.{Time}
use feeds_server.Retrieval.Error.{Error}
use feeds_server.Retrieval.Backoff.Bounds.{backoff-eq-min}
use feeds_server.Retrieval.RetryAfter.{HttpDates, second}
use feeds_server.Retrieval.RetryAfter.Bounds.{IsCapped}
use feeds_server.Retrieval.Config.{Client}
use feeds_server.Retrieval.Exchange.{FetchRequest, FetchResult, World, size}
use feeds_server.Retrieval.Fetch.{Outcome, should_retry, fetch_attempt, fetch_loop, retry_delay}
use feeds_server.Retrieval.Fetch.Attempt.{
  IsDelivered, fetch_attempt-IsDelivered, attempts-fetch_attempt, fetch_attempt-IsCapped,
}

go_on :
    (attempt max : ℕ) (retry : Bool)
    → (eqb attempt max || not retry) ≡ false
    → (attempt ≢ max) × (retry ≡ true)
go_on attempt max retry h = ground arith

module _ {W : Type 0} ⦃dates : HttpDates⦄ ⦃l : UrlLibrary⦄ (world : World W) (c : Client)
    (url : Url) (input : FetchRequest) (started : Time) where
  -- A run of the loop from an attempt on, with its last result: each constructor is a way for the
  -- loop to end, or a retry with all that must hold for one.
  pub data Run (limit : ℕ) : ℕ → FetchResult → W → FetchResult → Option Error → W → Type 0 where
    -- The context is done before the attempt.
    canceled :
        (attempt : ℕ) (last : FetchResult) (w : W) (e : Error)
        → world.ctx_err w ≡ some e
        → Run limit attempt last w last (some e) w
    -- The attempt delivers.
    delivered :
        (attempt : ℕ) (last : FetchResult) (w w' : W) (o : Outcome)
        → fetch_attempt world c url input started attempt w ≡ (o, w')
        → o.error ≡ none
        → Run limit attempt last w o.result none w'
    -- The attempt fails, and it was the last one or its error is not worth another.
    gave_up :
        (attempt : ℕ) (last : FetchResult) (w w' : W) (o : Outcome) (e : Error)
        → fetch_attempt world c url input started attempt w ≡ (o, w')
        → o.error ≡ some e
        → ((attempt ≡ size c.max_attempts) ⊎ (should_retry (world.ctx_err w') e ≡ false))
        → Run limit attempt last w o.result (some e) w'
    -- The context ends the wait before the next attempt.
    interrupted :
        (attempt : ℕ) (last : FetchResult) (w w' w'' : W) (o : Outcome) (e e' : Error) (d : ℕ)
        → fetch_attempt world c url input started attempt w ≡ (o, w')
        → o.error ≡ some e
        → attempt ≢ size c.max_attempts
        → should_retry (world.ctx_err w') e ≡ true
        → d ≤ limit
        → world.sleep (pos d) w' ≡ (some e', w'')
        → Run limit attempt last w o.result (some e') w''
    -- Another attempt, after a wait of at most the limit.
    retried :
        (attempt : ℕ) (last r' : FetchResult) (w w' w'' w₃ : W) (o : Outcome) (e : Error)
        (final : Option Error) (d : ℕ)
        → fetch_attempt world c url input started attempt w ≡ (o, w')
        → o.error ≡ some e
        → attempt ≢ size c.max_attempts
        → should_retry (world.ctx_err w') e ≡ true
        → d ≤ limit
        → world.sleep (pos d) w' ≡ (none, w'')
        → Run limit (attempt + 1) o.result w'' r' final w₃
        → Run limit attempt last w r' final w₃

  module _ (base limit : ℕ) (base_eq : c.base_backoff ≡ pos base)
      (limit_eq : c.max_backoff ≡ pos limit) (h : 0 < base) (le : base ≤ limit)
      (fits : limit + second < 2 ^ 63) where
    retry_delay-le :
        (z : ℤ) (attempt : ℕ)
        → 0 < attempt
        → IsCapped limit z
        → (d : ℕ) × (retry_delay c z attempt ≡ pos d) × (d ≤ limit)
    retry_delay-le z zero ha capped = absurd (omega arith)
    retry_delay-le z (suc n) ha (inl absent) = (
      min (base * 2 ^ n) limit,
      rw (absent, base_eq, limit_eq) (backoff-eq-min base limit n h le (omega arith)),
      omega arith,
    )
    retry_delay-le z (suc n) ha (inr (d, asked, fine)) = (d, rw asked, fine)

    pub fetch_loop-Run :
        (rounds attempt : ℕ) (last : FetchResult) (w : W)
        → 0 < attempt
        → 0 < rounds
        → attempt + rounds ≡ size c.max_attempts + 1
        → Run limit attempt last w
            (fetch_loop world c url input started rounds attempt last w).0.0
            (fetch_loop world c url input started rounds attempt last w).0.1
            (fetch_loop world c url input started rounds attempt last w).1
    unfolding fetch_loop
    fetch_loop-Run zero attempt last w ha hr sum = absurd (omega arith)
    fetch_loop-Run (suc rounds) attempt last w ha hr sum =
        let o = (fetch_attempt world c url input started attempt w).0 in
        let w' = (fetch_attempt world c url input started attempt w).1 in
        let (d, delay, fine) = retry_delay-le o.retry_after attempt ha (
          fetch_attempt-IsCapped world c limit limit_eq (omega arith) fits url input started attempt
            w) in
        elim (Option-cases (world.ctx_err w)) [
          | inr (e, dead) ↦ rw (dead, fetch_loop) (canceled attempt last w e dead)
          | inl alive ↦ elim (Option-cases o.error) [
            | inl good ↦ rw (alive, fetch_loop, good) (delivered attempt last w w' o refl good)
            | inr (e, failed) ↦
                elim (Bool-cases
                  (eqb attempt (size c.max_attempts) || not (should_retry (world.ctx_err w') e))) [
                    | inl stop ↦
                        rw (alive, fetch_loop, failed, stop)
                          (gave_up attempt last w w' o e refl failed (ground arith))
                    | inr again ↦
                        let w'' = (world.sleep (pos d) w').1 in
                        elim (Option-cases (world.sleep (pos d) w').0) [
                          | inr (e', woken) ↦
                              rw (alive, fetch_loop, failed, again, delay, woken, delay)
                                (interrupted attempt last w w' w'' o e e' d refl failed
                                  (go_on attempt (size c.max_attempts) _ again).0
                                  (go_on attempt (size c.max_attempts) _ again).1 fine
                                  (λ i. (woken i, w'')))
                          | inl rested ↦
                              rw (alive, fetch_loop, failed, again, delay, rested, delay)
                                (retried attempt last _ w w' w'' _ o e _ d refl failed
                                  (go_on attempt (size c.max_attempts) _ again).0
                                  (go_on attempt (size c.max_attempts) _ again).1 fine
                                  (λ i. (rested i, w''))
                                  (fetch_loop-Run rounds (attempt + 1) o.result w'' (omega arith)
                                    (omega (arith, (go_on attempt (size c.max_attempts) _ again).0))
                                    (omega arith)))
                        ]
                  ]
          ]
        ]

  attempts_tried :
      (attempt : ℕ) (w w' : W) (o : Outcome)
      → fetch_attempt world c url input started attempt w ≡ (o, w')
      → o.result.attempts ≡ attempt
  attempts_tried attempt w w' o tried =
      sym (ap (λ p. p.0.result.attempts) tried)
      ∙ attempts-fetch_attempt world c url input started attempt w

  tried-IsDelivered :
      (attempt : ℕ) (w w' : W) (o : Outcome)
      → fetch_attempt world c url input started attempt w ≡ (o, w')
      → o.error ≡ none
      → IsDelivered c o.result
  tried-IsDelivered attempt w w' o tried good =
      subst (λ p. IsDelivered c p.0.result) tried
        (fetch_attempt-IsDelivered world c url input started attempt w
          (ap (λ p. p.0.error) tried ∙ good))

  -- Whatever happens, the result of a run counts no more attempts than the client allows.
  pub Run-attempts :
      {limit attempt : ℕ} {last r : FetchResult} {w w' : W} {e : Option Error}
      → Run limit attempt last w r e w'
      → last.attempts ≤ size c.max_attempts
      → attempt ≤ size c.max_attempts
      → r.attempts ≤ size c.max_attempts
  Run-attempts (canceled attempt last w e dead) hl ha = hl
  Run-attempts (delivered attempt last w w' o tried good) hl ha =
      omega (arith, attempts_tried attempt w w' o tried)
  Run-attempts (gave_up attempt last w w' o e tried failed stop) hl ha =
      omega (arith, attempts_tried attempt w w' o tried)
  Run-attempts (interrupted attempt last w w' w'' o e e' d tried failed more retry le woken) hl ha =
      omega (arith, attempts_tried attempt w w' o tried)
  Run-attempts
        (retried attempt last r' w w' w'' w₃ o e final d tried failed more retry le rested rest) hl
        ha =
      Run-attempts rest (omega (arith, attempts_tried attempt w w' o tried)) (omega arith)

  -- A run that ends with no error has delivered.
  pub Run-IsDelivered :
      {limit attempt : ℕ} {last r : FetchResult} {w w' : W} {e : Option Error}
      → Run limit attempt last w r e w'
      → e ≡ none
      → IsDelivered c r
  Run-IsDelivered (canceled attempt last w e dead) h = absurd (cc)
  Run-IsDelivered (delivered attempt last w w' o tried good) h =
      tried-IsDelivered attempt w w' o tried good
  Run-IsDelivered (gave_up attempt last w w' o e tried failed stop) h = absurd (cc)
  Run-IsDelivered (interrupted attempt last w w' w'' o e e' d tried failed more retry le woken) h =
      absurd (cc)
  Run-IsDelivered
        (retried attempt last r' w w' w'' w₃ o e final d tried failed more retry le rested rest) h =
      Run-IsDelivered rest h
