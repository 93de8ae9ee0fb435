-- ===== src/Retrieval/Sleep/Total.antt =====
-- How long a whole `Fetch` sleeps.
use feeds_server.Base.{
  ℕ, zero, suc, ◌+◌, ◌-◌, ◌*◌, ◌^◌, ◌≤◌, ◌<◌, ◌≡◌, ◌∙◌, refl, sym, ap, arith, inl, inr, Option,
  none, some, Option-cases,
}
use feeds_server.Base.Int.{pos}
use feeds_server.Base.Text.{Unicode}
use feeds_server.Base.Url.{Url, UrlLibrary}
use feeds_server.Feed.Model.{Time}
use feeds_server.Retrieval.Error.{Error}
use feeds_server.Retrieval.RetryAfter.{HttpDates, second}
use feeds_server.Retrieval.Policy.{Addresses}
use feeds_server.Retrieval.Config.{Client}
use feeds_server.Retrieval.Config.Bounds.{IsBounded}
use feeds_server.Retrieval.Exchange.{FetchRequest, FetchResult, World, size}
use feeds_server.Retrieval.Fetch.{Outcome, fetch_attempt, fetch_with_slot, fetch}
use feeds_server.Retrieval.Fetch.Kept.{fetch_attempt-keeps}
use feeds_server.Retrieval.Fetch.Runs.{Run, canceled, delivered, gave_up, interrupted, retried}
use feeds_server.Retrieval.Fetch.Retries.{fetch_with_slot-Run, size-pos}
use feeds_server.Retrieval.Sleep.{Timers, sleep_context, timed}

suc_times : (k limit : ℕ) → suc k * limit ≡ limit + k * limit
suc_times k limit = omega arith

module _ {W : Type 0} (timers : Timers W) (base : World W) where
  sleep_context-le : (d : ℕ) (s : W × ℕ) → (sleep_context timers base (pos d) s).1.1 ≤ s.1 + d
  unfolding sleep_context
  sleep_context-le d s = ground arith

module _ {W : Type 0} ⦃dates : HttpDates⦄ ⦃l : UrlLibrary⦄ (timers : Timers W) (base : World W)
    (c : Client) (url : Url) (input : FetchRequest) (started : Time) (limit : ℕ) where
  tried-same :
      (attempt : ℕ) (s s' : W × ℕ) (o : Outcome)
      → fetch_attempt (timed timers base) c url input started attempt s ≡ (o, s')
      → s'.1 ≡ s.1
  tried-same attempt s s' o tried =
      sym (ap (λ p. p.1.1) tried)
      ∙ fetch_attempt-keeps (timed timers base) c (λ t. t.1 ≡ s.1) url input started attempt s
          (λ target made. refl) refl

  slept-le :
      (attempt d : ℕ) (s s' s'' : W × ℕ) (o : Outcome) (woken : Option Error)
      → fetch_attempt (timed timers base) c url input started attempt s ≡ (o, s')
      → sleep_context timers base (pos d) s' ≡ (woken, s'')
      → d ≤ limit
      → s''.1 ≤ s.1 + limit
  slept-le attempt d s s' s'' o woken tried slept le = omega (
    arith,
    tried-same attempt s s' o tried,
    sleep_context-le timers base d s',
    ap (λ p. p.1.1) slept,
  )

  -- With so many retries left, a run sleeps at most that many times the limit.
  Run-total :
      (k attempt : ℕ) (last r : FetchResult) (s t : W × ℕ) (e : Option Error)
      → attempt + k ≡ size c.max_attempts
      → Run (timed timers base) c url input started limit attempt last s r e t
      → t.1 ≤ s.1 + k * limit
  Run-total k attempt last _ s _ _ sum (canceled _ _ _ e dead) = omega arith
  Run-total k attempt last _ s _ _ sum (delivered _ _ _ w' o tried good) =
      omega (arith, tried-same attempt s w' o tried)
  Run-total k attempt last _ s _ _ sum (gave_up _ _ _ w' o e tried failed stop) =
      omega (arith, tried-same attempt s w' o tried)
  Run-total zero attempt last _ s _ _ sum
        (interrupted _ _ _ w' w'' o e e' d tried failed more retry le woken) =
      absurd (more (omega arith))
  Run-total (suc k) attempt last _ s _ _ sum
        (interrupted _ _ _ w' w'' o e e' d tried failed more retry le woken) =
      omega (arith, slept-le attempt d s w' w'' o (some e') tried woken le, suc_times k limit)
  Run-total zero attempt last _ s _ _ sum
        (retried _ _ r' _ w' w'' w₃ o e final d tried failed more retry le rested rest) =
      absurd (more (omega arith))
  Run-total (suc k) attempt last _ s _ _ sum
        (retried _ _ r' _ w' w'' w₃ o e final d tried failed more retry le rested rest) =
      omega (
        arith,
        slept-le attempt d s w' w'' o none tried rested le,
        suc_times k limit,
        Run-total k (attempt + 1) o.result r' w'' w₃ final (omega arith) rest,
      )

module _ {W : Type 0} ⦃dates : HttpDates⦄ ⦃l : UrlLibrary⦄ ⦃n : Addresses⦄ ⦃u : Unicode⦄
    (timers : Timers W) (base : World W) (c : Client) (bounded : IsBounded c)
    (fits : bounded.limit + second < 2 ^ 63) (input : FetchRequest) where
  fetch_with_slot-total :
      (s : W × ℕ)
      → (fetch_with_slot (timed timers base) c input s).1.1
        ≤ s.1 + (size c.max_attempts - 1) * bounded.limit
  fetch_with_slot-total s = elim (fetch_with_slot-Run (timed timers base) c bounded fits input s) [
    | inl (e, failed) ↦ rw failed (omega arith)
    | inr (url, parsed, accepted, run) ↦
        Run-total timers base c url input _ bounded.limit (size c.max_attempts - 1) 1 _ _ s _ _
          (omega (arith, size-pos c.max_attempts bounded.attempts)) run
  ]

  -- With a bounded client whose maximal backoff is a second below the end of int64, the timers that
  -- a whole fetch starts are together at most the maximal backoff times the attempts that the
  -- client allows less one.
  pub fetch-total :
      (w : W)
      → (fetch (timed timers base) c input (w, 0)).1.1 ≤ (size c.max_attempts - 1) * bounded.limit
  unfolding fetch
  fetch-total w = elim (Option-cases (base.acquire w).0) [
    | inr (e, busy) ↦ rw (busy, fetch) (omega arith)
    | inl free ↦ rw (free, fetch) (omega (arith, fetch_with_slot-total ((base.acquire w).1, 0)))
  ]
