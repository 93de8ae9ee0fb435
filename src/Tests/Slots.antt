-- ===== src/Tests/Slots.antt =====
-- The semaphore of internal/retrieval/client.go, with one slot and two calls.
use feeds_server.Base.{ℕ, ◌⊎◌, [], ◌∷◌, refl, arith}
use feeds_server.Base.Int.{pos}
use feeds_server.Retrieval.Config.{Client}
use feeds_server.Retrieval.Config.Bounds.{IsBounded}
use feeds_server.Retrieval.Slots.{
  Served, waiting, working, Calls, no_calls, take, finish, call, Step, called, acquired, Reach,
  start, step,
}
use feeds_server.Retrieval.Slots.Progress.{
  Reach-drains, IsIdle, IsCounted, Reach-IsCounted, Reach-moves,
}
use feeds_server.Tests.Samples.{
  sample_unicode, sample_urls, sample_dates, sample_addresses, sample_dialer,
}
use feeds_server.Tests.Transport.{default_client, default_IsBounded}

-- A client with one slot, two calls, the first of which works.
abbrev narrow_client : Client
narrow_client = record default_client { concurrent = pos 1 }

abbrev narrow_IsBounded : IsBounded narrow_client
narrow_IsBounded = record {
  body = default_IsBounded.body;
  slots = (1, refl, omega arith);
  attempts = default_IsBounded.attempts;
  base = 250_000_000;
  limit = 2_000_000_000;
  base_backoff = refl;
  max_backoff = refl;
  base_positive = omega arith;
  ordered = omega arith;
  request_timeout = default_IsBounded.request_timeout;
  connect_timeout = default_IsBounded.connect_timeout;
  header_timeout = default_IsBounded.header_timeout;
}

abbrev one_call : Calls
one_call = record { held = 0; fetches = waiting ∷ [] }

abbrev two_calls : Calls
two_calls = record { held = 0; fetches = waiting ∷ (waiting ∷ []) }

abbrev one_works : Calls
one_works = record { held = 1; fetches = working ∷ (waiting ∷ []) }

Reach-one_works : Reach narrow_client one_works
Reach-one_works =
    step two_calls one_works (take 0)
      (step one_call two_calls call (step no_calls one_call call start (called no_calls))
        (called one_call))
      (acquired two_calls 0 refl (omega arith))

Reach-IsCounted_example : IsCounted narrow_client one_works
Reach-IsCounted_example = Reach-IsCounted narrow_client one_works Reach-one_works

Reach-moves_example :
    ((t : Calls) × Step narrow_client (take 1) one_works t)
    ⊎ ((j : ℕ) × ((t : Calls) × Step narrow_client (finish j) one_works t))
Reach-moves_example = Reach-moves narrow_client one_works 1 narrow_IsBounded Reach-one_works refl

Reach-drains_example : (t : Calls) × Served narrow_client 3 one_works t × IsIdle t
Reach-drains_example = Reach-drains narrow_client one_works narrow_IsBounded Reach-one_works
