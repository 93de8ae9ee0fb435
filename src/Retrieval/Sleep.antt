-- ===== src/Retrieval/Sleep.antt =====
-- `sleepContext` of internal/retrieval/client.go, which is a client's `sleep` where its
-- configuration has none. Which channel the `select` takes is a parameter.
pub mod Total
use feeds_server.Base.{ℕ, suc, ◌+◌, Bool, not, true, false, Option, none, if◌then◌else◌}
use feeds_server.Base.Int.{ℤ, pos, negsuc, ltz}
use feeds_server.Retrieval.Error.{Error}
use feeds_server.Retrieval.Exchange.{World, size}

-- Whether a timer of so many nanoseconds fires first, before the context is done.
pub record Timers (W : Type 0) : Type 0 where
  pub fires : ℕ → W → Bool × W

module _ {W : Type 0} (timers : Timers W) (base : World W) where
  -- The state has the time of all timers so far beside it.
  unfoldable pub sleep_context : ℤ → W × ℕ → Option Error × (W × ℕ)
  sleep_context delay s =
      if not (ltz (pos 0) delay)
      then (none, s)
      else let (fired, w) = timers.fires (size delay) s.0 in
        (if fired then none else base.ctx_err w, (w, s.1 + size delay))

  -- The world of a fetch whose client sleeps by `sleepContext`.
  abbrev pub timed : World (W × ℕ)
  timed = record {
    ctx_err = λ s. base.ctx_err s.0;
    now = λ s. base.now s.0;
    acquire = λ s. let (busy, w) = base.acquire s.0 in (busy, (w, s.1));
    release = λ s. (base.release s.0, s.1);
    new_request = base.new_request;
    send = λ req s. let (answer, w) = base.send req s.0 in (answer, (w, s.1));
    sleep = sleep_context;
  }
