-- ===== src/Retrieval/Backoff.antt =====
-- `(*Client).backoff` of internal/retrieval/client.go.
pub mod Bounds
use feeds_server.Base.{ℕ, zero, suc, ◌-◌, Bool, if◌then◌else◌}
use feeds_server.Base.Int.{ℤ, pos, ltz, mul_int64, quot}

-- The loop, with the rounds that `step < attempt` leaves. The condition on the delay and the early
-- return stand in the order of the source.
unfoldable pub backoff_loop : ℕ → ℤ → ℤ → ℤ
unfolding mul_int64 quot
backoff_loop zero max_backoff delay = if ltz max_backoff delay then max_backoff else delay
backoff_loop (suc rounds) max_backoff delay =
    let again = backoff_loop rounds max_backoff (mul_int64 delay (pos 2)) in
    if ltz delay max_backoff
    then (if ltz (quot max_backoff 2) delay then max_backoff else again)
    else (if ltz max_backoff delay then max_backoff else delay)

-- The delay before the retry that follows `attempt`.
unfoldable pub backoff : ℤ → ℤ → ℕ → ℤ
unfolding backoff_loop
backoff base_backoff max_backoff attempt = backoff_loop (attempt - 1) max_backoff base_backoff
