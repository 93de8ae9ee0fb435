-- ===== src/Retrieval/Backoff/Bounds.antt =====
-- The backoff is the base delay doubled for each attempt, capped at the maximum.
use Prim.Native.Nat.{min}
use native.Mathlib.Nat.{pow-suc, one-le-pow}
use feeds_server.Base.{
  ℕ, zero, suc, ◌-◌, ◌*◌, ◌/◌, ◌^◌, ◌≤◌, ◌<◌, ◌≡◌, ap, arith, Bool-cases, ltb, inl, inr,
}
use feeds_server.Base.Int.{pos, mul_int64}
use feeds_server.Retrieval.Backoff.{backoff_loop, backoff}

doubled : (delay : ℕ) → delay * 2 < 2 ^ 63 → mul_int64 (pos delay) (pos 2) ≡ pos (delay * 2)
unfolding mul_int64
doubled delay h = ground arith

double_pow : (delay n : ℕ) → delay * 2 ^ suc n ≡ delay * 2 * 2 ^ n
double_pow delay n = rw (pow-suc 2 n) (grind arith)

double_le : (delay n : ℕ) → delay * 2 ≤ delay * 2 * 2 ^ n
double_le delay n = grind (arith, one-le-pow n 2 (omega arith))

backoff_loop-eq-min :
    (rounds limit delay : ℕ)
    → limit < 2 ^ 63
    → 0 < delay
    → delay ≤ limit
    → backoff_loop rounds (pos limit) (pos delay) ≡ pos (min (delay * 2 ^ rounds) limit)
unfolding backoff_loop
backoff_loop-eq-min zero limit delay fits h le = ground arith
backoff_loop-eq-min (suc rounds) limit delay fits h le =
    rw double_pow (elim (Bool-cases (ltb delay limit)) [
      | inl below ↦ elim (Bool-cases (ltb (limit / 2) delay)) [
        | inl late ↦ rw (below, late) (ap pos (ground (arith, double_le delay rounds)))
        | inr early ↦
            let fits' : delay * 2 ≤ limit = ground arith in
            rw (below, early, doubled delay (omega arith))
              (backoff_loop-eq-min rounds limit (delay * 2) fits (omega arith) fits')
      ]
      | inr top ↦ rw top (ground (arith, double_le delay rounds))
    ])

before : (n : ℕ) → suc n - 1 ≡ n
before n = omega arith

-- With a positive base delay that is at most the maximum, and a maximum of `int64`, the backoff
-- after attempt `n + 1` is base * 2^n or the maximum, whichever is less: no product overflows.
pub backoff-eq-min :
    (base limit n : ℕ)
    → 0 < base
    → base ≤ limit
    → limit < 2 ^ 63
    → backoff (pos base) (pos limit) (suc n) ≡ pos (min (base * 2 ^ n) limit)
unfolding backoff
backoff-eq-min base limit n h le fits = rw (before n) (backoff_loop-eq-min n limit base fits h le)
