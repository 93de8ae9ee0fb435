-- ===== src/Retrieval/RetryAfter/Bounds.antt =====
-- The delay that a server asks for never passes the client's maximum.
use Prim.Native.Nat.{min}
use feeds_server.Base.{
  ℕ, ◌+◌, ◌*◌, ◌^◌, ◌≤◌, ◌<◌, ◌≡◌, ◌⊎◌, inl, inr, refl, arith, String, ◌==◌, eq_iff, subst, true,
  Option, none, some, ltb, Bool-cases, Option-cases,
}
use feeds_server.Base.Int.{ℤ, pos, negsuc, minus_one, mul_int64, is_negative}
use feeds_server.Base.Text.{trim_space}
use feeds_server.Base.Text.Number.{parse_int}
use feeds_server.Feed.Model.{Time}
use feeds_server.Retrieval.RetryAfter.{
  HttpDates, second, sub_time, max_seconds, retry_seconds, retry_date, retry_delay, retry_value,
  parse_retry_after,
}

-- A number of seconds is honoured up to the maximum. The bound on the maximum keeps the product
-- within `int64`.
retry_seconds-eq-min :
    (seconds m : ℕ)
    → 0 < m
    → m + second < 2 ^ 63
    → retry_seconds seconds (pos m) ≡ pos (min (seconds * second) m)
unfolding retry_seconds max_seconds mul_int64
retry_seconds-eq-min seconds m h fits = ground arith

-- No delay, or a delay of at most `m`.
abbrev pub IsCapped : ℕ → ℤ → Type 0
IsCapped m z = (z ≡ minus_one) ⊎ ((d : ℕ) × (z ≡ pos d) × (d ≤ m))

retry_delay-IsCapped : (z : ℤ) (m : ℕ) → IsCapped m (retry_delay z (pos m))
retry_delay-IsCapped (negsuc d) m = inr (0, refl, omega arith)
retry_delay-IsCapped (pos d) m = elim (Bool-cases (ltb m d)) [
  | inl late ↦ inr (m, rw late, omega arith)
  | inr fine ↦ inr (d, rw fine, ground arith)
]

retry_value-IsCapped :
    ⦃dates : HttpDates⦄ (parsed : Option ℤ) (raw : String) (now : Time) (m : ℕ)
    → 0 < m
    → m + second < 2 ^ 63
    → IsCapped m (retry_value parsed raw now (pos m))
retry_value-IsCapped (some (negsuc n)) raw now m h fits = inl refl
retry_value-IsCapped (some (pos n)) raw now m h fits =
    inr (min (n * second) m, retry_seconds-eq-min n m h fits, omega arith)
retry_value-IsCapped ⦃dates⦄ none raw now m h fits = elim (Option-cases (dates.parse_time raw)) [
  | inl none_eq ↦ inl (rw none_eq)
  | inr (when, some_eq) ↦
      rw some_eq (unfold retry_date in retry_delay-IsCapped (sub_time when now) m)
]

no_number : (s : String) {n : ℕ} → (s == "") ≡ true → parse_int s ≡ some (pos n) → ⊥
unfolding parse_int
no_number s {n} empty e =
    let parsed : parse_int "" ≡ some (pos n) =
      subst (λ t. parse_int t ≡ some (pos n)) ((eq_iff s "").0 empty) e in
    cc

-- With a positive maximum that is a second below the end of `int64`, a header with a number of
-- seconds that is not negative asks for that many seconds, capped at the maximum.
pub parse_retry_after-seconds :
    ⦃dates : HttpDates⦄ (header : String) (now : Time) (n m : ℕ)
    → 0 < m
    → m + second < 2 ^ 63
    → parse_int (trim_space header) ≡ some (pos n)
    → parse_retry_after header now (pos m) ≡ pos (min (n * second) m)
unfolding parse_retry_after
parse_retry_after-seconds header now n m h fits e = elim (Bool-cases (trim_space header == "")) [
  | inl empty ↦ absurd (no_number (trim_space header) empty e)
  | inr there ↦ rw (there, e) (retry_seconds-eq-min n m h fits)
]

-- With a positive maximum that is a second below the end of `int64`, and whatever the header
-- holds, the client is told of no delay or of a delay of at most the maximum.
pub parse_retry_after-IsCapped :
    ⦃dates : HttpDates⦄ (header : String) (now : Time) (m : ℕ)
    → 0 < m
    → m + second < 2 ^ 63
    → IsCapped m (parse_retry_after header now (pos m))
unfolding parse_retry_after
parse_retry_after-IsCapped header now m h fits = elim (Bool-cases (trim_space header == "")) [
  | inl empty ↦ inl (rw empty)
  | inr there ↦
      rw there
        (retry_value-IsCapped (parse_int (trim_space header)) (trim_space header) now m h fits)
]

-- Where a maximum of `int64`, rounded up to seconds, leaves `int64` as a number of nanoseconds, a
-- header with that number of seconds gives a negative delay.
pub retry_seconds_overflow :
    (m : ℕ)
    → m < 2 ^ 63
    → 2 ^ 63 ≤ max_seconds m * second
    → is_negative (retry_seconds (max_seconds m) (pos m)) ≡ true
unfolding retry_seconds max_seconds mul_int64
retry_seconds_overflow m h over = ground arith
