-- ===== src/Retrieval/RetryAfter.antt =====
-- `parseRetryAfter` of internal/retrieval/client.go.
pub mod Bounds
use Prim.Native.Nat.{min}
use feeds_server.Base.{
  ℕ, zero, suc, ◌+◌, ◌-◌, ◌*◌, ◌/◌, ◌%◌, ◌^◌, String, ◌==◌, Option, none, some, Bool, ltb, leb, eqb,
  if◌then◌else◌,
}
use feeds_server.Base.Int.{ℤ, pos, negsuc, neg, minus_one, ltz, is_negative, mul_int64, quot}
use feeds_server.Base.Text.{trim_space}
use feeds_server.Base.Text.Number.{parse_int}
use feeds_server.Feed.Model.{Time}

-- `http.ParseTime`: the three date formats of HTTP.
pub record HttpDates : Type 0 where
  pub parse_time : String → Option Time

abbrev pub second : ℕ
second = 1_000_000_000

-- `when.Sub(now)`: the difference, saturated to the range of `int64`.
unfoldable pub sub_time : Time → Time → ℤ
sub_time when now =
    if leb now when then pos (min (when - now) (2 ^ 63 - 1)) else neg (min (now - when) (2 ^ 63))

-- `maximum / time.Second`, rounded up for a positive maximum.
unfoldable pub max_seconds : ℕ → ℕ
max_seconds maximum = if eqb (maximum % second) 0 then maximum / second else maximum / second + 1

-- The branch of a number of seconds, with `maximum <= 0` first.
unfoldable pub retry_seconds : ℕ → ℤ → ℤ
unfolding max_seconds mul_int64
retry_seconds seconds (negsuc m) = pos 0
retry_seconds seconds (pos m) =
    if eqb m 0
    then pos 0
    else if ltb (max_seconds m) seconds
    then pos m
    else let delay = mul_int64 (pos seconds) (pos second) in
      if ltz (pos m) delay then pos m else delay

abbrev pub retry_delay : ℤ → ℤ → ℤ
retry_delay delay maximum =
    if is_negative delay then pos 0 else if ltz maximum delay then maximum else delay

-- The branch of a date.
unfoldable pub retry_date : Time → Time → ℤ → ℤ
unfolding sub_time
retry_date when now maximum = retry_delay (sub_time when now) maximum

abbrev pub retry_parsed : Option Time → Time → ℤ → ℤ
retry_parsed none now maximum = minus_one
retry_parsed (some when) now maximum = retry_date when now maximum

module _ ⦃dates : HttpDates⦄ where
  abbrev pub retry_value : Option ℤ → String → Time → ℤ → ℤ
  retry_value (some (negsuc seconds)) raw now maximum = minus_one
  retry_value (some (pos seconds)) raw now maximum = retry_seconds seconds maximum
  retry_value none raw now maximum = retry_parsed (dates.parse_time raw) now maximum

  unfoldable pub parse_retry_after : String → Time → ℤ → ℤ
  parse_retry_after header now maximum =
      let raw = trim_space header in
      if raw == "" then minus_one else retry_value (parse_int raw) raw now maximum

-- Opens all that `parse_retry_after` goes through.
unfoldable pub retry_after_run : Unit {0}
unfolding parse_retry_after trim_space parse_int retry_seconds retry_date
retry_after_run = tt
