-- ===== src/Tests/Client.antt =====
-- internal/retrieval on concrete requests.
use Prim.Native.Nat.{min}
use feeds_server.Base.{◌+◌, ◌*◌, ◌^◌, ◌≡◌, ◌≢◌, ◌↔◌, List, none, some, [], ◌∷◌, refl, arith}
use feeds_server.Base.Int.{pos, minus_one}
use feeds_server.Base.Address.{Prefix, v4, v6}
use feeds_server.Base.Text.{to_lower}
use feeds_server.Base.Url.{hostname}
use feeds_server.Retrieval.Backoff.{backoff}
use feeds_server.Retrieval.Backoff.Bounds.{backoff-eq-min}
use feeds_server.Retrieval.RetryAfter.{second, parse_retry_after, retry_after_run}
use feeds_server.Retrieval.Policy.{
  ok, validate_unmapped, validate_address, resolve_allowed, validate_url, policy_run, ipv4,
}
use feeds_server.Retrieval.Policy.Accepted.{
  IsUnlisted, IsUnlisted6, validate_address-v4_iff, validate_address-v6_iff,
}
use feeds_server.Tests.Samples.{
  sample_unicode, sample_addresses, sample_dates, feed_url, public_addr, local_addr, strict_policy,
}

backoff-eq-min_example : backoff (pos 250) (pos 2000) 4 ≡ pos (min (250 * 2 ^ 3) 2000)
backoff-eq-min_example = backoff-eq-min 250 2000 3 (omega arith) (omega arith) (omega arith)

retry_after_tests :
    (parse_retry_after " 1 " 0 (pos 2_000_000_000) ≡ pos second)
    × (parse_retry_after "Mon, 01 Jan 0001 00:00:05 GMT" 0 (pos 2_000_000_000) ≡ pos 2_000_000_000)
    × (parse_retry_after "soon" 0 (pos 2_000_000_000) ≡ minus_one)
unfolding retry_after_run
retry_after_tests = (refl, refl, refl)

policy_tests :
    (validate_address strict_policy public_addr ≡ none)
    × (validate_address strict_policy local_addr ≢ none)
    × (resolve_allowed strict_policy "feeds.example" ≡ ok (public_addr ∷ v4 0x08080404 ∷ []))
    × (validate_url strict_policy (some feed_url) ≡ none)
unfolding policy_run hostname to_lower
policy_tests = (refl, λ e. cc, refl, refl)

validate_address-v4_iff_example :
    (validate_address strict_policy public_addr ≡ none) ↔ IsUnlisted 0x08080808
validate_address-v4_iff_example =
    validate_address-v4_iff strict_policy 0x08080808 refl (omega arith)

validate_address-v6_iff_example :
    (validate_address strict_policy (v6 (0x20014860 * 2 ^ 96) "") ≡ none)
    ↔ IsUnlisted6 (0x20014860 * 2 ^ 96)
validate_address-v6_iff_example =
    validate_address-v6_iff strict_policy (0x20014860 * 2 ^ 96) refl (omega arith) (omega arith)

-- Special-use blocks of IPv6 that are not in the list: benchmarks, documentation, local translation,
-- and an IPv4-compatible loopback address.
unlisted_tests :
    (validate_address strict_policy (v6 (0x20010002 * 2 ^ 96 + 1) "") ≡ none)
    × (validate_address strict_policy (v6 (0x3fff * 2 ^ 112 + 1) "") ≡ none)
    × (validate_address strict_policy (v6 (0x64ff9b0001 * 2 ^ 80 + 1) "") ≡ none)
    × (validate_address strict_policy (v6 0x7f000001 "") ≡ none)
unfolding policy_run
unlisted_tests = (refl, refl, refl, refl)

abbrev loopback_allowed : List Prefix
loopback_allowed = record { addr = ipv4 127 0 0 0; bits = 8 } ∷ []

loopback_accepted : validate_unmapped loopback_allowed local_addr ≡ none
unfolding policy_run hostname to_lower
loopback_accepted = refl
