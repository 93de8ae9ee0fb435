-- ===== src/Retrieval/Policy/Accepted.antt =====
-- Which addresses `validateAddress` accepts.
use feeds_server.Base.{
  ℕ, ◌+◌, ◌-◌, ◌*◌, ◌/◌, ◌^◌, ◌<◌, ◌≡◌, ◌≢◌, ◌⊎◌, ◌↔◌, ap, arith, String, none, List, [], true,
  false, eq_iff,
}
use feeds_server.Base.Address.{
  Addr, Prefix, v4, v6, unmap, is_valid, zone, is_unspecified, is_multicast,
}
use feeds_server.Retrieval.Policy.{
  is_allowed, validate_unmapped, validate_address, DestinationPolicy,
}

-- The IPv4 addresses from the first to the last of a block.
abbrev pub Outside : ℕ → ℕ → ℕ → Type 0
Outside first last a = (a < first) ⊎ (last < a)

-- The IPv4 addresses that the policy names nowhere, block by block.
pub record IsUnlisted (a : ℕ) : Type 0 where
  pub unspecified : 0 < a
  pub private_10 : Outside 0x0a000000 0x0affffff a
  pub shared_100_64 : Outside 0x64400000 0x647fffff a
  pub loopback_127 : Outside 0x7f000000 0x7fffffff a
  pub link_local_169_254 : Outside 0xa9fe0000 0xa9feffff a
  pub private_172_16 : Outside 0xac100000 0xac1fffff a
  pub protocol_192_0_0 : Outside 0xc0000000 0xc00000ff a
  pub documentation_192_0_2 : Outside 0xc0000200 0xc00002ff a
  pub relay_192_88_99 : Outside 0xc0586300 0xc05863ff a
  pub private_192_168 : Outside 0xc0a80000 0xc0a8ffff a
  pub benchmark_198_18 : Outside 0xc6120000 0xc613ffff a
  pub documentation_198_51_100 : Outside 0xc6336400 0xc63364ff a
  pub documentation_203_0_113 : Outside 0xcb007100 0xcb0071ff a
  pub multicast_and_reserved : a < 0xe0000000

validate_v4_unlisted : (a : ℕ) → IsUnlisted a → validate_unmapped [] (v4 a) ≡ none
unfolding validate_unmapped
validate_v4_unlisted a h = ground arith

IsUnlisted-of_validate_v4 : (a : ℕ) → a < 2 ^ 32 → validate_unmapped [] (v4 a) ≡ none → IsUnlisted a
unfolding validate_unmapped
IsUnlisted-of_validate_v4 a fits h = ground arith

-- The IPv6 addresses outside the loopback, private, link-local, multicast and special-use blocks
-- that the policy names. Not all special-use blocks are among them.
pub record IsUnlisted6 (a : ℕ) : Type 0 where
  pub unspecified_loopback : 1 < a
  pub unique_local : Outside (0x7e * 2 ^ 121) (0x7f * 2 ^ 121 - 1) a
  pub link_local : Outside (0x3fa * 2 ^ 118) (0x3fb * 2 ^ 118 - 1) a
  pub multicast : a < 0xff * 2 ^ 120
  pub discard_only : Outside (0x100 * 2 ^ 112) (0x100 * 2 ^ 112 + 2 ^ 64 - 1) a
  pub documentation : Outside (0x20010db8 * 2 ^ 96) (0x20010db9 * 2 ^ 96 - 1) a
  pub orchid : Outside (0x20010010 * 2 ^ 96) (0x20010020 * 2 ^ 96 - 1) a
  pub orchid_v2 : Outside (0x20010020 * 2 ^ 96) (0x20010030 * 2 ^ 96 - 1) a

validate_v6_unlisted : (a : ℕ) → IsUnlisted6 a → validate_unmapped [] (v6 a "") ≡ none
unfolding validate_unmapped
validate_v6_unlisted a h = ground arith

IsUnlisted6-of_validate_v6 :
    (a : ℕ) → a < 2 ^ 128 → validate_unmapped [] (v6 a "") ≡ none → IsUnlisted6 a
unfolding validate_unmapped
IsUnlisted6-of_validate_v6 a fits h = ground arith

unmap_plain : (a : ℕ) (z : String) → a / 2 ^ 32 ≢ 0xffff → unmap (v6 a z) ≡ v6 a z
unmap_plain a z h = ground arith

unmap_mapped : (a : ℕ) (z : String) → a < 2 ^ 32 → unmap (v6 (0xffff * 2 ^ 32 + a) z) ≡ v4 a
unmap_mapped a z h = ground arith

-- Without allowed networks an IPv4 address is accepted exactly when it lies outside each of the
-- listed blocks.
pub validate_address-v4_iff :
    (p : DestinationPolicy) (a : ℕ)
    → p.allowed_networks ≡ []
    → a < 2 ^ 32
    → (validate_address p (v4 a) ≡ none) ↔ IsUnlisted a
unfolding validate_address
validate_address-v4_iff p a empty fits =
    rw empty (IsUnlisted-of_validate_v4 a fits, validate_v4_unlisted a)

-- Without allowed networks an IPv6 address that is not IPv4-mapped and has no zone is accepted
-- exactly when it lies outside each of the listed blocks.
pub validate_address-v6_iff :
    (p : DestinationPolicy) (a : ℕ)
    → p.allowed_networks ≡ []
    → a < 2 ^ 128
    → a / 2 ^ 32 ≢ 0xffff
    → (validate_address p (v6 a "") ≡ none) ↔ IsUnlisted6 a
unfolding validate_address
validate_address-v6_iff p a empty fits plain =
    rw (empty, unmap_plain a "" plain) (IsUnlisted6-of_validate_v6 a fits, validate_v6_unlisted a)

-- An IPv4-mapped IPv6 address, with or without a zone, is treated as the IPv4 address in it: it
-- opens no way round the rules for IPv4.
pub validate_address-mapped :
    (p : DestinationPolicy) (a : ℕ) (z : String)
    → a < 2 ^ 32
    → validate_address p (v6 (0xffff * 2 ^ 32 + a) z) ≡ validate_address p (v4 a)
unfolding validate_address
validate_address-mapped p a z fits =
    ap (validate_unmapped p.allowed_networks) (unmap_mapped a z fits)

-- An accepted address is valid, has no zone, is neither unspecified nor multicast, and is in an
-- allowed network or would be accepted without any: an allowed network opens no more than itself.
pub validate_unmapped-cases :
    (allowed : List Prefix) (a : Addr)
    → validate_unmapped allowed a ≡ none
    → (is_valid a ≡ true)
      × (zone a ≡ "")
      × (is_unspecified a ≡ false)
      × (is_multicast a ≡ false)
      × ((is_allowed allowed a ≡ true) ⊎ (validate_unmapped [] a ≡ none))
unfolding validate_unmapped
validate_unmapped-cases allowed a h = ground (arith, eq_iff (zone a) "")
