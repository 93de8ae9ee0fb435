-- ===== src/Retrieval/Policy.antt =====
-- internal/retrieval/policy.go: which destinations the transport may connect to.
pub mod Accepted
pub mod Resolved
use feeds_server.Base.{
  ℕ, ◌+◌, ◌*◌, ◌^◌, String, ◌==◌, Bool, true, false, ◌&&◌, ◌||◌, not, Option, none, some, List, [],
  ◌∷◌, if◌then◌else◌,
}
use Prim.Native.String.{◌++◌}
use feeds_server.Base.Address.{
  Addr, v4, v6, Prefix, unmap, is_valid, zone, is_unspecified, is_multicast, is_loopback,
  is_private, is_link_local_unicast, is_link_local_multicast, is_global_unicast, prefix_is_valid,
  contains,
}
use feeds_server.Base.Text.{Unicode, to_lower}
use feeds_server.Base.Url.{Url, hostname}
use feeds_server.Retrieval.Error.{
  Error, sentinel, wrapped, plain, destination_blocked, embedded_credentials, unsupported_scheme,
}

-- Of a function that returns a value and an error, or an error alone.
pub data Result {ℓ} (A : Type ℓ) : Type ℓ where
  ok : A → Result A
  err : Error → Result A

pub record DestinationPolicy : Type 0 where
  pub allow_plain_http : Bool
  pub allowed_networks : List Prefix

abbrev pub ipv4 : ℕ → ℕ → ℕ → ℕ → Addr
ipv4 a b c d = v4 (a * 2 ^ 24 + b * 2 ^ 16 + c * 2 ^ 8 + d)

-- An IPv6 address by its first two groups of 16 bits.
abbrev pub ipv6_start : ℕ → ℕ → Addr
ipv6_start a b = v6 (a * 2 ^ 112 + b * 2 ^ 96) ""

abbrev pub blocked_special_use_prefixes : List Prefix
blocked_special_use_prefixes =
    record { addr = ipv4 100 64 0 0; bits = 10 }
    ∷ record { addr = ipv4 192 0 0 0; bits = 24 }
    ∷ record { addr = ipv4 192 0 2 0; bits = 24 }
    ∷ record { addr = ipv4 192 88 99 0; bits = 24 }
    ∷ record { addr = ipv4 198 18 0 0; bits = 15 }
    ∷ record { addr = ipv4 198 51 100 0; bits = 24 }
    ∷ record { addr = ipv4 203 0 113 0; bits = 24 }
    ∷ record { addr = ipv4 240 0 0 0; bits = 4 }
    ∷ record { addr = ipv6_start 0x100 0; bits = 64 }
    ∷ record { addr = ipv6_start 0x2001 0xdb8; bits = 32 }
    ∷ record { addr = ipv6_start 0x2001 0x10; bits = 28 }
    ∷ record { addr = ipv6_start 0x2001 0x20; bits = 28 }
    ∷ []

-- The loop over `AllowedNetworks`.
unfoldable pub is_allowed : List Prefix → Addr → Bool
unfolding contains
is_allowed [] a = false
is_allowed (p ∷ ps) a = (prefix_is_valid p && contains p a) || is_allowed ps a

-- The loop over the special-use prefixes.
unfoldable pub is_special_use : List Prefix → Addr → Bool
unfolding contains
is_special_use [] a = false
is_special_use (p ∷ ps) a = contains p a || is_special_use ps a

abbrev pub blocked : String → Error
blocked message = wrapped message (sentinel destination_blocked)

-- `validateAddress` behind `addr.Unmap()`; `none` is the nil error.
unfoldable pub validate_unmapped : List Prefix → Addr → Option Error
unfolding is_allowed is_special_use
validate_unmapped allowed a =
    if not (is_valid a) || (not (zone a == "") || (is_unspecified a || is_multicast a))
    then some (blocked "not an eligible unicast destination")
    else if is_allowed allowed a
    then none
    else if is_loopback a
        || (is_private a || (is_link_local_unicast a || is_link_local_multicast a))
    then some (blocked "private, loopback, or link-local")
    else if is_special_use blocked_special_use_prefixes a
    then some (blocked "special-use")
    else if not (is_global_unicast a)
    then some (blocked "not global unicast")
    else none

unfoldable pub validate_address : DestinationPolicy → Addr → Option Error
validate_address p a = validate_unmapped p.allowed_networks (unmap a)

-- `netip.ParseAddr`, and the interface `Resolver` with the DNS answers for a host.
pub record Addresses : Type 0 where
  pub parse_addr : String → Option Addr
  pub lookup_net_ip : String → Result (List Addr)

abbrev pub resolve_error : String → Error → Error
resolve_error host e = wrapped ("resolve retrieval host " ++ host) e

-- The loop of `resolveAllowed` over the answers.
unfoldable pub validate_all : DestinationPolicy → String → List Addr → Result (List Addr)
validate_all p host [] = ok []
validate_all p host (a ∷ rest) = elim (validate_address p (unmap a)) [
  | some e ↦ err (resolve_error host e)
  | none ↦ elim (validate_all p host rest) [ err e ↦ err e | ok out ↦ ok (unmap a ∷ out) ]
]

abbrev pub resolve_answer : DestinationPolicy → String → Result (List Addr) → Result (List Addr)
resolve_answer p host (err e) = err (resolve_error host e)
resolve_answer p host (ok []) = err (plain "no addresses")
resolve_answer p host (ok (a ∷ rest)) = validate_all p host (a ∷ rest)

-- The branch of a host that is an address.
abbrev pub resolve_literal : Option Error → Addr → Result (List Addr)
resolve_literal (some e) a = err e
resolve_literal none a = ok (unmap a ∷ [])

abbrev pub has_user : Option String → Bool
has_user none = false
has_user (some u) = true

module _ ⦃n : Addresses⦄ where
  unfoldable pub resolve_allowed : DestinationPolicy → String → Result (List Addr)
  resolve_allowed p host = elim (n.parse_addr host) [
    | some a ↦ resolve_literal (validate_address p a) a
    | none ↦ resolve_answer p host (n.lookup_net_ip host)
  ]

  -- The last step of `ValidateURL`: a host that is an address is validated.
  unfoldable pub validate_host : DestinationPolicy → String → Option Error
  validate_host p host = elim (n.parse_addr host) [ some a ↦ validate_address p a | none ↦ none ]

  module _ ⦃u : Unicode⦄ where
    -- `ValidateURL` on a pointer, with the guards in the order of the source.
    unfoldable pub validate_url : DestinationPolicy → Option Url → Option Error
    validate_url p none = some (blocked "absolute HTTP(S) URL with host required")
    validate_url p (some url) =
        if url.scheme == "" || (url.host == "" || hostname url == "")
        then some (blocked "absolute HTTP(S) URL with host required")
        else if has_user url.user
        then some (sentinel embedded_credentials)
        else if to_lower url.scheme == "https"
        then validate_host p (hostname url)
        else if to_lower url.scheme == "http"
        then (if not p.allow_plain_http
            then some (wrapped "plaintext HTTP disabled" (sentinel unsupported_scheme))
            else validate_host p (hostname url))
        else some (wrapped url.scheme (sentinel unsupported_scheme))

-- Opens all that the policy goes through.
unfoldable pub policy_run : Unit {0}
unfolding validate_url validate_host resolve_allowed validate_all validate_address validate_unmapped
policy_run = tt
