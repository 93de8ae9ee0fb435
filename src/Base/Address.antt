-- ===== src/Base/Address.antt =====
-- Go's `net/netip`: addresses and prefixes, and the predicates on them that the program calls.
use feeds_server.Base.{
  ℕ, ◌-◌, ◌/◌, ◌%◌, ◌^◌, String, ◌==◌, Bool, true, false, ◌&&◌, ◌||◌, not, leb, eqb, if◌then◌else◌,
}

-- `netip.Addr`: the zero value, an IPv4 address, or an IPv6 address with its zone. The number is
-- the address in network order, of 32 or 128 bits.
pub data Addr : Type 0 where
  invalid : Addr
  v4 : ℕ → Addr
  v6 : ℕ → String → Addr

-- `Is4In6`: the 96 bits in front of the IPv4 part are ::ffff.
abbrev pub is_4_in_6 : ℕ → Bool
is_4_in_6 a = eqb (a / 2 ^ 32) 0xffff

abbrev pub unmap : Addr → Addr
unmap invalid = invalid
unmap (v4 a) = v4 a
unmap (v6 a zone) = if is_4_in_6 a then v4 (a % 2 ^ 32) else v6 a zone

abbrev pub is_valid : Addr → Bool
is_valid invalid = false
is_valid (v4 a) = true
is_valid (v6 a zone) = true

abbrev pub zone : Addr → String
zone invalid = ""
zone (v4 a) = ""
zone (v6 a z) = z

abbrev pub is_4 : Addr → Bool
is_4 invalid = false
is_4 (v4 a) = true
is_4 (v6 a z) = false

abbrev pub is_6 : Addr → Bool
is_6 invalid = false
is_6 (v4 a) = false
is_6 (v6 a z) = true

-- The predicates below are those of an address that is not IPv4-mapped.
abbrev pub is_unspecified : Addr → Bool
is_unspecified invalid = false
is_unspecified (v4 a) = eqb a 0
is_unspecified (v6 a z) = eqb a 0 && z == ""

-- 224.0.0.0/4 and ff00::/8
abbrev pub is_multicast : Addr → Bool
is_multicast invalid = false
is_multicast (v4 a) = eqb (a / 2 ^ 28) 14
is_multicast (v6 a z) = eqb (a / 2 ^ 120) 0xff

-- 127.0.0.0/8 and ::1
abbrev pub is_loopback : Addr → Bool
is_loopback invalid = false
is_loopback (v4 a) = eqb (a / 2 ^ 24) 127
is_loopback (v6 a z) = eqb a 1

-- 10.0.0.0/8, 172.16.0.0/12, 192.168.0.0/16 and fc00::/7
abbrev pub is_private : Addr → Bool
is_private invalid = false
is_private (v4 a) = eqb (a / 2 ^ 24) 10 || eqb (a / 2 ^ 20) 0xac1 || eqb (a / 2 ^ 16) 0xc0a8
is_private (v6 a z) = eqb (a / 2 ^ 121) 0x7e

-- 169.254.0.0/16 and fe80::/10
abbrev pub is_link_local_unicast : Addr → Bool
is_link_local_unicast invalid = false
is_link_local_unicast (v4 a) = eqb (a / 2 ^ 16) 0xa9fe
is_link_local_unicast (v6 a z) = eqb (a / 2 ^ 118) 0x3fa

-- 224.0.0.0/24, and ffx2::/16 for every digit x
abbrev pub is_link_local_multicast : Addr → Bool
is_link_local_multicast invalid = false
is_link_local_multicast (v4 a) = eqb (a / 2 ^ 8) 0xe00000
is_link_local_multicast (v6 a z) = eqb (a / 2 ^ 120) 0xff && eqb (a / 2 ^ 112 % 16) 2

abbrev pub is_global_unicast : Addr → Bool
is_global_unicast invalid = false
is_global_unicast (v4 a) =
    not (eqb a 0 || eqb a 0xffffffff)
    && (not (is_loopback (v4 a))
        && (not (is_multicast (v4 a)) && not (is_link_local_unicast (v4 a))))
is_global_unicast (v6 a z) =
    not (is_unspecified (v6 a z))
    && (not (is_loopback (v6 a z))
        && (not (is_multicast (v6 a z)) && not (is_link_local_unicast (v6 a z))))

-- `netip.Prefix`: an address without zone and the number of its bits that count.
pub record Prefix : Type 0 where
  pub addr : Addr
  pub bits : ℕ

abbrev pub prefix_is_valid : Prefix → Bool
prefix_is_valid p = elim p.addr [
  | invalid ↦ false
  | v4 a ↦ leb p.bits 32
  | v6 a z ↦ leb p.bits 128 && z == ""
]

-- The two addresses, of one width, agree on the first bits.
abbrev pub same_bits : Addr → ℕ → Addr → Bool
same_bits (v4 a) n (v4 b) = eqb (a / 2 ^ (32 - n)) (b / 2 ^ (32 - n))
same_bits (v6 a y) n (v6 b z) = eqb (a / 2 ^ (128 - n)) (b / 2 ^ (128 - n)) && z == ""
same_bits _ _ _ = false

-- `Prefix.Contains`
unfoldable pub contains : Prefix → Addr → Bool
contains p a = prefix_is_valid p && same_bits p.addr p.bits a
