-- ===== src/Net.antt =====
-- `net/netip` as far as the program uses it, and netutil.go. An address is a number with its
-- family; an IPv6 address carries a zone, empty when it has none.
pub mod Canonical
pub mod Show
pub mod Equality
use ip_unt1_com.Prelude.{
  ℕ, ◌+◌, ◌-◌, ◌*◌, ◌/◌, ◌%◌, ◌^◌, Bool, true, false, not, ◌&&◌, ◌||◌, List, [], ◌∷◌, Option, none,
  some, Text, leb, ◌==◌, if◌then◌else◌, is_empty, any,
}

pub data Addr : Type 0 where
  invalid : Addr
  v4 : ℕ → Addr
  v6 : ℕ → Text → Addr

abbrev pub is_valid : Addr → Bool
is_valid invalid = false
is_valid _ = true

abbrev pub is_4 : Addr → Bool
is_4 (v4 n) = true
is_4 _ = false

abbrev pub is_6 : Addr → Bool
is_6 (v6 n z) = true
is_6 _ = false

abbrev pub bit_len : Addr → ℕ
bit_len invalid = 0
bit_len (v4 n) = 32
bit_len (v6 n z) = 128

abbrev pub value : Addr → ℕ
value invalid = 0
value (v4 n) = n
value (v6 n z) = n

abbrev pub zone : Addr → Text
zone (v6 n z) = z
zone _ = []

abbrev pub is_4in6 : Addr → Bool
is_4in6 (v6 n z) = n / 2 ^ 32 == 0xffff
is_4in6 _ = false

abbrev pub unmap : Addr → Addr
unmap (v6 n z) = if n / 2 ^ 32 == 0xffff then v4 (n % 2 ^ 32) else v6 n z
unmap a = a

abbrev pub with_zone : Addr → Text → Addr
with_zone (v6 n _) z = v6 n z
with_zone a _ = a

-- `canonicalIP`.
unfoldable pub canonical_ip : Addr → Addr
canonical_ip a =
    let b = if is_4in6 a then unmap a else a in
    if not (is_empty (zone b)) then with_zone b [] else b

pub record Prefix : Type 0 where
  pub addr : Addr
  pub bits : ℕ

-- `Prefix{}`.
abbrev pub no_prefix : Prefix
no_prefix = record { addr = invalid; bits = 0 }

abbrev pub prefix_is_valid : Prefix → Bool
prefix_is_valid p = is_valid p.addr && leb p.bits (bit_len p.addr)

-- The number with its low `host` bits cleared.
abbrev pub clear_low : ℕ → ℕ → ℕ
clear_low n host = n / 2 ^ host * 2 ^ host

-- `Addr.Prefix(bits)`: the zero address has the zero prefix; too many bits are an error. The zone
-- is dropped.
unfoldable pub addr_prefix : Addr → ℕ → Option Prefix
addr_prefix invalid bits = some no_prefix
addr_prefix (v4 n) bits =
    if leb bits 32 then some (record { addr = v4 (clear_low n (32 - bits)); bits = bits }) else none
addr_prefix (v6 n z) bits =
    if leb bits 128
    then some (record { addr = v6 (clear_low n (128 - bits)) []; bits = bits })
    else none

-- `Prefix.Masked`.
unfoldable pub masked : Prefix → Prefix
unfolding addr_prefix
masked p = elim (addr_prefix p.addr p.bits) [ none ↦ no_prefix | some q ↦ q ]

abbrev pub same_high : ℕ → ℕ → ℕ → Bool
same_high host n m = n / 2 ^ host == m / 2 ^ host

-- `Prefix.Contains`: never for an address with a zone, nor across families.
unfoldable pub prefix_contains : Prefix → Addr → Bool
prefix_contains p a =
    prefix_is_valid p
    && is_empty (zone a)
    && is_valid a
    && bit_len p.addr == bit_len a
    && same_high (bit_len a - p.bits) (value a) (value p.addr)

abbrev pub ip4 : ℕ → ℕ → ℕ → ℕ → Addr
ip4 a b c d = v4 (((a * 256 + b) * 256 + c) * 256 + d)

abbrev block : Addr → ℕ → Prefix
block a bits = record { addr = a; bits = bits }

-- `reservedPrefixes`.
unfoldable pub reserved_prefixes : List Prefix
reserved_prefixes =
    block (ip4 0 0 0 0) 8
    ∷ block (ip4 100 64 0 0) 10
    ∷ block (ip4 192 0 0 0) 24
    ∷ block (ip4 192 0 2 0) 24
    ∷ block (ip4 198 18 0 0) 15
    ∷ block (ip4 198 51 100 0) 24
    ∷ block (ip4 203 0 113 0) 24
    ∷ block (ip4 240 0 0 0) 4
    ∷ block (v6 (0x20010db8 * 2 ^ 96) []) 32
    ∷ block (v6 (0x0100 * 2 ^ 112) []) 64
    ∷ block (v6 (0x2002 * 2 ^ 112) []) 16
    ∷ []

-- The classes of `netip.Addr`, for an address that is not IPv4-mapped.
is_unspecified : Addr → Bool
is_unspecified invalid = false
is_unspecified (v4 n) = n == 0
is_unspecified (v6 n z) = n == 0 && is_empty z

is_loopback : Addr → Bool
is_loopback invalid = false
is_loopback (v4 n) = n / 2 ^ 24 == 127
is_loopback (v6 n z) = n == 1

is_multicast : Addr → Bool
is_multicast invalid = false
is_multicast (v4 n) = n / 2 ^ 28 == 0xe
is_multicast (v6 n z) = n / 2 ^ 120 == 0xff

-- 10.0.0.0/8, 172.16.0.0/12, 192.168.0.0/16, fc00::/7
is_private : Addr → Bool
is_private invalid = false
is_private (v4 n) = n / 2 ^ 24 == 10 || n / 2 ^ 20 == 0xac1 || n / 2 ^ 16 == 0xc0a8
is_private (v6 n z) = n / 2 ^ 121 == 0x7e

-- 169.254.0.0/16, fe80::/10
is_link_local_unicast : Addr → Bool
is_link_local_unicast invalid = false
is_link_local_unicast (v4 n) = n / 2 ^ 16 == 0xa9fe
is_link_local_unicast (v6 n z) = n / 2 ^ 118 == 0x3fa

-- The mask 0xff0f of the first 16 bits, against 0xff02 and 0xff01.
is_link_local_multicast : Addr → Bool
is_link_local_multicast invalid = false
is_link_local_multicast (v4 n) = n / 2 ^ 8 == 0xe00000
is_link_local_multicast (v6 n z) = n / 2 ^ 120 == 0xff && n / 2 ^ 112 % 16 == 2

is_interface_local_multicast : Addr → Bool
is_interface_local_multicast invalid = false
is_interface_local_multicast (v4 n) = false
is_interface_local_multicast (v6 n z) = n / 2 ^ 120 == 0xff && n / 2 ^ 112 % 16 == 1

abbrev same_family : Addr → Addr → Bool
same_family x y = elim (is_4 x) [ true ↦ is_4 y | false ↦ not (is_4 y) ]

-- The loop of `isRoutable` over the reserved prefixes: whether one of them is hit.
abbrev hits_reserved : Addr → List Prefix → Bool
hits_reserved a ps = any (λ p. same_family p.addr a && prefix_contains p a) ps

-- `isRoutable`.
unfoldable pub is_routable : Addr → Bool
unfolding prefix_contains reserved_prefixes is_unspecified is_loopback is_multicast is_private
    is_link_local_unicast is_link_local_multicast is_interface_local_multicast
is_routable addr =
    let a = canonical_ip addr in
    if not (is_valid a)
      || is_unspecified a
      || is_loopback a
      || is_multicast a
      || is_private a
      || is_link_local_unicast a
      || is_link_local_multicast a
      || is_interface_local_multicast a
    then false
    else not (hits_reserved a reserved_prefixes)
