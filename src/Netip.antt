-- ===== src/Netip.antt =====
-- What the program uses of Go's package net/netip: addresses as values, with their tests.
use ngntun.Base.{
  ℕ, ◌/◌, ◌%◌, ◌^◌, Bool, true, false, ◌&&◌, ◌↔◌, ◌≡◌, ◌==◌, if◌then◌else◌, Bytes, [], bytes_eq,
  bytes_eq_iff, arith, Option,
}

-- `netip.Addr`: the zero value, an IPv4 address, or an IPv6 address with its zone.
pub data Addr : Type 0 where
  invalid : Addr
  ip4 : ℕ → Addr
  ip6 : ℕ → Bytes → Addr

pub record AddrPort : Type 0 where
  pub addr : Addr
  pub port : ℕ

abbrev pub is_valid : Addr → Bool
is_valid invalid = false
is_valid (ip4 n) = true
is_valid (ip6 n zone) = true

abbrev pub is4 : Addr → Bool
is4 (ip4 n) = true
is4 _ = false

abbrev pub is6 : Addr → Bool
is6 (ip6 n zone) = true
is6 _ = false

-- `AddrPort.IsValid` looks at the address only.
abbrev pub is_valid_port : AddrPort → Bool
is_valid_port a = is_valid a.addr

-- ::ffff:a.b.c.d becomes a.b.c.d, and loses its zone.
unfoldable pub unmap : Addr → Addr
unmap invalid = invalid
unmap (ip4 n) = ip4 n
unmap (ip6 n zone) = if n / 2 ^ 32 == 0xffff then ip4 (n % 2 ^ 32) else ip6 n zone

unfoldable pub is_unspecified : Addr → Bool
unfolding bytes_eq
is_unspecified invalid = false
is_unspecified (ip4 n) = n == 0
is_unspecified (ip6 n zone) = n == 0 && bytes_eq zone []

-- Go's `==` on addresses.
unfoldable pub addr_eq : Addr → Addr → Bool
unfolding bytes_eq
addr_eq invalid invalid = true
addr_eq (ip4 m) (ip4 n) = m == n
addr_eq (ip6 m zone) (ip6 n zone') = m == n && bytes_eq zone zone'
addr_eq _ _ = false

pub addr_eq_iff : (a b : Addr) → (addr_eq a b ≡ true) ↔ (a ≡ b)
unfolding addr_eq
addr_eq_iff invalid invalid = ground arith
addr_eq_iff (ip6 m zone) (ip6 n zone') = ground (arith, bytes_eq_iff zone zone')
addr_eq_iff _ _ = ground arith

-- `netip.Prefix`: the zero value has an invalid address.
pub record Prefix : Type 0 where
  pub addr : Addr
  pub bits : ℕ

-- Reading and printing addresses is left open: `netip.ParseAddr`, `netip.ParsePrefix`, and the
-- `String` methods. A law that a proof needs is a hypothesis there.
pub record NetipText : Type 0 where
  pub parse_addr : Bytes → Option Addr
  pub parse_prefix : Bytes → Option Prefix
  pub addr_string : Addr → Bytes
  pub prefix_string : Prefix → Bytes
  pub addr_port_string : AddrPort → Bytes
