-- ===== src/Cli/Source.antt =====
-- The own addresses that cmd/ngntun/main.go selects: `selectV4`, `pickSourceV4`, `resolveSourceV4`,
-- `pickSourceV6` and `resolveSourceV6`. The interfaces are what Go's package net returns.
pub mod Choice
pub mod Family
use ngntun.Base.{
  ℕ, ◌-◌, ◌/◌, ◌%◌, ◌^◌, Bool, true, false, not, ◌&&◌, ◌||◌, List, [], ◌∷◌, Option, none, some,
  ◌==◌, leb, if◌then◌else◌, Bytes, bytes_eq, Result, ok, err,
}
use ngntun.Lease.Provisioning.{Provisioning}
use ngntun.Netip.{Addr, invalid, ip4, ip6, NetipText, Prefix, is_valid, is4, is6, unmap}

-- A `net.Addr`: `IPNet` has the address of `AddrFromSlice`, if it is one, and the `Size` of its mask.
pub data IfAddr : Type 0 where
  ip_net : (ip : Option Addr) → (ones bits : ℕ) → IfAddr
  not_ip_net : IfAddr

pub record Interface : Type 0 where
  pub name : Bytes
  pub up : Bool
  pub addrs : Option (List IfAddr)

-- `net.Interfaces` and `net.InterfaceByName`
pub record Host : Type 0 where
  pub interfaces : Option (List Interface)
  pub by_name : Bytes → Option Interface

-- `IsGlobalUnicast`, on an address that is not IPv4-mapped
unfoldable pub is_global_unicast : Addr → Bool
is_global_unicast invalid = false
is_global_unicast (ip4 n) =
    not (n == 0 || n == 2 ^ 32 - 1)
    && (not (n / 2 ^ 24 == 127) && (not (n / 2 ^ 28 == 14) && not (n / 2 ^ 16 == 0xa9fe)))
is_global_unicast (ip6 n zone) =
    not (n == 0) && (not (n == 1) && (not (n / 2 ^ 120 == 255) && not (n / 2 ^ 118 == 0x3fa)))

-- `IsPrivate`, on an address that is not IPv4-mapped
unfoldable pub is_private : Addr → Bool
is_private invalid = false
is_private (ip4 n) = n / 2 ^ 24 == 10 || (n / 2 ^ 20 == 0xac1 || n / 2 ^ 16 == 0xc0a8)
is_private (ip6 n zone) = n / 2 ^ 121 == 126

-- the `Contains` of a prefix with that address and length: an address with a zone is in no prefix
unfoldable pub contains_addr : Addr → ℕ → Addr → Bool
contains_addr (ip4 p) bits (ip4 n) = p / 2 ^ (32 - bits) == n / 2 ^ (32 - bits)
contains_addr (ip6 p zone) bits (ip6 n []) = p / 2 ^ (128 - bits) == n / 2 ^ (128 - bits)
contains_addr _ _ _ = false

pub data SourceError : Type 0 where
  no_interface is_down no_addresses off_subnet no_candidate bad_source not_v6 : SourceError

-- The addresses that the loop of `selectV4` looks at, with the length of their mask, 0 for a mask that
-- is not one of 32 bits; the tests at the top of the loop.
unfoldable pub candidate_v4 : IfAddr → Option (Addr × Option ℕ)
unfolding unmap is_global_unicast
candidate_v4 not_ip_net = none
candidate_v4 (ip_net none ones bits) = none
candidate_v4 (ip_net (some ip) ones bits) =
    let addr = unmap ip in
    if not (is4 addr) || not (is_global_unicast addr)
    then none
    else some (addr, if bits == 32 then some ones else none)

-- whether `reach` is in the subnet of the address
unfoldable pub reaches : Addr → Addr → Option ℕ → Bool
unfolding contains_addr
reaches reach addr none = false
reaches reach addr (some ones) = is_valid reach && contains_addr addr ones reach

-- the loop, with the first candidate as the fallback: an address that reaches, or the fallback
unfoldable pub v4_loop : Addr → Addr → List IfAddr → Addr × Bool
unfolding candidate_v4 reaches
v4_loop reach fallback [] = (fallback, false)
v4_loop reach fallback (a ∷ addrs) =
    let skip = v4_loop reach fallback addrs in
    elim (candidate_v4 a) [
      | none ↦ skip
      | some (addr, mask) ↦
          let next = v4_loop reach (if is_valid fallback then fallback else addr) addrs in
          if reaches reach addr mask then (addr, true) else next
    ]

-- `selectV4`
unfoldable pub select_v4 : List IfAddr → Addr → Result SourceError Addr
unfolding v4_loop
select_v4 addrs reach =
    let (addr, found) = v4_loop reach invalid addrs in
    if found
    then ok addr
    else if is_valid reach && is_valid addr
    then err off_subnet
    else if is_valid addr
    then ok addr
    else err no_candidate

-- `pickSourceV4`
unfoldable pub pick_source_v4 : Host → Bytes → Addr → Result SourceError Addr
unfolding select_v4 bytes_eq
pick_source_v4 host ifname reach =
    if bytes_eq ifname [] then err no_interface else elim (host.by_name ifname) [
      | none ↦ err no_interface
      | some ifi ↦
          if not ifi.up
          then err is_down
          else elim ifi.addrs [ none ↦ err no_addresses | some addrs ↦ select_v4 addrs reach ]
    ]

-- `resolveSourceV4`
unfoldable pub resolve_source_v4 : Host → Bytes → Provisioning → Provisioning
unfolding pick_source_v4 bytes_eq
resolve_source_v4 host source_v4 p =
    if not (bytes_eq source_v4 []) then p else elim (pick_source_v4 host p.interface p.registrar4) [
      | err e ↦ p
      | ok addr ↦ record p { self_v4 = addr }
    ]

-- the tests of `pickSourceV6` on one address
unfoldable pub candidate_v6 : IfAddr → Option Addr
unfolding unmap is_global_unicast is_private
candidate_v6 not_ip_net = none
candidate_v6 (ip_net none ones bits) = none
candidate_v6 (ip_net (some ip) ones bits) =
    let addr = unmap ip in
    if not (is6 addr) || (not (is_global_unicast addr) || is_private addr) then none else some addr

unfoldable pub v6_loop : Prefix → Addr → List IfAddr → Addr × Bool
unfolding candidate_v6 contains_addr
v6_loop within fallback [] = (fallback, false)
v6_loop within fallback (a ∷ addrs) =
    let skip = v6_loop within fallback addrs in
    elim (candidate_v6 a) [
      | none ↦ skip
      | some addr ↦
          let next = v6_loop within (if is_valid fallback then fallback else addr) addrs in
          if is_valid within.addr && contains_addr within.addr within.bits addr
          then (addr, true)
          else next
    ]

-- the addresses of the interfaces that the outer loop of `pickSourceV6` goes through
unfoldable pub interface_loop : Bytes → Prefix → Addr → List Interface → Addr × Bool
unfolding v6_loop bytes_eq
interface_loop ifname within fallback [] = (fallback, false)
interface_loop ifname within fallback (ifi ∷ ifaces) =
    let skip = interface_loop ifname within fallback ifaces in
    if not (bytes_eq ifname []) && not (bytes_eq ifi.name ifname)
    then skip
    else if not ifi.up
    then skip
    else elim ifi.addrs [
      | none ↦ skip
      | some addrs ↦
          let (addr, found) = v6_loop within fallback addrs in
          let rest = interface_loop ifname within addr ifaces in
          if found then (addr, true) else rest
    ]

-- `pickSourceV6`
unfoldable pub pick_source_v6 : Host → Bytes → Prefix → Result SourceError Addr
unfolding interface_loop
pick_source_v6 host ifname within = elim host.interfaces [
  | none ↦ err no_addresses
  | some ifaces ↦
      let (addr, found) = interface_loop ifname within invalid ifaces in
      if found
      then ok addr
      else if is_valid within.addr && is_valid addr
      then err off_subnet
      else if is_valid addr
      then ok addr
      else err no_candidate
]

-- `resolveSourceV6`
unfoldable pub resolve_source_v6 : NetipText → Host → Bytes → Provisioning → Result SourceError Addr
unfolding pick_source_v6 bytes_eq
resolve_source_v6 text host source_addr p =
    if not (bytes_eq source_addr [])
    then elim (text.parse_addr source_addr) [
      | none ↦ err bad_source
      | some a ↦ if not (is6 a) then err not_v6 else ok a
    ]
    else pick_source_v6 host p.interface p.delegated
