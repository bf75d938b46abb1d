-- ===== src/Cli/Source/Family.antt =====
-- The family of the address that `resolveSourceV6` of cmd/ngntun/main.go selects.
use ngntun.Base.{
  Bool, true, false, not, ◌&&◌, ◌||◌, List, [], ◌∷◌, Option-cases, none, some, some_injective, ◌≡◌,
  ◌⊎◌, inl, inr, refl, subst, if◌then◌else◌, Bytes, bytes_eq, Bool-cases, ok, ok_injective, arith,
}
use ngntun.Cli.Source.{
  Host, Interface, IfAddr, ip_net, not_ip_net, candidate_v6, interface_loop, is_global_unicast,
  is_private, pick_source_v6, resolve_source_v6, v6_loop, contains_addr,
}
use ngntun.Lease.Provisioning.{Provisioning}
use ngntun.Netip.{Addr, invalid, ip4, ip6, Prefix, NetipText, is_valid, is6, unmap}

-- an IPv6 address, or none yet
abbrev V6OrNone : Addr → Type 0
V6OrNone a = (is6 a ≡ true) ⊎ (a ≡ invalid)

-- how a loop over addresses ends: with an address that was found, or with the fallback
data Found (r : Addr × Bool) : Type 0 where
  found : r.1 ≡ true → is6 r.0 ≡ true → Found r
  unfound : r.1 ≡ false → V6OrNone r.0 → Found r

candidate_v6-is6 : (x : IfAddr) {a : Addr} → candidate_v6 x ≡ some a → is6 a ≡ true
unfolding candidate_v6
candidate_v6-is6 not_ip_net e = cc
candidate_v6-is6 (ip_net none ones bits) e = cc
candidate_v6-is6 (ip_net (some ip) ones bits) {a} e =
    let addr = unmap ip in
    elim (Bool-cases (not (is6 addr) || (not (is_global_unicast addr) || is_private addr))) [
      | inl out ↦ cc (rw out at e)
      | inr good ↦
          subst (λ (x : Addr). is6 x ≡ true) (some_injective (rw good at e)) (ground (arith, good))
    ]

fallback-V6OrNone :
    (fallback a : Addr)
    → V6OrNone fallback
    → is6 a ≡ true
    → V6OrNone (if is_valid fallback then fallback else a)
fallback-V6OrNone fallback a h k = elim (Bool-cases (is_valid fallback)) [
  | inl q ↦ rw q h
  | inr q ↦ rw q (inl k)
]

v6_loop-Found :
    (within : Prefix) (fallback : Addr) (xs : List IfAddr)
    → V6OrNone fallback
    → Found (v6_loop within fallback xs)
unfolding v6_loop
v6_loop-Found within fallback [] h = unfound refl h
v6_loop-Found within fallback (x ∷ xs) h = elim (Option-cases (candidate_v6 x)) [
  | inl q ↦ rw (q, v6_loop) (v6_loop-Found within fallback xs h)
  | inr (a, q) ↦
      let good = candidate_v6-is6 x q in
      elim (Bool-cases (is_valid within.addr && contains_addr within.addr within.bits a)) [
        | inl inside ↦ rw (q, v6_loop, inside) (found refl good)
        | inr outside ↦
            rw (q, v6_loop, outside)
              (v6_loop-Found within _ xs (fallback-V6OrNone fallback a h good))
      ]
]

interface_loop-Found :
    (ifname : Bytes) (within : Prefix) (fallback : Addr) (xs : List Interface)
    → V6OrNone fallback
    → Found (interface_loop ifname within fallback xs)
unfolding interface_loop
interface_loop-Found ifname within fallback [] h = unfound refl h
interface_loop-Found ifname within fallback (x ∷ xs) h =
    let skip = interface_loop-Found ifname within fallback xs h in
    elim (Bool-cases (not (bytes_eq ifname []) && not (bytes_eq x.name ifname))) [
      | inl other ↦ rw (interface_loop, other) skip
      | inr here ↦ elim (Bool-cases x.up) [
        | inr down ↦ rw (interface_loop, here, down) skip
        | inl up ↦ elim (Option-cases x.addrs) [
          | inl q ↦ rw (interface_loop, here, up, q) skip
          | inr (addrs, q) ↦ elim (v6_loop-Found within fallback addrs h) [
            | found e good ↦ rw (interface_loop, here, up, q, e) (found refl good)
            | unfound e rest ↦
                rw (interface_loop, here, up, q, e)
                  (interface_loop-Found ifname within (v6_loop within fallback addrs).0 xs rest)
          ]
        ]
      ]
    ]

pub is6-is_valid : (a : Addr) → is6 a ≡ true → is_valid a ≡ true
is6-is_valid (ip4 n) e = refl
is6-is_valid (ip6 n zone) e = refl
is6-is_valid invalid e = cc

and_false : (b : Bool) → (b && false) ≡ false
and_false b = ground arith

pick_source_v6-is6 :
    (host : Host) (ifname : Bytes) (within : Prefix) {a : Addr}
    → pick_source_v6 host ifname within ≡ ok a
    → is6 a ≡ true
unfolding pick_source_v6
pick_source_v6-is6 host ifname within {a} e = elim (Option-cases host.interfaces) [
  | inl q ↦ cc (rw (q, pick_source_v6) at e)
  | inr (xs, q) ↦ elim (interface_loop-Found ifname within invalid xs (inr refl)) [
    | found q' good ↦
        subst (λ (x : Addr). is6 x ≡ true) (ok_injective _ refl (rw (q, pick_source_v6, q') at e))
          good
    | unfound q' (inl good) ↦
        let found = (interface_loop ifname within invalid xs).0 in
        elim (Bool-cases (is_valid within.addr && is_valid found)) [
          | inl off ↦ cc (rw (q, pick_source_v6, q', off) at e)
          | inr near ↦
              subst (λ (x : Addr). is6 x ≡ true)
                (ok_injective _ refl
                  (rw (q, pick_source_v6, q', near, is6-is_valid found good) at e))
                good
        ]
    | unfound q' (inr nowhere) ↦
        cc (rw (q, pick_source_v6, q', nowhere, and_false (is_valid within.addr)) at e)
  ]
]

pub resolve_source_v6-is6 :
    (text : NetipText) (host : Host) (source_addr : Bytes) (p : Provisioning) {a : Addr}
    → resolve_source_v6 text host source_addr p ≡ ok a
    → is6 a ≡ true
unfolding resolve_source_v6
resolve_source_v6-is6 text host source_addr p {a} e = elim (Bool-cases (bytes_eq source_addr [])) [
  | inl q ↦ pick_source_v6-is6 host p.interface p.delegated (rw (q, resolve_source_v6) at e)
  | inr q ↦ elim (Option-cases (text.parse_addr source_addr)) [
    | inl q' ↦ cc (rw (q, q', resolve_source_v6) at e)
    | inr (b, q') ↦ elim (Bool-cases (is6 b)) [
      | inl good ↦
          subst (λ (x : Addr). is6 x ≡ true)
            (ok_injective _ refl (rw (q, q', good, resolve_source_v6) at e)) good
      | inr bad ↦ cc (rw (q, q', bad, resolve_source_v6) at e)
    ]
  ]
]
