-- ===== src/Tests/Network.antt =====
-- Runs of the forwarder, the kernel setup and the session description.
use ngntun.Base.{
  ℕ, ◌+◌, ◌==◌, Bool, true, false, List, [], ◌∷◌, Option, none, some, ◌≡◌, ◌⊎◌, ◌∙◌, inl, inr,
  Bool-cases, refl, sym, ap, subst, if◌then◌else◌, Bytes, codes, ok, All, arith, length,
}
use ngntun.Base.Int.{pos}
use ngntun.Media.Ending.{Runs, run-Runs}
use ngntun.Tundev.Creation.{Creates, create-Creates}
use ngntun.Tundev.{create, ebusy}
use ngntun.Media.Forwarder.{
  network_read_failed, Config, Event, from_tun, from_network, written, failed, new, run, step,
}
use ngntun.Media.Source.{run-FromPeer, FromPeer, OnePort}
use ngntun.Media.Counting.{run-handled, run-IsTimed, handled, IsTimed}
use ngntun.Netcfg
use ngntun.Netcfg.{
  Call, addr_add, addr_del, link_set_mtu, link_set_up, link_set_down, route_add, route_del,
  link_del, Netlink, HostRoute, apply, ensure_host_route, rollback_opt,
}
use ngntun.Netcfg.Reach.{ensure_host_route-rollback_opt}
use ngntun.Netcfg.Rollback.{Laws, Restores, after_mtu, apply-Restores}
use ngntun.Netip.{
  Addr, is4, ip4, ip6, invalid, AddrPort, NetipText, Prefix, is_valid, unmap, is_unspecified,
}
use ngntun.Sdp.{Offer, parse_answer, marshal, setup_active}
use ngntun.Sdp.RoundTrip.{IsSendable, parse_answer-marshal}

-- a remote endpoint, one behind the same address, and a stranger
abbrev remote_end : AddrPort
remote_end = record { addr = ip4 5; port = 4000 }

abbrev shifted_end : AddrPort
shifted_end = record { addr = ip4 5; port = 4001 }

abbrev stranger : AddrPort
stranger = record { addr = ip4 9; port = 4000 }

-- 20 bytes with the version 4
abbrev packet : Bytes
packet = 69 ∷ 0 ∷ 0 ∷ 20 ∷ 0 ∷ 0 ∷ 0 ∷ 0 ∷ 64 ∷ 17 ∷ 0 ∷ 0 ∷ 10 ∷ 0 ∷ 0 ∷ 1 ∷ 10 ∷ 0 ∷ 0 ∷ 2 ∷ []

abbrev config : Bool → Config
config strict = record { remote = remote_end; strict_peer_port = strict }

abbrev traffic : List Event
traffic =
    from_network 10 stranger packet written
    ∷ from_network 11 shifted_end packet written
    ∷ from_network 12 remote_end packet written
    ∷ from_network 13 shifted_end (69 ∷ []) written
    ∷ from_tun 14 packet written
    ∷ from_network 15 shifted_end packet (failed false)
    ∷ []

run-FromPeer_example :
    All
      (FromPeer (config false) (OnePort (run traffic (new (config false) 1)).next.learned_port))
      (run traffic (new (config false) 1)).output
unfolding new
run-FromPeer_example = run-FromPeer traffic (new (config false) 1) refl

run-handled_example :
    handled (run traffic (new (config false) 1)).next.stats
    ≡ handled (new (config false) 1).stats + length traffic
unfolding run new step
run-handled_example = run-handled traffic (new (config false) 1) (omega arith) refl

run-IsTimed_example : IsTimed 1 (run traffic (new (config false) 1)).next
run-IsTimed_example = run-IsTimed (config false) 1 traffic (omega arith)

-- A kernel with one link: its addresses, its routes, its MTU and whether it is up. A route to no
-- valid destination cannot be added.
record ToyKernel : Type 0 where
  addrs : List Prefix
  routes : List Netcfg.Route
  mtu : ℕ
  up : Bool

abbrev pop {ℓ} : {A : Type ℓ} → List A → List A
pop [] = []
pop (x ∷ xs) = xs

-- the addresses that stay when the link is set down
abbrev kept : List Prefix → List Prefix
kept [] = []
kept (p ∷ ps) = let rest = kept ps in if is4 p.addr then p ∷ rest else rest

abbrev toy_call : ToyKernel → Call → Option ToyKernel
toy_call k (link_set_mtu link n) = some (record k { mtu = n })
toy_call k (addr_add link p peer) = some (record k { addrs = p ∷ k.addrs })
toy_call k (addr_del link p peer) = elim k.addrs [
  | [] ↦ none
  | x ∷ xs ↦ some (record k { addrs = xs })
]
toy_call k (link_set_up link) = some (record k { up = true })
toy_call k (link_set_down link) = some (record k { up = false; addrs = kept k.addrs })
toy_call k (route_add r) =
    if is_valid r.dst.addr then some (record k { routes = r ∷ k.routes }) else none
toy_call k (route_del r) = some (record k { routes = pop k.routes })
toy_call k (link_del link) = none

abbrev toy : Netlink
toy = record {
  Kernel = ToyKernel;
  link_by_name = λ k name. some 1;
  link_type = λ k link. codes "tuntap";
  route_get = λ k dst dev. false;
  call = toy_call;
}

some_injective {ℓ} : {A : Type ℓ} {x y : A} → some x ≡ some y → x ≡ y
some_injective e = cc

toy-Laws : Laws toy
toy-Laws = record {
  IsDown = λ k link. k.up ≡ false;
  IsFresh = λ k link. (k.up ≡ false) × (k.addrs ≡ []);
  drop = λ k link. record k { addrs = kept k.addrs };
  fresh_down = λ link k fresh. fresh.0;
  addr_back = λ link p peer k k' e.
      subst (λ z. toy_call z (addr_del link p peer) ≡ some k) (some_injective e) refl;
  route_back = λ r k k' e. elim (Bool-cases (is_valid r.dst.addr)) [
    | inl valid ↦
        subst (λ z. toy_call z (route_del r) ≡ some k) (some_injective (rw valid at e)) refl
    | inr bad ↦ absurd (none_some (rw bad at e))
  ];
  down_drops = λ link k k' down e.
      subst (λ z. toy_call z (link_set_down link) ≡ some (record k { addrs = kept k.addrs }))
        (some_injective e) (ap (λ b. some (record k { up = b; addrs = kept k.addrs })) (sym down));
  drop_fresh = λ link k fresh.
      ap (λ l. record k { addrs = kept l }) fresh.1
      ∙ ap (λ l. record k { addrs = l }) (sym fresh.1);
  drop_addr = λ link p peer k k' fresh e.
      subst
        (λ z.
          ((record z { addrs = kept z.addrs } ≡ k) × (toy_call k (addr_del link p peer) ≡ none))
          ⊎ (record z { addrs = kept z.addrs } ≡ z))
        (some_injective e) (dropped k link p peer fresh.1);
  mtu_fresh = λ link mtu k k' fresh e.
      subst (λ z. (z.up ≡ false) × (z.addrs ≡ [])) (some_injective e) fresh;
  addr_down = λ link p peer k k' down e. subst (λ z. z.up ≡ false) (some_injective e) down;
}
  where
    dropped :
        (k : ToyKernel) (link : ℕ) (p : Prefix) (peer : Addr)
        → k.addrs ≡ []
        → ((record k { addrs = kept (p ∷ k.addrs) } ≡ k)
            × (toy_call k (addr_del link p peer) ≡ none))
          ⊎ (record k { addrs = kept (p ∷ k.addrs) } ≡ record k { addrs = p ∷ k.addrs })
    dropped k link p peer e = elim (Bool-cases (is4 p.addr)) [
      | inl four ↦ inr (
          ap (λ l. record k { addrs = kept (p ∷ l) }) e
          ∙ ap (λ b. record k { addrs = if b then p ∷ [] else [] }) four
          ∙ ap (λ l. record k { addrs = p ∷ l }) (sym e))
      | inr six ↦ inl (
        ap (λ l. record k { addrs = kept (p ∷ l) }) e
            ∙ ap (λ b. record k { addrs = if b then p ∷ [] else [] }) six
            ∙ ap (λ l. record k { addrs = l }) (sym e),
        ap
            (λ l. elim l as (λ x. Option ToyKernel) [
              | [] ↦ none
              | x ∷ xs ↦ some (record k { addrs = xs })
            ])
            e,
      )
    ]

    none_some : {A : Type 0} {x : A} → none ≡ some x → ⊥
    none_some e = cc

abbrev before : ToyKernel
before = record { addrs = []; routes = []; mtu = 1500; up = false }

-- The second route is refused, so that the first, the link and the address are taken back; setting the link down has
-- dropped the address already.
abbrev tun_config : Netcfg.Config
tun_config = record {
  name = codes "tun0";
  mtu = 1280;
  addr = record { addr = ip6 7 []; bits = 128 };
  peer = invalid;
  routes = record { addr = ip4 8; bits = 24 } ∷ record { addr = invalid; bits = 0 } ∷ [];
  table = 100;
}

apply-Restores_example :
    Restores toy (after_mtu toy tun_config before) (apply toy tun_config before)
unfolding toy-Laws
apply-Restores_example = apply-Restores toy toy-Laws tun_config before (λ link e. (refl, refl))

abbrev host : HostRoute
host = record { dst = ip4 3; via = ip4 1; dev = codes "eth0" }

abbrev added : Netcfg.Route
added = record { link = 1; dst = record { addr = ip4 3; bits = 32 }; gateway = ip4 1; table = 0 }

ensure_host_route-host :
    ensure_host_route toy host before
    ≡ ok (some (route_del added ∷ []), record before { routes = added ∷ [] })
unfolding ensure_host_route
ensure_host_route-host = refl

ensure_host_route-rollback_opt_example :
    (rollback_opt toy (some (route_del added ∷ [])) (record before { routes = added ∷ [] })
      ≡ before)
    × (false ≡ true → record before { routes = added ∷ [] } ≡ before)
ensure_host_route-rollback_opt_example =
    ensure_host_route-rollback_opt toy toy-Laws host before (record before { routes = added ∷ [] })
      ensure_host_route-host

-- Addresses that are printed as one word, and read by it.
abbrev toy_text : NetipText
toy_text = record {
  parse_addr = λ s. elim s [ [] ↦ none | c ∷ s' ↦ some (if c == b'6' then ip6 6 [] else ip4 c) ];
  parse_prefix = λ s. none;
  addr_string = λ a. elim a [ ip4 n ↦ n ∷ [] | ip6 n zone ↦ codes "6::" | invalid ↦ codes "bad" ];
  prefix_string = λ p. [];
  addr_port_string = λ ap. [];
}

abbrev offer : Offer
offer = record {
  addr = ip6 6 [];
  port = 5004;
  bandwidth_kbps = 64;
  setup = setup_active;
  session_id = 1;
  session_ver = 1;
}

offer-IsSendable : IsSendable toy_text offer
unfolding unmap is_unspecified
offer-IsSendable = record {
  addr_read = refl;
  addr_ne_nil = λ e. cc;
  addr_word = omega arith;
  addr_valid = refl;
  addr_unmapped = refl;
  addr_specified = refl;
  port_pos = omega arith;
  port_lt = omega arith;
  bandwidth_lt = omega arith;
  setup_word = omega arith;
}

parse_answer-marshal_example :
    parse_answer toy_text (marshal toy_text offer)
    ≡ ok
        (record { addr = ip6 6 []; port = pos 5004; bandwidth_kbps = pos 64; setup = setup_active })
parse_answer-marshal_example = parse_answer-marshal toy_text offer offer-IsSendable

-- the receive fails, tun goes on for a packet, and then fails too
abbrev broken : List Event
broken = from_tun 10 packet written ∷ network_read_failed false ∷ from_tun 11 packet written ∷ []

run-Runs_example : Runs broken (new (config false) 1)
run-Runs_example = run-Runs broken (new (config false) 1)

create-Creates_example :
    Creates 16 (codes "ngn0") (create 16 (record { opens = true; ioctl = ebusy }) (codes "ngn0"))
create-Creates_example = create-Creates 16 (record { opens = true; ioctl = ebusy }) (codes "ngn0")
