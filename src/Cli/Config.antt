-- ===== src/Cli/Config.antt =====
-- `applyOverrides` and `buildConfig` of cmd/ngntun/main.go. The leases are what internal/lease reads
-- from the files, `none` where it fails, which `buildConfig` only logs.
pub mod Ready
use ngntun.Base.Int.{ℤ, pos, negsuc}
use ngntun.Base.{
  ℕ, ◌+◌, ◌-◌, ◌%◌, ◌^◌, Bool, true, false, not, ◌&&◌, List, [], ◌∷◌, Option, none, some,
  if◌then◌else◌, Bytes, codes, bytes_eq, Result, ok, err, ◌>>=◌, or_err,
}
use ngntun.Cli.Options.{Options}
use ngntun.Cli.Source.{Host, SourceError, resolve_source_v4, resolve_source_v6}
use ngntun.Cli.Values.{parse_bandwidth, parse_media_route, parse_register_transport}
use ngntun.Lease.Provisioning.{Provisioning, V6, V4, BuildError, ValidateError, build, validate}
use ngntun.Netip.{Addr, invalid, Prefix, NetipText}
use ngntun.Sip.Response.{Config}

-- `session.Config`
pub record SessionConfig : Type 0 where
  pub sip : Config
  pub peer_number : Bytes
  pub command : List Bytes
  pub answer_mode : Bool
  pub allow_from : List Bytes
  pub register_only : Bool
  pub self_v6 : Addr
  pub media_port : ℤ
  pub bandwidth_kbps : ℤ
  pub tun_name : Bytes
  pub tun_addr : Prefix
  pub tun_peer : Addr
  pub tun_mtu : ℤ
  pub routes : List Prefix
  pub route_table : ℤ
  pub force : Bool
  pub media_route : Bool
  pub media_gateway : Addr
  pub idle_limit : ℤ
  pub max_hold : ℤ
  pub media_limit : ℤ
  pub strict_peer_port : Bool
  pub bind_device : Bytes

pub data ConfigError : Type 0 where
  no_peer_number command_without_tunnel bad_transport : ConfigError
  bad_sip_server bad_registrar4 bad_source_v4 : ConfigError
  bad_lease : BuildError → ConfigError
  incomplete : ValidateError → ConfigError
  no_source : SourceError → ConfigError
  bad_bandwidth bad_media_route bad_media_gateway bad_tun_addr bad_tun_peer bad_route : ConfigError

-- the int as a uint16, which wraps around
abbrev pub to_uint16 : ℤ → ℕ
to_uint16 (pos n) = n % 2 ^ 16
to_uint16 (negsuc n) = 2 ^ 16 - 1 - n % 2 ^ 16

-- the text, or the other one if it is empty
text_or : Bytes → Bytes → Bytes
text_or [] other = other
text_or (c ∷ s) other = c ∷ s

-- the options that stand against each other
unfoldable pub check_modes : Bool → Bool → Bytes → List Bytes → Result ConfigError (Unit {0})
check_modes true answer peer [] = ok tt
check_modes true answer peer (c ∷ cs) = err command_without_tunnel
check_modes false true peer command = ok tt
check_modes false false [] command = err no_peer_number
check_modes false false (c ∷ s) command = ok tt

unfoldable pub from_build : Result BuildError Provisioning → Result ConfigError Provisioning
from_build (ok p) = ok p
from_build (err e) = err (bad_lease e)

unfoldable pub from_validate : Result ValidateError (Unit {0}) → Result ConfigError (Unit {0})
from_validate (ok u) = ok tt
from_validate (err e) = err (incomplete e)

unfoldable pub from_source : Result SourceError Addr → Result ConfigError Addr
from_source (ok a) = ok a
from_source (err e) = err (no_source e)

-- the `sip.Config`, whose lifetimes stay 0
unfoldable pub sip_config : Options → Provisioning → Addr → Bool → Config
sip_config opt p self_v6 over_ipv6 = record {
  domain = p.sip_domain;
  extension = p.extension;
  self_number = opt.self_number;
  registrar = record { addr = p.registrar4; port = 5060 };
  proxy = record { addr = p.sip_server; port = 5060 };
  local_v4 = record { addr = p.self_v4; port = to_uint16 opt.sip_port };
  local_v6 = record { addr = self_v6; port = to_uint16 opt.sip_port };
  register_expires = 0;
  session_expires = 0;
  user_agent = codes "ngntun";
  register_over_ipv6 = over_ipv6;
}

module _ (text : NetipText) where
  -- `if s != "" { a, err := netip.ParseAddr(s) … }`
  unfoldable pub addr_override : ConfigError → Bytes → Addr → Result ConfigError Addr
  addr_override e [] a = ok a
  addr_override e (c ∷ s) a = or_err (text.parse_addr (c ∷ s)) e

  -- `applyOverrides`
  unfoldable pub apply_overrides : Options → Provisioning → Result ConfigError Provisioning
  unfolding addr_override text_or
  apply_overrides opt p = do
    server ← addr_override bad_sip_server opt.sip_server p.sip_server
    registrar ← addr_override bad_registrar4 opt.registrar4 p.registrar4
    source ← addr_override bad_source_v4 opt.source_v4 p.self_v4
    ok (record p {
      sip_server = server;
      registrar4 = registrar;
      self_v4 = source;
      sip_domain = text_or opt.sip_domain p.sip_domain;
      extension = text_or opt.extension p.extension;
      interface = text_or opt.wan_iface p.interface;
    })

  -- the loop over the routes
  unfoldable pub parse_routes : List Bytes → Result ConfigError (List Prefix)
  parse_routes [] = ok []
  parse_routes (r ∷ rs) = do
    p ← or_err (text.parse_prefix r) bad_route
    ps ← parse_routes rs
    ok (p ∷ ps)

  unfoldable pub parse_tun_addr : Bytes → Result ConfigError Prefix
  parse_tun_addr [] = ok (record { addr = invalid; bits = 0 })
  parse_tun_addr (c ∷ s) = or_err (text.parse_prefix (c ∷ s)) bad_tun_addr

  -- from the provisioning data on
  unfoldable pub finish_config :
      Options → Bool → Host → Provisioning → Result ConfigError SessionConfig
  unfolding from_source resolve_source_v6 parse_bandwidth parse_media_route addr_override
      parse_tun_addr parse_routes sip_config text_or
  finish_config opt over_ipv6 host p = do
    self_v6 ← from_source (resolve_source_v6 text host opt.source_addr p)
    bandwidth ← or_err (parse_bandwidth opt.bandwidth) bad_bandwidth
    media_route ← or_err (parse_media_route opt.media_route) bad_media_route
    gateway ← addr_override bad_media_gateway opt.media_gateway p.sip_server
    tun_addr ← parse_tun_addr opt.tun_addr
    tun_peer ← addr_override bad_tun_peer opt.tun_peer invalid
    routes ← parse_routes opt.routes
    ok (record {
      sip = sip_config opt p self_v6 over_ipv6;
      peer_number = opt.peer_number;
      command = opt.command;
      answer_mode = opt.answer;
      allow_from = opt.allow_from;
      register_only = opt.register_only;
      self_v6 = self_v6;
      media_port = opt.media_port;
      bandwidth_kbps = bandwidth;
      tun_name = opt.tun_name;
      tun_addr = tun_addr;
      tun_peer = tun_peer;
      tun_mtu = opt.tun_mtu;
      routes = routes;
      route_table = opt.route_table;
      force = opt.force;
      media_route = media_route;
      media_gateway = gateway;
      idle_limit = opt.idle_limit;
      max_hold = opt.max_hold;
      media_limit = opt.media_limit;
      strict_peer_port = opt.strict_peer;
      bind_device = text_or opt.bind_device opt.wan_iface;
    })

  -- `buildConfig`
  unfoldable pub build_config :
      Options → Option V6 → Option V4 → Host → Result ConfigError SessionConfig
  unfolding check_modes parse_register_transport from_build build apply_overrides resolve_source_v4
      from_validate validate finish_config
  build_config opt v6 v4 host = do
    _ ← check_modes opt.register_only opt.answer opt.peer_number opt.command
    over_ipv6 ← or_err (parse_register_transport opt.register_transport) bad_transport
    p ← from_build (build text v6 v4)
    q ← apply_overrides opt p
    let r = resolve_source_v4 host opt.source_v4 q
    _ ← from_validate (validate r)
    finish_config opt over_ipv6 host r
