-- ===== src/Tests/Line.antt =====
-- Runs of the command line.
use ngntun.Base.Int.{pos}
use ngntun.Base.{
  ◌*◌, true, false, List, [], ◌∷◌, ◌++◌, Option, none, some, ◌≡◌, refl, ok, err, codes, Bytes,
  arith, if◌then◌else◌,
}
use ngntun.Cli.Main.Starting.{Starts, run-Starts}
use ngntun.Cli.Main.{Outcome, read_config, run}
use ngntun.Cli.Exit.{run_exit}
use ngntun.Lease.Load.{Files, load_json, load_v4, load_v6, not_exist}
use ngntun.Cli.Options.{Options, default_options}
use ngntun.Cli.Config.{SessionConfig, build_config}
use ngntun.Cli.Source.{Host, IfAddr, ip_net, not_ip_net, select_v4}
use ngntun.Cli.Values.Bandwidth.{factor, lower_m, parse_bandwidth-itoa, unit_text}
use ngntun.Cli.Values.{new_logger, parse_bandwidth}
use ngntun.Session.Supervise.{command_exit}
use ngntun.Netip.{Addr, NetipText, invalid, ip4, ip6}
use ngntun.Text.Decimal.{itoa}
use ngntun.Text.Find.{contains}
use ngntun.Sip.Response.{Config}

parse_bandwidth-itoa_example :
    parse_bandwidth (itoa 2 ++ unit_text lower_m) ≡ some (pos (2 * factor lower_m))
parse_bandwidth-itoa_example = parse_bandwidth-itoa lower_m 2 (omega arith) (omega arith)

-- 10.0.0.5/8 and 192.168.1.7/24 behind a loopback address
abbrev addresses : List IfAddr
addresses =
    ip_net (some (ip4 0x7f000001)) 8 32
    ∷ not_ip_net
    ∷ ip_net (some (ip4 0x0a000005)) 8 32
    ∷ ip_net (some (ip4 0xc0a80107)) 24 32
    ∷ []

-- the address in the subnet is taken, though another one stands before it
select_v4-near : select_v4 addresses (ip4 0xc0a80101) ≡ ok (ip4 0xc0a80107)
unfolding select_v4
select_v4-near = refl

abbrev addr_of : Bytes → Option Addr
addr_of s = if contains s (codes ":") then some (ip6 7 []) else some (ip4 0xc0a80101)

abbrev reader : NetipText
reader = record {
  parse_addr = addr_of;
  parse_prefix = λ s. none;
  addr_string = λ a. [];
  prefix_string = λ p. [];
  addr_port_string = λ ap. [];
}

abbrev host : Host
host = record { interfaces = none; by_name = λ s. none }

abbrev options : Options
options = record default_options {
  peer_number = codes "0120";
  sip_server = codes "fe80::1";
  registrar4 = codes "192.168.1.1";
  source_v4 = codes "192.168.1.7";
  source_addr = codes "2001::1";
  sip_domain = codes "ntt.jp";
  extension = codes "3";
}

abbrev sip : Config
sip = record {
  domain = codes "ntt.jp";
  extension = codes "3";
  self_number = [];
  registrar = record { addr = ip4 0xc0a80101; port = 5060 };
  proxy = record { addr = ip6 7 []; port = 5060 };
  local_v4 = record { addr = ip4 0xc0a80101; port = 5060 };
  local_v6 = record { addr = ip6 7 []; port = 5060 };
  register_expires = 0;
  session_expires = 0;
  user_agent = codes "ngntun";
  register_over_ipv6 = false;
}

abbrev config : SessionConfig
config = record {
  sip = sip;
  peer_number = codes "0120";
  command = [];
  answer_mode = false;
  allow_from = [];
  register_only = false;
  self_v6 = ip6 7 [];
  media_port = pos 0;
  bandwidth_kbps = pos 64;
  tun_name = codes "dc0";
  tun_addr = record { addr = invalid; bits = 0 };
  tun_peer = invalid;
  tun_mtu = pos 1452;
  routes = [];
  route_table = pos 0;
  force = false;
  media_route = true;
  media_gateway = ip6 7 [];
  idle_limit = pos 30000000000;
  max_hold = pos 600000000000;
  media_limit = pos 10000000000;
  strict_peer_port = false;
  bind_device = [];
}

config-built : build_config reader options none none host ≡ ok config
unfolding build_config contains
config-built = refl

-- a host without leases
abbrev files : Files
files = record {
  read_file = λ p. err not_exist;
  unmarshal_v6 = λ b. none;
  unmarshal_v4 = λ b. none;
}

-- a session that ends with the command, which exits with 7
abbrev session : SessionConfig → Outcome
session c = (some (command_exit, pos 7), none)

started : run reader files options host session ≡ record { code = pos 7; session = some config }
unfolding run read_config build_config contains new_logger run_exit load_v6 load_v4 load_json
started = refl

run-Starts_example :
    Starts reader files options host session (run reader files options host session)
run-Starts_example = run-Starts reader files options host session
