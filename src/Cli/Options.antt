-- ===== src/Cli/Options.antt =====
-- The options of cmd/ngntun/main.go that make the configuration, with their defaults.
use ngntun.Base.Int.{ℤ, pos}
use ngntun.Base.{Bool, false, List, [], Bytes, codes}

-- the options that the configuration is made of; durations are nanoseconds
pub record Options : Type 0 where
  pub peer_number : Bytes
  pub self_number : Bytes
  pub lease_path : Bytes
  pub lease4_path : Bytes
  pub sip_server : Bytes
  pub registrar4 : Bytes
  pub sip_domain : Bytes
  pub extension : Bytes
  pub source_addr : Bytes
  pub source_v4 : Bytes
  pub wan_iface : Bytes
  pub bind_device : Bytes
  pub bandwidth : Bytes
  pub sip_port : ℤ
  pub media_port : ℤ
  pub tun_name : Bytes
  pub tun_addr : Bytes
  pub tun_peer : Bytes
  pub tun_mtu : ℤ
  pub routes : List Bytes
  pub route_table : ℤ
  pub media_route : Bytes
  pub media_gateway : Bytes
  pub register_transport : Bytes
  pub register_only : Bool
  pub idle_limit : ℤ
  pub max_hold : ℤ
  pub media_limit : ℤ
  pub answer : Bool
  pub allow_from : List Bytes
  pub strict_peer : Bool
  pub force : Bool
  pub log_level : Bytes
  pub log_format : Bytes
  pub dry_run : Bool
  pub command : List Bytes

-- the defaults of `parseFlags`
abbrev pub default_options : Options
default_options = record {
  peer_number = [];
  self_number = [];
  lease_path = codes "/run/ngntun/lease6.json";
  lease4_path = codes "/run/ngntun/lease4.json";
  sip_server = [];
  registrar4 = [];
  sip_domain = [];
  extension = [];
  source_addr = [];
  source_v4 = [];
  wan_iface = [];
  bind_device = [];
  bandwidth = codes "64k";
  sip_port = pos 5060;
  media_port = pos 0;
  tun_name = codes "dc0";
  tun_addr = [];
  tun_peer = [];
  tun_mtu = pos 1452;
  routes = [];
  route_table = pos 0;
  media_route = codes "auto";
  media_gateway = [];
  register_transport = codes "ipv4";
  register_only = false;
  idle_limit = pos 30000000000;
  max_hold = pos 600000000000;
  media_limit = pos 10000000000;
  answer = false;
  allow_from = [];
  strict_peer = false;
  force = false;
  log_level = codes "info";
  log_format = codes "text";
  dry_run = false;
  command = [];
}
