-- ===== src/Cli/Config/Ready.antt =====
-- What `buildConfig` of cmd/ngntun/main.go guarantees of the configuration that it returns.
use ngntun.Base.{
  Bool, true, false, List, [], ◌∷◌, Option, none, some, ◌≡◌, ◌≢◌, ◌⊎◌, inl, inr, refl, ap, subst,
  Bytes, Result, ok, err, ok_injective, bind-eq-ok, or_err,
}
use ngntun.Cli.Options.{Options}
use ngntun.Cli.Config.{
  bad_transport, bad_bandwidth, bad_media_route, bad_media_gateway, bad_tun_peer, SessionConfig,
  addr_override, apply_overrides, build_config, check_modes, finish_config, from_build, from_source,
  from_validate, parse_routes, parse_tun_addr, sip_config,
}
use ngntun.Cli.Source.Family.{is6-is_valid, resolve_source_v6-is6}
use ngntun.Cli.Source.{Host, SourceError, resolve_source_v6, resolve_source_v4}
use ngntun.Cli.Values.{parse_bandwidth, parse_media_route, parse_register_transport}
use ngntun.Lease.Provisioning.Checks.{IsComplete, validate_iff}
use ngntun.Lease.Provisioning.{ValidateError, Provisioning, V6, V4, build, validate}
use ngntun.Sip.Outgoing.{with_defaults}
use ngntun.Sip.Response.{Config}
use ngntun.Netip.{Addr, invalid, NetipText, is_valid, is4, is6}

-- A configuration that `session.Run` can start from.
pub record IsReady (opt : Options) (cfg : SessionConfig) : Type 0 where
  pub mode :
      (cfg.register_only ≡ true) × (cfg.command ≡ [])
      ⊎ ((cfg.register_only ≡ false) × ((cfg.answer_mode ≡ true) ⊎ (cfg.peer_number ≢ [])))
  pub proxy_is6 : is6 cfg.sip.proxy.addr ≡ true
  pub registrar_is4 : is4 cfg.sip.registrar.addr ≡ true
  pub local_v4_valid : is_valid cfg.sip.local_v4.addr ≡ true
  pub local_v6_is6 : is6 cfg.sip.local_v6.addr ≡ true
  pub same_source : cfg.sip.local_v6.addr ≡ cfg.self_v6
  pub agent_accepts : with_defaults cfg.sip ≢ none
  pub domain_given : cfg.sip.domain ≢ []
  pub extension_given : cfg.sip.extension ≢ []
  pub bandwidth_is : parse_bandwidth opt.bandwidth ≡ some cfg.bandwidth_kbps

check_modes_ok :
    (register_only answer : Bool) (peer : Bytes) (command : List Bytes) {u : Unit {0}}
    → check_modes register_only answer peer command ≡ ok u
    → ((register_only ≡ true) × (command ≡ []))
      ⊎ ((register_only ≡ false) × ((answer ≡ true) ⊎ (peer ≢ [])))
unfolding check_modes
check_modes_ok true answer peer [] e = inl (refl, refl)
check_modes_ok true answer peer (c ∷ cs) e = cc
check_modes_ok false true peer command e = inr (refl, inl refl)
check_modes_ok false false [] command e = cc
check_modes_ok false false (c ∷ s) command e = inr (refl, inr (λ z. cc))

or_err-ok {ℓ κ} :
    {E : Type κ} {A : Type ℓ} (x : Option A) (e : E) {a : A} → or_err x e ≡ ok a → x ≡ some a
or_err-ok none e h = cc
or_err-ok (some b) e h = ap some (ok_injective _ refl h)

from_source-ok : (r : Result SourceError Addr) {a : Addr} → from_source r ≡ ok a → r ≡ ok a
unfolding from_source
from_source-ok (ok b) e = ap ok (ok_injective _ refl e)
from_source-ok (err x) e = cc

from_validate-ok :
    (r : Result ValidateError (Unit {0})) {u : Unit {0}} → from_validate r ≡ ok u → r ≡ ok tt
unfolding from_validate
from_validate-ok (ok b) e = refl
from_validate-ok (err x) e = cc

with_defaults-some :
    (c : Config)
    → is_valid c.local_v4.addr ≡ true
    → is_valid c.local_v6.addr ≡ true
    → with_defaults c ≢ none
unfolding with_defaults
with_defaults-some c h k = λ e. cc (rw (h, k, with_defaults) at e)

module _ (text : NetipText) where
  -- the parts of a configuration that come from the provisioning data
  record Finished (opt : Options) (over_ipv6 : Bool) (p : Provisioning) (cfg : SessionConfig)
      : Type 0 where
    sip_is : cfg.sip ≡ sip_config opt p cfg.self_v6 over_ipv6
    self_v6_is6 : is6 cfg.self_v6 ≡ true
    bandwidth_is : parse_bandwidth opt.bandwidth ≡ some cfg.bandwidth_kbps
    register_only_is : cfg.register_only ≡ opt.register_only
    command_is : cfg.command ≡ opt.command
    answer_is : cfg.answer_mode ≡ opt.answer
    peer_number_is : cfg.peer_number ≡ opt.peer_number

  finish_config-Finished :
      (opt : Options) (over_ipv6 : Bool) (host : Host) (p : Provisioning) {cfg : SessionConfig}
      → finish_config text opt over_ipv6 host p ≡ ok cfg
      → Finished opt over_ipv6 p cfg
  unfolding finish_config
  finish_config-Finished opt over_ipv6 host p {cfg} e =
      let (self_v6, e0, h0) =
        bind-eq-ok (from_source (resolve_source_v6 text host opt.source_addr p)) _ e in
      let (bandwidth, e1, h1) =
        bind-eq-ok (or_err (parse_bandwidth opt.bandwidth) bad_bandwidth) _ h0 in
      let (route, e2, h2) =
        bind-eq-ok (or_err (parse_media_route opt.media_route) bad_media_route) _ h1 in
      let (gateway, e3, h3) =
        bind-eq-ok (addr_override text bad_media_gateway opt.media_gateway p.sip_server) _ h2 in
      let (tun_addr, e4, h4) = bind-eq-ok (parse_tun_addr text opt.tun_addr) _ h3 in
      let (tun_peer, e5, h5) =
        bind-eq-ok (addr_override text bad_tun_peer opt.tun_peer invalid) _ h4 in
      let (routes, e6, h6) = bind-eq-ok (parse_routes text opt.routes) _ h5 in
      subst (Finished opt over_ipv6 p) (ok_injective _ refl h6) (record {
        sip_is = refl;
        self_v6_is6 = resolve_source_v6-is6 text host opt.source_addr p (from_source-ok _ e0);
        bandwidth_is = or_err-ok _ bad_bandwidth e1;
        register_only_is = refl;
        command_is = refl;
        answer_is = refl;
        peer_number_is = refl;
      })

  Finished-IsReady :
      (opt : Options) (over_ipv6 : Bool) (p : Provisioning) (cfg : SessionConfig)
      → ((opt.register_only ≡ true) × (opt.command ≡ []))
        ⊎ ((opt.register_only ≡ false) × ((opt.answer ≡ true) ⊎ (opt.peer_number ≢ [])))
      → IsComplete p
      → Finished opt over_ipv6 p cfg
      → IsReady opt cfg
  unfolding sip_config
  Finished-IsReady opt over_ipv6 p cfg mode complete f =
      let valid_v6 = is6-is_valid cfg.self_v6 f.self_v6_is6 in
      record {
        mode = rw (f.register_only_is, f.command_is, f.answer_is, f.peer_number_is) mode;
        proxy_is6 = rw f.sip_is complete.sip_server_is6;
        registrar_is4 = rw f.sip_is complete.registrar4_is4;
        local_v4_valid = rw f.sip_is complete.self_v4_valid;
        local_v6_is6 = rw f.sip_is f.self_v6_is6;
        same_source = rw f.sip_is refl;
        agent_accepts = rw f.sip_is (with_defaults-some _ complete.self_v4_valid valid_v6);
        domain_given = rw f.sip_is complete.sip_domain_given;
        extension_given = rw f.sip_is complete.extension_given;
        bandwidth_is = f.bandwidth_is;
      }

  -- Every configuration that `buildConfig` returns can be started: it calls a number, waits for calls, or
  -- only registers and then has no command; the next hop of a call is an IPv6 address, the registrar
  -- an IPv4 one, and both own addresses are there, so that `sip.New` takes them; calls and media share
  -- one own IPv6 address; the domain and the extension are there, and the bandwidth is the one that
  -- its option names.
  pub build_config-IsReady :
      (opt : Options) (v6 : Option V6) (v4 : Option V4) (host : Host) {cfg : SessionConfig}
      → build_config text opt v6 v4 host ≡ ok cfg
      → IsReady opt cfg
  unfolding build_config
  build_config-IsReady opt v6 v4 host {cfg} e =
      let (u, e0, h0) =
        bind-eq-ok (check_modes opt.register_only opt.answer opt.peer_number opt.command) _ e in
      let (over_ipv6, e1, h1) =
        bind-eq-ok (or_err (parse_register_transport opt.register_transport) bad_transport) _ h0 in
      let (p, e2, h2) = bind-eq-ok (from_build (build text v6 v4)) _ h1 in
      let (q, e3, h3) = bind-eq-ok (apply_overrides text opt p) _ h2 in
      let r = resolve_source_v4 host opt.source_v4 q in
      let (w, e4, h4) = bind-eq-ok (from_validate (validate r)) _ h3 in
      Finished-IsReady opt over_ipv6 r cfg
        (check_modes_ok opt.register_only opt.answer opt.peer_number opt.command e0)
        ((validate_iff r).0 (from_validate-ok (validate r) e4))
        (finish_config-Finished opt over_ipv6 host r h4)
