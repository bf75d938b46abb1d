-- ===== src/Lease/Provisioning/Checks.antt =====
-- What `Build` and `Validate` of internal/lease/lease.go accept.
use ngntun.Base.{
  true, [], some, ◌≡◌, ◌≢◌, ◌↔◌, ◌⊎◌, inl, inr, bytes_eq_iff, ok, arith, Option-cases, Result-cases,
}
use ngntun.Lease.Provisioning.{
  V6, V4, Provisioning, validate, build, decode_vendor_opts, addr_or, empty_provisioning,
}
use ngntun.Lease.Vendor.{VendorOpts}
use ngntun.Netip.{invalid, Prefix, NetipText, is_valid, is4, is6}
use ngntun.Text.Space.{trim_space}

-- An item that the call needs is there, in the address family that it must have.
pub record IsComplete (p : Provisioning) : Type 0 where
  pub sip_server_is6 : is6 p.sip_server ≡ true
  pub registrar4_is4 : is4 p.registrar4 ≡ true
  pub self_v4_valid : is_valid p.self_v4 ≡ true
  pub sip_domain_given : p.sip_domain ≢ []
  pub extension_given : p.extension ≢ []

-- `Validate` accepts exactly the complete provisioning data.
pub validate_iff : (p : Provisioning) → (validate p ≡ ok tt) ↔ IsComplete p
unfolding validate
validate_iff p =
    let domain = bytes_eq_iff p.sip_domain [] in
    let ext = bytes_eq_iff p.extension [] in
    (
      λ h. record {
        sip_server_is6 = ground (arith, domain, ext);
        registrar4_is4 = ground (arith, domain, ext);
        self_v4_valid = ground (arith, domain, ext);
        sip_domain_given = ground (arith, domain, ext);
        extension_given = ground (arith, domain, ext);
      },
      λ c. ground (arith, domain, ext),
    )

-- What a DHCPv6 lease must have for `Build` to go through it.
abbrev Readable : NetipText → V6 → Type 0
Readable text v =
    ((v.ip6_prefix ≡ []) ⊎ ((x : Prefix) × (text.parse_prefix (trim_space v.ip6_prefix) ≡ some x)))
    × ((v.vendor_opts ≡ []) ⊎ ((vo : VendorOpts) × (decode_vendor_opts v.vendor_opts ≡ ok vo)))

-- Where the data of a built provisioning come from.
pub record IsFrom (text : NetipText) (v : V6) (w : V4) (p : Provisioning) : Type 0 where
  pub readable : Readable text v
  pub interface_v6 : v.interface ≢ [] → p.interface ≡ v.interface
  pub interface_v4 : v.interface ≡ [] → p.interface ≡ w.interface
  pub sip_server_from : p.sip_server ≡ addr_or text invalid v.sip_servers_addresses
  pub registrar4_from : p.registrar4 ≡ addr_or text invalid w.routers
  pub self_v4_from : p.self_v4 ≡ addr_or text invalid w.ip_address
  pub no_prefix : v.ip6_prefix ≡ [] → p.delegated ≡ empty_provisioning.delegated
  pub prefix :
      (x : Prefix)
      → v.ip6_prefix ≢ []
      → text.parse_prefix (trim_space v.ip6_prefix) ≡ some x
      → p.delegated ≡ x
  pub no_options :
      v.vendor_opts ≡ [] → (p.extension ≡ []) × (p.sip_domain ≡ []) × (p.client_mac ≡ [])
  pub options :
      (vo : VendorOpts)
      → v.vendor_opts ≢ []
      → decode_vendor_opts v.vendor_opts ≡ ok vo
      → (p.extension ≡ vo.extension)
        × (p.sip_domain ≡ vo.sip_domain)
        × (p.client_mac ≡ vo.client_mac)

module _ (text : NetipText) (v : V6) (w : V4) {p : Provisioning} where
  -- If `Build` succeeds on both leases, the prefix and the vendor options of the DHCPv6 lease were
  -- absent or readable, the interface is that of the DHCPv6 lease if it names one and that of the
  -- DHCPv4 lease otherwise, the SIP server and the delegated prefix are from the DHCPv6 lease, the
  -- registrar and the own address are from the DHCPv4 lease, and the extension, the domain and the
  -- client's MAC address are from the options; what is absent stays empty.
  pub build_sources : build text (some v) (some w) ≡ ok p → IsFrom text v w p
  unfolding build
  build_sources h =
      let i = bytes_eq_iff v.interface [] in
      let x = bytes_eq_iff v.ip6_prefix [] in
      let o = bytes_eq_iff v.vendor_opts [] in
      record {
        readable = (
          elim (Option-cases (text.parse_prefix (trim_space v.ip6_prefix))) [
            | inr found ↦ inr found
            | inl q ↦ inl (ground (arith, i, x, o))
          ],
          elim (Result-cases (decode_vendor_opts v.vendor_opts)) [
            | inl found ↦ inr found
            | inr (e, q) ↦ inl (ground (arith, i, x, o))
          ],
        );
        interface_v6 = ground (arith, i, x, o);
        interface_v4 = ground (arith, i, x, o);
        sip_server_from = ground (arith, i, x, o);
        registrar4_from = ground (arith, i, x, o);
        self_v4_from = ground (arith, i, x, o);
        no_prefix = ground (arith, i, x, o);
        prefix = λ f n q. ground (arith, i, x, o);
        no_options = ground (arith, i, x, o);
        options = λ vo n d. ground (arith, i, x, o);
      }
