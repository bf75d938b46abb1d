-- ===== src/Tests/Provision.antt =====
-- Runs of the decoders of DHCP options and of the provisioning data.
use ngntun.Base.{
  ℕ, ◌<◌, ◌^◌, List, [], ◌∷◌, ◌++◌, none, some, ◌≡◌, ◌≢◌, ◌↔◌, refl, Bytes, codes, ok, All, arith,
}
use ngntun.Lease.Dns.{DnsError, decode_dns_name, IsLabel, out_of_fuel}
use ngntun.Lease.Dns
use ngntun.Lease.Dns.Wire.{IsEnd, decode_dns_name-wire, decode_dns_name_sound}
use ngntun.Lease.Hexish.{decode_hexish}
use ngntun.Lease.Hexish.Print.{full, short, nil, hex_char, print_byte, decode_hexish-join}
use ngntun.Lease.Provisioning.{
  V6, V4, Provisioning, build, decode_vendor_opts, first_addr, validate, empty_provisioning,
}
use ngntun.Lease.Provisioning.Checks.{IsComplete, IsFrom, validate_iff, build_sources}
use ngntun.Lease.Vendor.{decode_options, empty_opts, store}
use ngntun.Lease.Vendor.Options.{SubOption, wire_opts, store_all, IsSubOption, decode_options_sound}
use ngntun.Netip.{ip4, ip6, NetipText}
use ngntun.Text.Split.{join}

abbrev ntt : Bytes
ntt = codes "ntt"

abbrev jp : Bytes
jp = codes "jp"

decode_dns_name-wire_example :
    decode_dns_name (Dns.wire (ntt ∷ jp ∷ []) ++ 0 ∷ []) ≡ ok (join (codes ".") (ntt ∷ jp ∷ []))
decode_dns_name-wire_example = decode_dns_name-wire ntt (jp ∷ []) (0 ∷ []) (omega arith) refl

abbrev ntt_jp : Bytes
ntt_jp = 3 ∷ b'n' ∷ b't' ∷ b't' ∷ 2 ∷ b'j' ∷ b'p' ∷ 0 ∷ []

decode_dns_name-ntt_jp : decode_dns_name ntt_jp ≡ ok (codes "ntt.jp")
unfolding decode_dns_name
decode_dns_name-ntt_jp = refl

decode_dns_name_sound_example :
    (ls : List Bytes) × (end : Bytes) × (ntt_jp ≡ Dns.wire ls ++ end)
    × (ls ≢ [])
    × All IsLabel ls
    × IsEnd end
    × (codes "ntt.jp" ≡ join (codes ".") ls)
decode_dns_name_sound_example = decode_dns_name_sound ntt_jp (omega arith) decode_dns_name-ntt_jp

-- a MAC address, an extension and an option of another code
abbrev options : List SubOption
options =
    record { code = 201; val = 2 ∷ 0 ∷ 0 ∷ 0 ∷ 0 ∷ 1 ∷ [] }
    ∷ record { code = 202; val = codes "3" }
    ∷ record { code = 300; val = [] }
    ∷ []

abbrev extension_3 : Bytes
extension_3 = 0 ∷ 0 ∷ 0 ∷ 210 ∷ 0 ∷ 202 ∷ 0 ∷ 1 ∷ b'3' ∷ []

decode_options-extension_3 :
    decode_options extension_3 ≡ ok (record (empty_opts 210) { extension = codes "3" })
unfolding decode_options empty_opts store
decode_options-extension_3 = refl

decode_options_sound_example :
    (n : ℕ) × (os : List SubOption) × (extension_3 ≡ wire_opts n os)
    × (n < 2 ^ 32)
    × All IsSubOption os
    × (store_all os (empty_opts n) ≡ ok (record (empty_opts 210) { extension = codes "3" }))
decode_options_sound_example =
    decode_options_sound extension_3 (omega arith) decode_options-extension_3

decode_hexish-join_example :
    decode_hexish (join (codes ":") ((hex_char 0 ∷ []) ∷ print_byte 202 ∷ [])) ≡ ok (0 ∷ 202 ∷ [])
decode_hexish-join_example = decode_hexish-join (short 0 (omega arith)) (full 202 (omega arith)) nil

-- addresses that are read from their first letter
abbrev letters : NetipText
letters = record {
  parse_addr = λ s. elim s [ [] ↦ none | c ∷ s' ↦ some (ip4 c) ];
  parse_prefix = λ s. some (record { addr = ip6 6 []; bits = 56 });
  addr_string = λ a. [];
  prefix_string = λ p. [];
  addr_port_string = λ ap. [];
}

abbrev lease6 : V6
lease6 = record {
  interface = codes "eth1";
  ip6_prefix = codes "p";
  sip_servers_addresses = codes "x y";
  vendor_opts = codes "000000d200ca000133";
}

abbrev lease4 : V4
lease4 = record { interface = codes "eth2"; ip_address = codes "a"; routers = codes "b" }

abbrev built : Provisioning
built = record empty_provisioning {
  interface = codes "eth1";
  sip_server = ip4 b'x';
  registrar4 = ip4 b'b';
  self_v4 = ip4 b'a';
  delegated = record { addr = ip6 6 []; bits = 56 };
  extension = codes "3";
}

build-leases : build letters (some lease6) (some lease4) ≡ ok built
unfolding build decode_vendor_opts decode_hexish decode_options store first_addr
build-leases = refl

build_sources_example : IsFrom letters lease6 lease4 built
build_sources_example = build_sources letters lease6 lease4 build-leases

validate_iff_example : (validate built ≡ ok tt) ↔ IsComplete built
validate_iff_example = validate_iff built
