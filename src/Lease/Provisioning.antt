-- ===== src/Lease/Provisioning.antt =====
-- `V6`, `V4`, `Provisioning`, `Build`, `Validate` and `firstAddr` of internal/lease/lease.go.
pub mod Checks
use ngntun.Base.{
  ℕ, Bool, true, false, not, ◌&&◌, ◌||◌, List, [], ◌∷◌, ◌++◌, Option, none, some, ◌==◌,
  if◌then◌else◌, Bytes, bytes_eq, Result, ok, err, ◌>>=◌, or_err,
}
use ngntun.Lease.Hexish.{HexError, decode_hexish}
use ngntun.Lease.Vendor.{VendorError, VendorOpts, decode_options}
use ngntun.Netip.{Addr, invalid, Prefix, NetipText, is_valid, is4, unmap}
use ngntun.Text.Space.{trim_space}
use ngntun.Text.Split.{fields_func}

-- The fields of the lease files that `Build` reads.
pub record V6 : Type 0 where
  pub interface : Bytes
  pub ip6_prefix : Bytes
  pub sip_servers_addresses : Bytes
  pub vendor_opts : Bytes

pub record V4 : Type 0 where
  pub interface : Bytes
  pub ip_address : Bytes
  pub routers : Bytes

pub record Provisioning : Type 0 where
  pub interface : Bytes
  pub sip_server : Addr
  pub registrar4 : Addr
  pub self_v4 : Addr
  pub delegated : Prefix
  pub sip_domain : Bytes
  pub extension : Bytes
  pub client_mac : Bytes

abbrev pub empty_provisioning : Provisioning
empty_provisioning = record {
  interface = [];
  sip_server = invalid;
  registrar4 = invalid;
  self_v4 = invalid;
  delegated = record { addr = invalid; bits = 0 };
  sip_domain = [];
  extension = [];
  client_mac = [];
}

pub data OptsError : Type 0 where
  bad_hex : HexError → OptsError
  bad_opts : VendorError → OptsError

-- `DecodeVendorOpts`
unfoldable pub decode_vendor_opts : Bytes → Result OptsError VendorOpts
decode_vendor_opts s = elim (decode_hexish s) [
  | err e ↦ err (bad_hex e)
  | ok b ↦ elim (decode_options b) [ err e ↦ err (bad_opts e) | ok vo ↦ ok vo ]
]

pub data BuildError : Type 0 where
  bad_prefix : BuildError
  bad_vendor_opts : OptsError → BuildError

abbrev is_separator : ℕ → Bool
is_separator c = c == b',' || (c == b' ' || (c == b'\t' || c == b'\n'))

module _ (text : NetipText) where
  open text use {parse_addr, parse_prefix}

  -- the loop of `firstAddr`
  first_of_fields : List Bytes → Option Addr
  unfolding trim_space unmap
  first_of_fields [] = none
  first_of_fields (f ∷ fs) = elim (parse_addr (trim_space f)) [
    | some a ↦ some (unmap a)
    | none ↦ first_of_fields fs
  ]

  unfoldable pub first_addr : Bytes → Option Addr
  unfolding first_of_fields fields_func
  first_addr s = first_of_fields (fields_func is_separator s)

  -- `if a, ok := firstAddr(s); ok { x = a }`
  abbrev pub addr_or : Addr → Bytes → Addr
  addr_or x s = elim (first_addr s) [ none ↦ x | some a ↦ a ]

  set_prefix : V6 → Provisioning → Result BuildError Provisioning
  unfolding bytes_eq trim_space
  set_prefix v p =
      if bytes_eq v.ip6_prefix [] then ok p else elim (parse_prefix (trim_space v.ip6_prefix)) [
        | none ↦ err bad_prefix
        | some x ↦ ok (record p { delegated = x })
      ]

  set_vendor_opts : V6 → Provisioning → Result BuildError Provisioning
  unfolding bytes_eq decode_vendor_opts
  set_vendor_opts v p =
      if bytes_eq v.vendor_opts [] then ok p else elim (decode_vendor_opts v.vendor_opts) [
        | err e ↦ err (bad_vendor_opts e)
        | ok vo ↦ ok (record p {
          extension = vo.extension;
          sip_domain = vo.sip_domain;
          client_mac = vo.client_mac;
        })
      ]

  build_v6 : Option V6 → Provisioning → Result BuildError Provisioning
  unfolding set_prefix set_vendor_opts
  build_v6 none p = ok p
  build_v6 (some v) p = do
    let q = record p {
      interface = v.interface;
      sip_server = addr_or p.sip_server v.sip_servers_addresses;
    }
    r ← set_prefix v q
    set_vendor_opts v r

  build_v4 : Option V4 → Provisioning → Provisioning
  unfolding bytes_eq
  build_v4 none p = p
  build_v4 (some v) p = record p {
    interface = if bytes_eq p.interface [] then v.interface else p.interface;
    registrar4 = addr_or p.registrar4 v.routers;
    self_v4 = addr_or p.self_v4 v.ip_address;
  }

  -- `Build`; `none` is a nil lease
  unfoldable pub build : Option V6 → Option V4 → Result BuildError Provisioning
  unfolding build_v6 build_v4
  build v6 v4 = do p ← build_v6 v6 empty_provisioning; ok (build_v4 v4 p)

pub data Item : Type 0 where
  sip_server registrar4 self_v4 sip_domain extension : Item

pub data ValidateError : Type 0 where
  missing : List Item → ValidateError
  sip_server_is4 registrar4_not4 : ValidateError

abbrev missing_if : Bool → Item → List Item → List Item
missing_if b x rest = if b then x ∷ rest else rest

unfoldable pub missing_items : Provisioning → List Item
unfolding bytes_eq
missing_items p = missing_if (not (is_valid p.sip_server)) sip_server (
    missing_if (not (is_valid p.registrar4)) registrar4 (
      missing_if (not (is_valid p.self_v4)) self_v4 (
        missing_if (bytes_eq p.sip_domain []) sip_domain
          (missing_if (bytes_eq p.extension []) extension []))))

-- `Validate`
unfoldable pub validate : Provisioning → Result ValidateError (Unit {0})
unfolding missing_items
validate p = elim (missing_items p) [
  | x ∷ xs ↦ err (missing (x ∷ xs))
  | [] ↦
      if is4 p.sip_server
      then err sip_server_is4
      else if not (is4 p.registrar4)
      then err registrar4_not4
      else ok tt
]
