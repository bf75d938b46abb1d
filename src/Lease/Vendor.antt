-- ===== src/Lease/Vendor.antt =====
-- `VendorOpts` and `DecodeVendorOpts` of internal/lease/lease.go, from the decoded bytes on. The
-- loop's index is the unread rest of the bytes; slices are copied before they are kept.
pub mod Options
use ngntun.Base.{
  ℕ, zero, suc, ◌+◌, ◌*◌, Bool, true, false, List, [], ◌∷◌, ltb, ◌==◌, if◌then◌else◌, Bytes, length,
  take, drop, Result, ok, err, ◌>>=◌,
}
use ngntun.Lease.Dns.{DnsError, decode_dns_name}

pub record VendorOpts : Type 0 where
  pub enterprise : ℕ
  pub client_mac : Bytes
  pub extension : Bytes
  pub sip_domain : Bytes
  pub unknown : List (ℕ × Bytes)

pub data VendorError : Type 0 where
  too_short : VendorError
  cut_header cut_value : VendorError
  bad_domain : DnsError → VendorError
  stuck : VendorError

abbrev pub sub_opt_client_mac : ℕ
sub_opt_client_mac = 201

abbrev pub sub_opt_extension : ℕ
sub_opt_extension = 202

abbrev pub sub_opt_sip_domain : ℕ
sub_opt_sip_domain = 204

-- `m[code] = val` on the map of unknown options
unfoldable pub map_insert : ℕ → Bytes → List (ℕ × Bytes) → List (ℕ × Bytes)
map_insert code val [] = (code, val) ∷ []
map_insert code val ((c, v) ∷ m) =
    if c == code then (code, val) ∷ m else (c, v) ∷ map_insert code val m

domain_result : VendorOpts → Result DnsError Bytes → Result VendorError VendorOpts
domain_result vo (ok name) = ok (record vo { sip_domain = name })
domain_result vo (err e) = err (bad_domain e)

-- the `switch code` of the loop
unfoldable pub store : ℕ → Bytes → VendorOpts → Result VendorError VendorOpts
unfolding domain_result
store code val vo =
    if code == sub_opt_client_mac
    then ok (record vo { client_mac = val })
    else if code == sub_opt_extension
    then ok (record vo { extension = val })
    else if code == sub_opt_sip_domain
    then domain_result vo (decode_dns_name val)
    else ok (record vo { unknown = map_insert code val vo.unknown })

-- A call's fuel is one more than the bytes that are left.
options_loop : ℕ → Bytes → VendorOpts → Result VendorError VendorOpts
options_loop zero b vo = err stuck
options_loop (suc f) [] vo = ok vo
options_loop (suc f) (c₁ ∷ c₀ ∷ l₁ ∷ l₀ ∷ b) vo =
    let code = c₁ * 256 + c₀ in
    let len = l₁ * 256 + l₀ in
    let rest = (do vo' ← store code (take len b) vo; options_loop f (drop len b) vo') in
    if ltb (length b) len then err cut_value else rest
options_loop (suc f) _ vo = err cut_header

unfoldable pub empty_opts : ℕ → VendorOpts
empty_opts n = record {
  enterprise = n;
  client_mac = [];
  extension = [];
  sip_domain = [];
  unknown = [];
}

unfoldable pub decode_options : Bytes → Result VendorError VendorOpts
unfolding options_loop empty_opts
decode_options (b₃ ∷ b₂ ∷ b₁ ∷ b₀ ∷ b) =
    let n = ((b₃ * 256 + b₂) * 256 + b₁) * 256 + b₀ in
    options_loop (suc (length b)) b (empty_opts n)
decode_options _ = err too_short
