-- ===== src/Sip/Param.antt =====
-- Parameters of header values, and SIP URIs, of internal/sip/message.go.
use ngntun.Base.{
  ℕ, ◌^◌, Bool, false, not, ◌&&◌, ◌||◌, List, [], ◌∷◌, ◌++◌, none, some, ◌==◌, if◌then◌else◌, Bytes,
  codes, bytes_eq, Result, ok, err,
}
use ngntun.Netip.{AddrPort, NetipText, is6, unmap}
use ngntun.Text.Case.{equal_fold}
use ngntun.Text.Decimal.{itoa, parse_uint}
use ngntun.Text.Find.{cut_prefix}
use ngntun.Text.Space.{trim, trim_space}
use ngntun.Text.Split.{cut, split}

-- `parts[1:]` of a split, which has at least one part
tail_parts : List Bytes → List Bytes
tail_parts [] = []
tail_parts (p ∷ ps) = ps

param_loop : List Bytes → Bytes → Bytes
unfolding cut equal_fold trim trim_space
param_loop [] name = []
param_loop (p ∷ ps) name =
    let (k, v, found) = cut b'=' p in
    if not found
    then param_loop ps name
    else if equal_fold (trim_space k) name
    then trim (λ c. c == b'"') (trim_space v)
    else param_loop ps name

-- `Param`: the value of the first parameter of the name, or the empty text
unfoldable pub param : Bytes → Bytes → Bytes
unfolding param_loop split tail_parts
param value name = param_loop (tail_parts (split b';' value)) name

has_param_loop : List Bytes → Bytes → Bool
unfolding cut equal_fold trim_space
has_param_loop [] name = false
has_param_loop (p ∷ ps) name = equal_fold (trim_space (cut b'=' p).0) name || has_param_loop ps name

-- `HasParam`
unfoldable pub has_param : Bytes → Bytes → Bool
unfolding has_param_loop split tail_parts
has_param value name = has_param_loop (tail_parts (split b';' value)) name

-- `URIInAngle`: what stands in angle brackets, or the value without its parameters
unfoldable pub uri_in_angle : Bytes → Bytes
unfolding cut trim_space
uri_in_angle value =
    let (before, behind, open_found) = cut b'<' value in
    let (uri, after, close_found) = cut b'>' behind in
    if open_found && close_found then uri else trim_space (cut b';' value).0

pub data UriError : Type 0 where
  bad_host not_an_address bad_port : UriError

-- `strings.CutPrefix` by the first scheme that stands there
without_scheme : Bytes → Bytes
unfolding cut_prefix
without_scheme s = elim (cut_prefix (codes "sip:") s) [
  | some rest ↦ rest
  | none ↦ elim (cut_prefix (codes "sips:") s) [ some rest ↦ rest | none ↦ s ]
]

-- the host part without the user and the parameters
host_part : Bytes → Bytes
unfolding without_scheme cut trim_space
host_part uri =
    let s = without_scheme uri in
    let (user, rest, found) = cut b'@' s in trim_space (cut b';' (if found then rest else s)).0

port_behind : Bytes → Bytes
port_behind [] = []
port_behind (c ∷ s) = if c == b':' then s else []

-- the host and the port text; a host in brackets may hold colons
split_host : Bytes → Result UriError (Bytes × Bytes)
unfolding cut port_behind
split_host [] = ok ([], [])
split_host (c ∷ s) =
    let (inside, rest, closed) = cut b']' s in
    let (h, p, found) = cut b':' (c ∷ s) in
    if c == b'['
    then (if closed then ok (inside, port_behind rest) else err bad_host)
    else if found
    then ok (h, p)
    else ok (c ∷ s, [])

port_or : ℕ → Bytes → Result UriError ℕ
port_or default [] = ok default
port_or default (c ∷ s) = elim (parse_uint (2 ^ 16) (c ∷ s)) [ none ↦ err bad_port | some n ↦ ok n ]

module _ (text : NetipText) where
  open text use {parse_addr, addr_string}

  with_port : ℕ → Bytes × Bytes → Result UriError AddrPort
  unfolding port_or unmap
  with_port default hp = elim (parse_addr hp.0) [
    | none ↦ err not_an_address
    | some a ↦ elim (port_or default hp.1) [
      | err e ↦ err e
      | ok n ↦ ok (record { addr = unmap a; port = n })
    ]
  ]

  -- `AddrPortFromURI`
  unfoldable pub addr_port_from_uri : Bytes → ℕ → Result UriError AddrPort
  unfolding host_part split_host with_port
  addr_port_from_uri uri default = elim (split_host (host_part uri)) [
    | err e ↦ err e
    | ok hp ↦ with_port default hp
  ]

  -- `HostPort`
  unfoldable pub host_port : AddrPort → Bytes
  unfolding itoa
  host_port ap =
      if is6 ap.addr
      then b'[' ∷ (addr_string ap.addr ++ (b']' ∷ b':' ∷ itoa ap.port))
      else addr_string ap.addr ++ (b':' ∷ itoa ap.port)

  -- `FormatURI`
  unfoldable pub format_uri : Bytes → AddrPort → Bytes
  unfolding itoa bytes_eq host_port
  format_uri user ap =
      if bytes_eq user []
      then codes "sip:" ++ host_port ap
      else codes "sip:" ++ (user ++ (b'@' ∷ host_port ap))
