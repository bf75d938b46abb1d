-- ===== src/Sip/Response.antt =====
-- Methods, the user agent's configuration and its responses, of internal/sip/ua.go. A message that
-- is sent is a value; a transport is named by its IP version.
pub mod Echo
pub mod Sendable
use ngntun.Base.Int.{ℤ, pos}
use ngntun.Base.{
  ℕ, Bool, true, false, not, ◌&&◌, List, [], ◌∷◌, ◌++◌, if◌then◌else◌, Bytes, codes, bytes_eq,
}
use ngntun.Netip.{AddrPort}
use ngntun.Sip.Header.{Header, Headers, add, get, set, values}
use ngntun.Sip.Message.{Message, call_id}
use ngntun.Sip.Param.{param}

abbrev pub method_register : Bytes
method_register = codes "REGISTER"

abbrev pub method_invite : Bytes
method_invite = codes "INVITE"

abbrev pub method_ack : Bytes
method_ack = codes "ACK"

abbrev pub method_bye : Bytes
method_bye = codes "BYE"

abbrev pub method_update : Bytes
method_update = codes "UPDATE"

abbrev pub method_options : Bytes
method_options = codes "OPTIONS"

abbrev pub method_prack : Bytes
method_prack = codes "PRACK"

abbrev pub allowed_methods : Bytes
allowed_methods = codes "INVITE,CANCEL,ACK,BYE,UPDATE,PRACK"

-- The fields of `Config` that messages are made of; durations are seconds.
pub record Config : Type 0 where
  pub domain : Bytes
  pub extension : Bytes
  pub self_number : Bytes
  pub registrar : AddrPort
  pub proxy : AddrPort
  pub local_v4 : AddrPort
  pub local_v6 : AddrPort
  pub register_expires : ℕ
  pub session_expires : ℕ
  pub user_agent : Bytes
  pub register_over_ipv6 : Bool

pub data Transport : Type 0 where
  v4 v6 : Transport

-- `LocalAddrPort`
abbrev pub local_addr_port : Config → Transport → AddrPort
local_addr_port cfg v4 = cfg.local_v4
local_addr_port cfg v6 = cfg.local_v6

-- A datagram that is sent.
pub record Sent : Type 0 where
  pub tr : Transport
  pub dst : AddrPort
  pub msg : Message

copy_headers : Bytes → List Bytes → Headers → Headers
unfolding add
copy_headers name [] h = h
copy_headers name (v ∷ vs) h = copy_headers name vs (add h name v)

-- the To header, with the own tag if it has none
tagged : Bytes → Bytes → Bytes
unfolding param bytes_eq
tagged to tag =
    if bytes_eq (param to (codes "tag")) [] && not (bytes_eq tag [])
    then to ++ (codes ";tag=" ++ tag)
    else to

-- `responseTo`
unfoldable pub response_to : Message → ℤ → Bytes → Bytes → Message
unfolding copy_headers tagged add get values
response_to req status reason tag =
    let h0 = copy_headers (codes "Via") (values req.headers (codes "Via")) [] in
    let h1 = add h0 (codes "From") (get req.headers (codes "From")) in
    let h2 = add h1 (codes "To") (tagged (get req.headers (codes "To")) tag) in
    let h3 = add h2 (codes "Call-ID") (call_id req) in
    let h4 = add h3 (codes "CSeq") (get req.headers (codes "CSeq")) in
    record {
      response = true;
      method = [];
      request_uri = [];
      status = status;
      reason = reason;
      headers = h4;
      body = [];
    }

unfoldable pub with_sdp : Bytes → Message → Message
unfolding set
with_sdp [] m = m
with_sdp (c ∷ s) m = record m {
  headers = set m.headers (codes "Content-Type") (codes "application/sdp");
  body = c ∷ s;
}

-- `respond`
unfoldable pub respond : Config → Transport → AddrPort → Message → ℤ → Bytes → Bytes → Bytes → Sent
unfolding response_to with_sdp set
respond cfg tr dst req status reason tag body =
    let m = with_sdp body (response_to req status reason tag) in
    record {
      tr = tr;
      dst = dst;
      msg = record m { headers = set m.headers (codes "User-Agent") cfg.user_agent };
    }
