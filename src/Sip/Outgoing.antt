-- ===== src/Sip/Outgoing.antt =====
-- What the user agent of internal/sip/ua.go sends on its own: REGISTER, INVITE, PRACK and the ACK of
-- a failure. Tokens of crypto/rand are arguments, `branch` the whole branch and `call_id` the whole
-- Call-ID. A transport has the address that it was bound to.
use ngntun.Base.Int.{ℤ, pos}
use ngntun.Base.{
  ℕ, ◌+◌, ◌%◌, ◌^◌, Bool, false, ◌||◌, [], ◌∷◌, ◌++◌, Option, none, some, ◌==◌, if◌then◌else◌,
  Bytes, codes, bytes_eq, Result, ok, err,
}
use ngntun.Netip.{AddrPort, NetipText, is_valid_port}
use ngntun.Sip.Dialog.{angled, contact_uri}
use ngntun.Sip.Expires.{registered_expires, seconds}
use ngntun.Sip.Failure.{Failure, auth_failure, status_failure}
use ngntun.Sip.Header.{Headers, add, get}
use ngntun.Sip.Message.{Message, request, cseq, call_id, is_success}
use ngntun.Sip.Param.{uri_in_angle, host_port}
use ngntun.Sip.Response.{
  Config, Transport, v4, v6, Sent, local_addr_port, allowed_methods, method_ack, method_invite,
  method_prack, method_register,
}
use ngntun.Text.Case.{to_lower}
use ngntun.Text.Decimal.{itoa}
use ngntun.Text.Find.{contains}
use ngntun.Text.Space.{trim_space}

-- `New`, up to the sockets: the defaults of the configuration
unfoldable pub with_defaults : Config → Option Config
unfolding bytes_eq
with_defaults cfg =
    let cfg' = record cfg {
      user_agent = if bytes_eq cfg.user_agent [] then codes "ngntun" else cfg.user_agent;
      register_expires = if cfg.register_expires == 0 then 3600 else cfg.register_expires;
      session_expires = if cfg.session_expires == 0 then 300 else cfg.session_expires;
    } in
    if is_valid_port cfg.local_v4
    then (if is_valid_port cfg.local_v6 then some cfg' else none)
    else none

-- the fields of `UA` that identify its registration
pub record Registration : Type 0 where
  pub reg_tag : Bytes
  pub reg_call_id : Bytes
  pub reg_cseq : ℕ

-- `NewBranch` and `NewCallID`, from the token
abbrev pub new_branch : Bytes → Bytes
new_branch token = codes "z9hG4bK" ++ token

abbrev pub new_call_id : Bytes → Bytes → Bytes
new_call_id token host = token ++ (b'@' ∷ host)

add_identity : Config → Headers → Headers
unfolding add bytes_eq
add_identity cfg h =
    if bytes_eq cfg.self_number []
    then h
    else add h (codes "P-Preferred-Identity")
        (codes "<sip:" ++ (cfg.self_number ++ (b'@' ∷ (cfg.domain ++ codes ">"))))

module _ (text : NetipText) (cfg : Config) (contact_user : Bytes) where
  -- `"SIP/2.0/UDP %s;branch=%s;rport"`
  via : Transport → Bytes → Bytes
  unfolding host_port
  via tr branch =
      codes "SIP/2.0/UDP "
      ++ (host_port text (local_addr_port cfg tr)
          ++ (codes ";branch=" ++ (branch ++ codes ";rport")))

  contact : Transport → Bytes
  unfolding angled contact_uri
  contact tr = angled (contact_uri text cfg contact_user (local_addr_port cfg tr))

  -- the address of record
  pub aor : Bytes
  aor = codes "sip:" ++ (cfg.extension ++ (b'@' ∷ cfg.domain))

  -- the URI of a number
  pub number_uri : Bytes → Bytes
  number_uri peer = codes "sip:" ++ (peer ++ (b'@' ∷ cfg.domain))

  -- the transport and the destination of REGISTER
  abbrev pub register_route : Transport × AddrPort
  register_route = if cfg.register_over_ipv6 then (v6, cfg.proxy) else (v4, cfg.registrar)

  -- the REGISTER of `register`
  unfoldable pub register_request : Registration → ℕ → Bytes → Message
  unfolding add via contact aor angled itoa
  register_request reg expires branch =
      let h0 = add [] (codes "Via") (via register_route.0 branch) in
      let h1 = add h0 (codes "Max-Forwards") (codes "70") in
      let h2 = add h1 (codes "From") (angled aor ++ (codes ";tag=" ++ reg.reg_tag)) in
      let h3 = add h2 (codes "To") (angled aor) in
      let h4 = add h3 (codes "Call-ID") reg.reg_call_id in
      let h5 = add h4 (codes "CSeq") (itoa reg.reg_cseq ++ (b' ' ∷ method_register)) in
      let h6 = add h5 (codes "Contact") (contact v4) in
      let h7 = add h6 (codes "Contact") (contact v6) in
      let h8 = add h7 (codes "Expires") (itoa expires) in
      let h9 = add h8 (codes "Allow") allowed_methods in
      let h10 = add h9 (codes "Supported") (codes "path") in
      request method_register (codes "sip:" ++ cfg.domain)
        (add h10 (codes "User-Agent") cfg.user_agent)

  -- `register` up to the send
  unfoldable pub begin_register : Registration → ℕ → Bytes → Registration × Sent
  unfolding register_request
  begin_register reg expires branch =
      let reg' = record reg { reg_cseq = (reg.reg_cseq + 1) % 2 ^ 32 } in
      (
        reg',
        record {
          tr = register_route.0;
          dst = register_route.1;
          msg = register_request reg' expires branch;
        },
      )

  -- the INVITE of `Invite`
  unfoldable pub invite_request : Bytes → Bytes → Bytes → Bytes → Bytes → Message
  unfolding add via contact aor number_uri angled itoa host_port add_identity
  invite_request peer call_id local_tag branch sdp =
      let h0 = add [] (codes "Via") (via v6 branch) in
      let h1 =
        add h0 (codes "Route") (codes "<sip:" ++ (host_port text cfg.proxy ++ codes ";lr>")) in
      let h2 = add h1 (codes "Max-Forwards") (codes "70") in
      let h3 = add h2 (codes "From") (angled aor ++ (codes ";tag=" ++ local_tag)) in
      let h4 = add h3 (codes "To") (angled (number_uri peer)) in
      let h5 = add h4 (codes "Call-ID") call_id in
      let h6 = add h5 (codes "CSeq") (codes "1 " ++ method_invite) in
      let h7 = add h6 (codes "Contact") (contact v6) in
      let h8 = add h7 (codes "Allow") allowed_methods in
      let h9 = add_identity cfg h8 in
      let h10 = add h9 (codes "Supported") (codes "100rel,timer") in
      let h11 = add h10 (codes "Session-Expires") (itoa cfg.session_expires) in
      let h12 = add h11 (codes "User-Agent") cfg.user_agent in
      let h13 = add h12 (codes "Content-Type") (codes "application/sdp") in
      record (request method_invite (number_uri peer) h13) { body = sdp }

  -- the PRACK of `maybePrack`
  prack_request : Message → Message → Bytes → Bytes → Bytes → Message
  unfolding add via host_port angled itoa get uri_in_angle call_id cseq bytes_eq
  prack_request resp invite local_tag branch rseq =
      let n = (cseq invite).0 in
      let found = uri_in_angle (get resp.headers (codes "Contact")) in
      let target = if bytes_eq found [] then invite.request_uri else found in
      let h0 = add [] (codes "Via") (via v6 branch) in
      let h1 =
        add h0 (codes "Route") (codes "<sip:" ++ (host_port text cfg.proxy ++ codes ";lr>")) in
      let h2 = add h1 (codes "Max-Forwards") (codes "70") in
      let from = angled (uri_in_angle (get invite.headers (codes "From"))) in
      let h3 = add h2 (codes "From") (from ++ (codes ";tag=" ++ local_tag)) in
      let h4 = add h3 (codes "To") (get resp.headers (codes "To")) in
      let h5 = add h4 (codes "Call-ID") (call_id invite) in
      let h6 = add h5 (codes "CSeq") (itoa ((n + 1) % 2 ^ 32) ++ (b' ' ∷ method_prack)) in
      let rack = rseq ++ (b' ' ∷ (itoa n ++ (b' ' ∷ method_invite))) in
      let h7 = add h6 (codes "RAck") rack in
      request method_prack target (add h7 (codes "User-Agent") cfg.user_agent)

  -- `maybePrack` up to the send: nothing, or the PRACK to the proxy
  unfoldable pub maybe_prack : Message → Message → Bytes → Bytes → Option Sent
  unfolding prack_request get contains to_lower trim_space bytes_eq
  maybe_prack resp invite local_tag branch =
      let rseq = trim_space (get resp.headers (codes "RSeq")) in
      if contains (to_lower (get resp.headers (codes "Require"))) (codes "100rel")
      then if bytes_eq rseq []
        then none
        else some (record {
          tr = v6;
          dst = cfg.proxy;
          msg = prack_request resp invite local_tag branch rseq;
        })
      else none

  -- `ackFailure`
  unfoldable pub ack_failure : Message → Message → Sent
  unfolding add get call_id cseq itoa
  ack_failure invite resp =
      let h0 = add [] (codes "Via") (get invite.headers (codes "Via")) in
      let h1 = add h0 (codes "Max-Forwards") (codes "70") in
      let h2 = add h1 (codes "From") (get invite.headers (codes "From")) in
      let h3 = add h2 (codes "To") (get resp.headers (codes "To")) in
      let h4 = add h3 (codes "Call-ID") (call_id invite) in
      let n = itoa (cseq invite).0 in
      record {
        tr = v6;
        dst = cfg.proxy;
        msg =
            request method_ack invite.request_uri
              (add h4 (codes "CSeq") (n ++ (b' ' ∷ method_ack)));
      }

unfoldable pub is_status : ℕ → Message → Bool
is_status n m = elim m.status [ pos k ↦ k == n | _ ↦ false ]

-- the answer to REGISTER: the lifetime of the registration, or the error
unfoldable pub register_result : ℕ → Message → Result Failure ℤ
unfolding is_success registered_expires seconds status_failure is_status
register_result expires resp =
    if is_success resp
    then ok (registered_expires resp (seconds expires))
    else if is_status 401 resp || is_status 407 resp
    then err auth_failure
    else err (
        status_failure
          (record { method = method_register; status = resp.status; reason = resp.reason }))
