-- ===== src/Sip/Dialog.antt =====
-- `Dialog` of internal/sip/dialog.go. A channel that is closed once is a flag; the refresh channel
-- holds at most one entry, `listed` says that the user agent's table has the dialog. A send that
-- fails is only logged by the code, or returned after the state has changed. The tokens of
-- crypto/rand are arguments.
pub mod Requests
pub mod Routing
use ngntun.Base.Int.{ℤ, pos}
use ngntun.Base.{
  ℕ, ◌+◌, ◌%◌, ◌^◌, Bool, true, false, not, List, [], ◌∷◌, ◌++◌, Option, none, some, reverse,
  if◌then◌else◌, Bytes, codes, bytes_eq, Result, ok, err,
}
use ngntun.Netip.{AddrPort, NetipText}
use ngntun.Sip.Header.{Header, Headers, add, get, set, values}
use ngntun.Sip.Message.{Message, request, cseq, call_id}
use ngntun.Sip.Param.{UriError, param, uri_in_angle, addr_port_from_uri, host_port, format_uri}
use ngntun.Sip.Response.{
  Config, Transport, Sent, local_addr_port, respond, response_to, method_ack, method_bye,
  method_invite, method_options, method_update,
}
use ngntun.Text.Decimal.{itoa}

abbrev pub default_sip_port : ℕ
default_sip_port = 5060

pub data Reason : Type 0 where
  local_bye remote_bye no_ack : Reason

pub record Dialog : Type 0 where
  pub tr : Transport
  pub call_id : Bytes
  pub local_tag : Bytes
  pub remote_tag : Bytes
  pub local_uri : Bytes
  pub remote_uri : Bytes
  pub remote_target : Bytes
  pub route_set : List Bytes
  pub session_expires : ℤ
  pub refresher : Bytes
  pub cseq : ℕ
  pub invite_cseq : ℕ
  pub local_sdp : Bytes
  pub ack : Option (Message × AddrPort)
  pub ack_received : Bool
  pub refresh : Bool
  pub terminated : Option Reason
  pub listed : Bool

-- `terminate`: only the first reason is kept, and the user agent's table loses the dialog
unfoldable pub terminate : Reason → Dialog → Dialog
terminate r d = elim d.terminated [
  | some old ↦ d
  | none ↦ record d { terminated = some r; listed = false }
]

-- `resendACK`
unfoldable pub resend_ack : Dialog → List Sent
resend_ack d = elim d.ack [
  | none ↦ []
  | some (m, dst) ↦ record { tr = d.tr; dst = dst; msg = m } ∷ []
]

pub data Method : Type 0 where
  ack bye invite update options other : Method

-- the cases of `switch req.Method`
unfoldable pub method_of : Bytes → Method
unfolding bytes_eq
method_of m =
    if bytes_eq m method_ack
    then ack
    else if bytes_eq m method_bye
    then bye
    else if bytes_eq m method_invite
    then invite
    else if bytes_eq m method_update
    then update
    else if bytes_eq m method_options
    then options
    else other

unfoldable pub angled : Bytes → Bytes
angled uri = b'<' ∷ (uri ++ (b'>' ∷ []))

with_session_timer : Bytes → Headers → Headers
unfolding set
with_session_timer [] h = h
with_session_timer (c ∷ se) h =
    set (set h (codes "Session-Expires") (c ∷ se)) (codes "Require") (codes "timer")

with_body : Bytes → Headers → Headers
unfolding set
with_body [] h = h
with_body (c ∷ body) h = set h (codes "Content-Type") (codes "application/sdp")

module _ (text : NetipText) (cfg : Config) (contact_user : Bytes) where
  -- `contactURI`
  unfoldable pub contact_uri : AddrPort → Bytes
  unfolding format_uri
  contact_uri ap = format_uri text contact_user ap

  -- the response to a session refresh
  unfoldable pub refresh_response : Dialog → Message → Transport → Message
  unfolding set get response_to with_session_timer with_body angled
  refresh_response d req tr =
      let resp = response_to req (pos 200) (codes "OK") d.local_tag in
      let h0 = set resp.headers (codes "Contact") (angled (contact_uri (local_addr_port cfg tr))) in
      let h1 = set h0 (codes "User-Agent") cfg.user_agent in
      let h2 = with_session_timer (get req.headers (codes "Session-Expires")) h1 in
      record resp { headers = with_body d.local_sdp h2; body = d.local_sdp }

  unfoldable pub handle_method :
      Method → Dialog → Message → AddrPort → Transport → Dialog × List Sent
  unfolding terminate respond refresh_response
  handle_method ack d req src tr = (record d { ack_received = true }, [])
  handle_method bye d req src tr =
      (terminate remote_bye d, respond cfg tr src req (pos 200) (codes "OK") d.local_tag [] ∷ [])
  handle_method invite d req src tr = (
    record d { refresh = true },
    record { tr = tr; dst = src; msg = refresh_response d req tr } ∷ [],
  )
  handle_method update d req src tr = (
    record d { refresh = true },
    record { tr = tr; dst = src; msg = refresh_response d req tr } ∷ [],
  )
  handle_method options d req src tr =
      (d, respond cfg tr src req (pos 200) (codes "OK") d.local_tag [] ∷ [])
  handle_method other d req src tr =
      (d, respond cfg tr src req (pos 501) (codes "Not Implemented") d.local_tag [] ∷ [])

  -- `Dialog.handleRequest`
  unfoldable pub handle_request : Dialog → Message → AddrPort → Transport → Dialog × List Sent
  unfolding method_of handle_method
  handle_request d req src tr = handle_method (method_of req.method) d req src tr

  -- the URI of the next hop: the first route, or the peer's Contact
  unfoldable pub next_hop : Dialog → Bytes
  unfolding uri_in_angle
  next_hop d = elim d.route_set [ [] ↦ d.remote_target | r ∷ rs ↦ uri_in_angle r ]

  unfoldable pub route_headers : List Bytes → Headers → Headers
  unfolding add
  route_headers [] h = h
  route_headers (r ∷ rs) h = route_headers rs (add h (codes "Route") r)

  unfoldable pub request_headers : Dialog → Bytes → ℕ → Bytes → Headers
  unfolding add host_port route_headers angled itoa
  request_headers d method n branch =
      let local = local_addr_port cfg d.tr in
      let via =
        codes "SIP/2.0/UDP "
        ++ (host_port text local ++ (codes ";branch=" ++ (branch ++ codes ";rport"))) in
      let h0 = route_headers d.route_set (add [] (codes "Via") via) in
      let h1 = add h0 (codes "Max-Forwards") (codes "70") in
      let h2 = add h1 (codes "From") (angled d.local_uri ++ (codes ";tag=" ++ d.local_tag)) in
      let h3 = add h2 (codes "To") (angled d.remote_uri ++ (codes ";tag=" ++ d.remote_tag)) in
      let h4 = add h3 (codes "Call-ID") d.call_id in
      let h5 = add h4 (codes "CSeq") (itoa n ++ (b' ' ∷ method)) in
      let h6 = add h5 (codes "Contact") (angled (contact_uri local)) in
      add h6 (codes "User-Agent") cfg.user_agent

  -- `newRequest`: the request and where it goes; `branch` is a new token
  unfoldable pub new_request : Dialog → Bytes → ℕ → Bytes → Result UriError (Message × AddrPort)
  unfolding next_hop request_headers addr_port_from_uri
  new_request d method n branch = elim (addr_port_from_uri text (next_hop d) default_sip_port) [
    | err e ↦ err e
    | ok dst ↦ ok (request method d.remote_target (request_headers d method n branch), dst)
  ]

  -- `sendACK` up to the send
  unfoldable pub send_ack : Dialog → Bytes → Result UriError (Dialog × List Sent)
  unfolding new_request
  send_ack d branch = elim (new_request d method_ack d.invite_cseq branch) [
    | err e ↦ err e
    | ok (m, dst) ↦
        ok (record d { ack = some (m, dst) }, record { tr = d.tr; dst = dst; msg = m } ∷ [])
  ]

  -- `Bye` up to the wait: the number is taken even if there is no destination
  unfoldable pub begin_bye : Dialog → Bytes → Dialog × Result UriError Sent
  unfolding new_request
  begin_bye d branch =
      let d' = record d { cseq = (d.cseq + 1) % 2 ^ 32 } in
      elim (new_request d' method_bye d'.cseq branch) [
        | err e ↦ (d', err e)
        | ok (m, dst) ↦ (d', ok (record { tr = d.tr; dst = dst; msg = m }))
      ]

  -- `Bye` after the wait, whatever came
  unfoldable pub end_bye : Dialog → Dialog
  unfolding terminate
  end_bye d = terminate local_bye d
