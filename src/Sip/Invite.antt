-- ===== src/Sip/Invite.antt =====
-- How a call is set up in internal/sip: `newDialogUAC` and the end of `Invite` on the calling side,
-- `Accept` and `Reject` on the called one. Whether a send succeeds is an argument.
pub mod Accepting
pub mod Outcome
use ngntun.Base.Int.{ℤ, pos}
use ngntun.Base.{
  ℕ, Bool, true, false, List, [], ◌∷◌, ◌++◌, Option, none, some, reverse, if◌then◌else◌, Bytes,
  codes, bytes_eq, Result, ok, err,
}
use ngntun.Netip.{AddrPort, NetipText}
use ngntun.Sip.Dialog.{Dialog, angled, contact_uri, send_ack}
use ngntun.Sip.Expires.{parse_session_expires, seconds, whole_seconds}
use ngntun.Sip.Header.{get, set, values}
use ngntun.Sip.Message.{Message, cseq, call_id, is_success}
use ngntun.Sip.Failure.{Failure, StatusError, plain, status_failure, wrapped}
use ngntun.Sip.Outgoing.{ack_failure}
use ngntun.Sip.Param.{UriError, param, uri_in_angle}
use ngntun.Sip.Response.{
  Config, Transport, v4, v6, Sent, local_addr_port, method_invite, respond, response_to,
}
use ngntun.Sip.Transaction.{schedule, timer_t1}
use ngntun.Sip.Ua.{Ua, IncomingCall, put, remove}
use ngntun.Text.Decimal.{format_int}
use ngntun.Text.Find.{trim_prefix}
use ngntun.Text.Split.{cut}

-- Why a call does not come about on the side that sends or takes it.
pub data CallError : Type 0 where
  no_tag no_contact no_destination send_failed : CallError
  refused : Failure → CallError

abbrev pub put_dialog : Dialog → Ua → Ua
put_dialog d u = record u { dialogs = put d.call_id d u.dialogs }

module _ (cfg : Config) where
  -- `newDialogUAC` on a response whose tag and Contact are there
  unfoldable pub uac_dialog :
      Message → Message → Bytes → Bytes → Bytes → Bytes → Bytes → Bytes → Dialog
  unfolding cseq values parse_session_expires seconds
  uac_dialog req resp call_id local_tag local_uri remote_uri remote_tag target =
      let (expires, refresher) = parse_session_expires resp (seconds cfg.session_expires) in
      record {
        tr = v6;
        call_id = call_id;
        local_tag = local_tag;
        remote_tag = remote_tag;
        local_uri = local_uri;
        remote_uri = remote_uri;
        remote_target = target;
        route_set = reverse (values resp.headers (codes "Record-Route"));
        session_expires = expires;
        refresher = refresher;
        cseq = (cseq req).0;
        invite_cseq = (cseq req).0;
        local_sdp = req.body;
        ack = none;
        ack_received = false;
        refresh = false;
        terminated = none;
        listed = true;
      }

  -- `newDialogUAC`, but for the entry in the table
  unfoldable pub new_dialog_uac :
      Message → Message → Bytes → Bytes → Bytes → Bytes → Result CallError Dialog
  unfolding uac_dialog param uri_in_angle get bytes_eq
  new_dialog_uac req resp call_id local_tag local_uri remote_uri =
      let tag = param (get resp.headers (codes "To")) (codes "tag") in
      let target = uri_in_angle (get resp.headers (codes "Contact")) in
      if bytes_eq tag []
      then err no_tag
      else if bytes_eq target []
      then err no_contact
      else ok (uac_dialog req resp call_id local_tag local_uri remote_uri tag target)

-- What a step of a call's setup returns, leaves in the user agent, and has sent.
pub record Setup : Type 0 where
  pub result : Result CallError (Dialog × Message)
  pub ua : Ua
  pub out : List Sent

module _ (text : NetipText) (cfg : Config) (contact_user : Bytes) where
  -- `sendACK` at the end of `Invite`; `*Dialog` is shared with the table
  unfoldable pub confirm : Bool → Message → Bytes → Dialog → Ua → Setup
  unfolding send_ack
  confirm sent resp branch d u = elim (send_ack text cfg contact_user d branch) [
    | err e ↦ record { result = err no_destination; ua = put_dialog d u; out = [] }
    | ok (d', out) ↦ record {
      result = if sent then ok (d', resp) else err send_failed;
      ua = put_dialog d' u;
      out = out;
    }
  ]

  -- `Invite` from the final response on; `branch` is the new branch of the ACK
  unfoldable pub finish_invite :
      Bool → Message → Message → Bytes → Bytes → Bytes → Bytes → Bytes → Ua → Setup
  unfolding is_success ack_failure status_failure new_dialog_uac confirm
  finish_invite sent req resp call_id local_tag local_uri remote_uri branch u =
      if is_success resp
      then elim (new_dialog_uac cfg req resp call_id local_tag local_uri remote_uri) [
        | err e ↦ record { result = err e; ua = u; out = [] }
        | ok d ↦ confirm sent resp branch d u
      ]
      else record {
        result = err (
            refused (
              status_failure
                (record { method = method_invite; status = resp.status; reason = resp.reason })));
        ua = u;
        out = ack_failure text cfg contact_user req resp ∷ [];
      }

  -- `CallerNumber`
  unfoldable pub caller_number : IncomingCall → Bytes
  unfolding uri_in_angle get trim_prefix cut
  caller_number c =
      (cut b'@' (trim_prefix (codes "sip:") (uri_in_angle (get c.req.headers (codes "From"))))).0

  -- `Reject`
  unfoldable pub reject : IncomingCall → ℤ → Bytes → Bytes → Sent
  unfolding respond
  reject c status reason tag = respond cfg c.tr c.src c.req status reason tag []

  -- the dialog of `Accept`
  unfoldable pub uas_dialog : IncomingCall → Bytes → Bytes → Bytes → Bytes → Dialog
  unfolding cseq values parse_session_expires seconds uri_in_angle get call_id
  uas_dialog c sdp local_tag remote_tag target = record {
    tr = c.tr;
    call_id = call_id c.req;
    local_tag = local_tag;
    remote_tag = remote_tag;
    local_uri = uri_in_angle (get c.req.headers (codes "To"));
    remote_uri = uri_in_angle (get c.req.headers (codes "From"));
    remote_target = target;
    route_set = values c.req.headers (codes "Record-Route");
    session_expires = (parse_session_expires c.req (seconds cfg.session_expires)).0;
    refresher = codes "uac";
    cseq = (cseq c.req).0;
    invite_cseq = (cseq c.req).0;
    local_sdp = sdp;
    ack = none;
    ack_received = false;
    refresh = false;
    terminated = none;
    listed = true;
  }

  -- the 200 of `Accept`; a duration is printed in whole seconds, rounded towards 0
  unfoldable pub accept_response : IncomingCall → Dialog → Message
  unfolding response_to set angled contact_uri format_int
  accept_response c d =
      let resp = response_to c.req (pos 200) (codes "OK") d.local_tag in
      let own = contact_uri text cfg contact_user (local_addr_port cfg c.tr) in
      let h0 = set resp.headers (codes "Contact") (angled own) in
      let h1 = set h0 (codes "Supported") (codes "100rel,timer") in
      let expires = format_int (whole_seconds d.session_expires) in
      let h2 = set h1 (codes "Session-Expires") (expires ++ codes ";refresher=uac") in
      let h3 = set h2 (codes "Require") (codes "timer") in
      let h4 = set h3 (codes "Content-Type") (codes "application/sdp") in
      let h5 = set h4 (codes "User-Agent") cfg.user_agent in
      record resp { headers = h5; body = d.local_sdp }

  -- `Accept` up to the loop that sends the 200 again
  unfoldable pub accept : Bool → IncomingCall → Bytes → Bytes → Ua → Setup
  unfolding uas_dialog accept_response param uri_in_angle get bytes_eq remove
  accept sent c local_tag sdp u =
      let tag = param (get c.req.headers (codes "From")) (codes "tag") in
      let target = uri_in_angle (get c.req.headers (codes "Contact")) in
      if bytes_eq tag []
      then record { result = err no_tag; ua = u; out = [] }
      else if bytes_eq target []
      then record { result = err no_contact; ua = u; out = [] }
      else let d = uas_dialog c sdp local_tag tag target in
        let resp = accept_response c d in
        let u' = put_dialog d u in
        let out = record { tr = c.tr; dst = c.src; msg = resp } ∷ [] in
        if sent then record { result = ok (d, resp); ua = u'; out = out } else record {
          result = err send_failed;
          ua = record u' { dialogs = remove d.call_id u'.dialogs };
          out = out;
        }

-- When the loop of `Accept` sends the 200 again, until the ACK or the end of the dialog at the time
-- `closed`: the intervals and the deadline are those of a request other than INVITE.
unfoldable pub accept_resends : ℕ → Option (List ℕ)
unfolding schedule
accept_resends closed = schedule 64 false 0 closed timer_t1 0
