-- ===== src/Sip/Invite/Outcome.antt =====
-- How `Invite` of internal/sip/ua.go ends, for every final response.
use ngntun.Base.{
  ℕ, Bool, true, false, [], ◌∷◌, ◌++◌, Option, none, some, reverse, ◌≡◌, ◌⊎◌, inl, inr, refl,
  if◌then◌else◌, Bytes, codes, bytes_eq, bytes_eq_iff, Bool-cases, ok, err, Result-cases,
}
use ngntun.Netip.{AddrPort, NetipText}
use ngntun.Sip.Dialog.{Dialog, new_request, send_ack}
use ngntun.Sip.Dialog.Routing.{IsRouted, new_request-IsRouted}
use ngntun.Sip.Header.{canon, get, values}
use ngntun.Sip.Invite.{
  CallError, no_tag, no_contact, no_destination, send_failed, refused, Setup, confirm,
  finish_invite, new_dialog_uac, uac_dialog,
}
use ngntun.Sip.Message.{Message, cseq, call_id, is_success}
use ngntun.Sip.Failure.{status_failure}
use ngntun.Sip.Outgoing.{ack_failure}
use ngntun.Sip.Param.{UriError, param, uri_in_angle}
use ngntun.Sip.Response.{Config, Sent, v6, method_ack, method_invite}
use ngntun.Sip.Ua.Tables.{lookup-put}
use ngntun.Sip.Ua.{Ua, lookup}
use ngntun.Text.Decimal.{itoa}

-- the ACK of a failure is in the transaction of the INVITE, and goes to the proxy
pub record Acks (cfg : Config) (req resp : Message) (s : Sent) : Type 0 where
  pub over : s.tr ≡ v6
  pub to_proxy : s.dst ≡ cfg.proxy
  pub method_is : s.msg.method ≡ method_ack
  pub uri_is : s.msg.request_uri ≡ req.request_uri
  pub via_is : values s.msg.headers (codes "Via") ≡ get req.headers (codes "Via") ∷ []
  pub call_id_is : call_id s.msg ≡ call_id req
  pub cseq_is : get s.msg.headers (codes "CSeq") ≡ itoa (cseq req).0 ++ (b' ' ∷ method_ack)
  pub from_is : get s.msg.headers (codes "From") ≡ get req.headers (codes "From")
  pub to_is : get s.msg.headers (codes "To") ≡ get resp.headers (codes "To")

module _ (text : NetipText) (cfg : Config) (contact_user : Bytes) where
  ack_failure-Acks :
      (req resp : Message) → Acks cfg req resp (ack_failure text cfg contact_user req resp)
  unfolding ack_failure values get canon bytes_eq call_id
  ack_failure-Acks req resp = record {
    over = refl;
    to_proxy = refl;
    method_is = refl;
    uri_is = refl;
    via_is = refl;
    call_id_is = refl;
    cseq_is = refl;
    from_is = refl;
    to_is = refl;
  }

-- the dialog of a call that was taken up
pub record Answers (req resp : Message) (id local_tag : Bytes) (d : Dialog) : Type 0 where
  pub id_is : d.call_id ≡ id
  pub local_tag_is : d.local_tag ≡ local_tag
  pub remote_tag_is : d.remote_tag ≡ param (get resp.headers (codes "To")) (codes "tag")
  pub target_is : d.remote_target ≡ uri_in_angle (get resp.headers (codes "Contact"))
  pub routes_are : d.route_set ≡ reverse (values resp.headers (codes "Record-Route"))
  pub cseq_is : d.cseq ≡ (cseq req).0
  pub invite_cseq_is : d.invite_cseq ≡ (cseq req).0
  pub sdp_is : d.local_sdp ≡ req.body
  pub going_on : d.terminated ≡ none

-- The four ways in which `Invite` ends once there is a final response.
pub data Outcome (text : NetipText) (cfg : Config) (contact_user : Bytes) (sent : Bool)
    (req resp : Message) (id local_tag : Bytes) (u : Ua) (s : Setup) : Type 0 where
  declined :
      is_success resp ≡ false
      → s.result
        ≡ err (
            refused (
              status_failure
                (record { method = method_invite; status = resp.status; reason = resp.reason })))
      → s.ua ≡ u
      → (m : Sent) → s.out ≡ m ∷ []
      → Acks cfg req resp m
      → Outcome text cfg contact_user sent req resp id local_tag u s
  malformed :
      is_success resp ≡ true
      → (param (get resp.headers (codes "To")) (codes "tag") ≡ [])
        ⊎ (uri_in_angle (get resp.headers (codes "Contact")) ≡ [])
      → (e : CallError) → s.result ≡ err e
      → s.ua ≡ u
      → s.out ≡ []
      → Outcome text cfg contact_user sent req resp id local_tag u s
  stranded :
      is_success resp ≡ true
      → (d : Dialog) → Answers req resp id local_tag d
      → lookup id s.ua.dialogs ≡ some d
      → s.result ≡ err no_destination
      → s.out ≡ []
      → Outcome text cfg contact_user sent req resp id local_tag u s
  acknowledged :
      is_success resp ≡ true
      → (d : Dialog) → Answers req resp id local_tag d
      → lookup id s.ua.dialogs ≡ some d
      → (m : Message) (dst : AddrPort)
      → IsRouted text cfg contact_user d method_ack (cseq req).0 m dst
      → d.ack ≡ some (m, dst)
      → s.out ≡ record { tr = v6; dst = dst; msg = m } ∷ []
      → s.result ≡ (if sent then ok (d, resp) else err send_failed)
      → Outcome text cfg contact_user sent req resp id local_tag u s

module _ (text : NetipText) (cfg : Config) (contact_user : Bytes) where
  abbrev built : Message → Message → Bytes → Bytes → Bytes → Bytes → Dialog
  built req resp id local_tag local_uri remote_uri =
      uac_dialog cfg req resp id local_tag local_uri remote_uri
        (param (get resp.headers (codes "To")) (codes "tag"))
        (uri_in_angle (get resp.headers (codes "Contact")))

  uac_dialog-Answers :
      (req resp : Message) (id local_tag local_uri remote_uri : Bytes)
      (a : Option (Message × AddrPort))
      → Answers req resp id local_tag
          (record (built req resp id local_tag local_uri remote_uri) { ack = a })
  unfolding uac_dialog
  uac_dialog-Answers req resp id local_tag local_uri remote_uri a = record {
    id_is = refl;
    local_tag_is = refl;
    remote_tag_is = refl;
    target_is = refl;
    routes_are = refl;
    cseq_is = refl;
    invite_cseq_is = refl;
    sdp_is = refl;
    going_on = refl;
  }

  new_dialog_uac-cases :
      (req resp : Message) (id local_tag local_uri remote_uri : Bytes)
      → (((param (get resp.headers (codes "To")) (codes "tag") ≡ [])
            ⊎ (uri_in_angle (get resp.headers (codes "Contact")) ≡ []))
          × ((e : CallError) × (new_dialog_uac cfg req resp id local_tag local_uri remote_uri
                ≡ err e)))
        ⊎ (new_dialog_uac cfg req resp id local_tag local_uri remote_uri
            ≡ ok (built req resp id local_tag local_uri remote_uri))
  unfolding new_dialog_uac bytes_eq
  new_dialog_uac-cases req resp id local_tag local_uri remote_uri =
      let tag = param (get resp.headers (codes "To")) (codes "tag") in
      let target = uri_in_angle (get resp.headers (codes "Contact")) in
      elim (Bool-cases (bytes_eq tag [])) [
        | inl same ↦ inl (inl ((bytes_eq_iff tag []).0 same), (no_tag, rw same refl))
        | inr some_tag ↦ elim (Bool-cases (bytes_eq target [])) [
          | inl same ↦
              inl (inr ((bytes_eq_iff target []).0 same), (no_contact, rw (some_tag, same) refl))
          | inr other ↦ inr (rw (some_tag, other) refl)
        ]
      ]

  send_ack-cases :
      (d : Dialog) (branch : Bytes)
      → ((e : UriError) × (send_ack text cfg contact_user d branch ≡ err e))
        ⊎ ((m : Message) × (dst : AddrPort) × (new_request text cfg contact_user d method_ack
                d.invite_cseq branch
              ≡ ok (m, dst))
            × (send_ack text cfg contact_user d branch
                ≡ ok (
                  record d { ack = some (m, dst) },
                  record { tr = d.tr; dst = dst; msg = m } ∷ [],
                )))
  unfolding send_ack
  send_ack-cases d branch =
      elim (Result-cases (new_request text cfg contact_user d method_ack d.invite_cseq branch)) [
        | inl ((m, dst), q) ↦ inr (m, dst, q, rw (q, send_ack) refl)
        | inr (e, q) ↦ inl (e, rw (q, send_ack) refl)
      ]

  IsRouted-ack :
      {d : Dialog} {n : ℕ} {m : Message} {dst : AddrPort} (a : Option (Message × AddrPort))
      → IsRouted text cfg contact_user d method_ack n m dst
      → IsRouted text cfg contact_user (record d { ack = a }) method_ack n m dst
  IsRouted-ack a h = record {
    target = h.target;
    method_is = h.method_is;
    routes = h.routes;
    call_id_is = h.call_id_is;
    cseq_is = h.cseq_is;
    from_is = h.from_is;
    to_is = h.to_is;
    no_route = h.no_route;
    first_route = h.first_route;
  }

  confirm-Outcome :
      (sent : Bool) (req resp : Message) (id local_tag local_uri remote_uri branch : Bytes) (u : Ua)
      → is_success resp ≡ true
      → Outcome text cfg contact_user sent req resp id local_tag u (
          confirm text cfg contact_user sent resp branch
            (built req resp id local_tag local_uri remote_uri)
            u)
  unfolding confirm uac_dialog
  confirm-Outcome sent req resp id local_tag local_uri remote_uri branch u good =
      let d = built req resp id local_tag local_uri remote_uri in
      let answers = uac_dialog-Answers req resp id local_tag local_uri remote_uri in
      elim (send_ack-cases d branch) [
        | inl (e, q) ↦
            rw (q, confirm) (stranded good d (answers none) (lookup-put id d u.dialogs) refl refl)
        | inr (m, dst, made, q) ↦
            let d' = record d { ack = some (m, dst) } in
            let routed =
              new_request-IsRouted text cfg contact_user d method_ack d.invite_cseq branch made in
            rw (q, confirm)
              (acknowledged good d' (answers d'.ack) (lookup-put id d' u.dialogs) m dst
                (IsRouted-ack d'.ack routed) refl refl refl)
      ]

  -- Whatever the final response of an INVITE: one that is no success is acknowledged to the proxy in
  -- the transaction of the INVITE, returned as an error with its status, and leaves the user agent as
  -- it was; a success with no tag or no Contact is an error, with nothing sent and nothing kept; any
  -- other makes a dialog with the tags, the target, the reversed routes and the number of the call,
  -- which the table then holds, and its ACK is sent the way the dialog routes, unless the next hop
  -- is no address. `Invite` returns the dialog just if the ACK could be sent.
  pub finish_invite-Outcome :
      (sent : Bool) (req resp : Message) (id local_tag local_uri remote_uri branch : Bytes) (u : Ua)
      → Outcome text cfg contact_user sent req resp id local_tag u (
          finish_invite text cfg contact_user sent req resp id local_tag local_uri remote_uri branch
            u)
  unfolding finish_invite confirm
  finish_invite-Outcome sent req resp id local_tag local_uri remote_uri branch u =
      elim (Bool-cases (is_success resp)) [
        | inr failed ↦
            rw failed
              (declined failed refl refl _ refl (ack_failure-Acks text cfg contact_user req resp))
        | inl good ↦ elim (new_dialog_uac-cases req resp id local_tag local_uri remote_uri) [
          | inl (why, (e, q)) ↦ rw (good, q) (malformed good why e refl refl refl)
          | inr q ↦
              rw (good, q)
                (confirm-Outcome sent req resp id local_tag local_uri remote_uri branch u good)
        ]
      ]
