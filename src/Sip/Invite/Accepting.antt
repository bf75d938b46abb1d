-- ===== src/Sip/Invite/Accepting.antt =====
-- What `Accept` of internal/sip/dialog.go makes of a call that comes in.
use ngntun.Base.Int.{pos}
use ngntun.Base.{
  ◌++◌, ◌∙◌, true, Bool, List, [], ◌∷◌, ◌≡◌, ◌⊎◌, inl, inr, refl, Bytes, codes, bytes_eq,
  Bool-cases, ok, err, none,
}
use ngntun.Netip.{NetipText}
use ngntun.Sip.Dialog.{Dialog, angled, contact_uri}
use ngntun.Sip.Dialog.Requests.{Echoes-Agree, set_keeps}
use ngntun.Sip.Expires.{whole_seconds}
use ngntun.Sip.Header.{get, set}
use ngntun.Sip.Invite.{
  CallError, accept, accept_response, uas_dialog, no_tag, no_contact, send_failed,
}
use ngntun.Sip.Message.{Message, call_id}
use ngntun.Sip.Param.{param, uri_in_angle}
use ngntun.Sip.Response.Echo.{Echoes, response_to-Echoes}
use ngntun.Sip.Response.{Config, Sent, local_addr_port, response_to}
use ngntun.Text.Decimal.{format_int}
use ngntun.Sip.Ua.{IncomingCall, Ua}

-- the dialog and the response of a call that is taken
pub record Accepted (c : IncomingCall) (offer : Bytes) (d : Dialog) (m : Message) (out : List Sent)
    : Type 0 where
  pub call_id_is : d.call_id ≡ call_id c.req
  pub peer_is : d.remote_tag ≡ param (get c.req.headers (codes "From")) (codes "tag")
  pub offer_is : d.local_sdp ≡ offer
  pub going_on : d.terminated ≡ none
  pub is_response : m.response ≡ true
  pub status_is : m.status ≡ pos 200
  pub echoes : Echoes c.req m d.local_tag
  pub body_is : m.body ≡ offer
  pub out_is : out ≡ record { tr = c.tr; dst = c.src; msg = m } ∷ []

module _ (text : NetipText) (cfg : Config) (contact_user : Bytes) where
  -- The 200 repeats what a response takes over from its request.
  accept_response-Echoes :
      (c : IncomingCall) (d : Dialog)
      → Echoes c.req (accept_response text cfg contact_user c d) d.local_tag
  unfolding accept_response
  accept_response-Echoes c d =
      let resp = response_to c.req (pos 200) (codes "OK") d.local_tag in
      let own = angled (contact_uri text cfg contact_user (local_addr_port cfg c.tr)) in
      let h0 = set resp.headers (codes "Contact") own in
      let h1 = set h0 (codes "Supported") (codes "100rel,timer") in
      let expires = format_int (whole_seconds d.session_expires) ++ codes ";refresher=uac" in
      let h2 = set h1 (codes "Session-Expires") expires in
      let h3 = set h2 (codes "Require") (codes "timer") in
      let h4 = set h3 (codes "Content-Type") (codes "application/sdp") in
      Echoes-Agree c.req resp (accept_response text cfg contact_user c d) d.local_tag
        (λ other (contact, agent, expiry, require, type, supported).
          set_keeps h4 (codes "User-Agent") cfg.user_agent other agent
          ∙ set_keeps h3 (codes "Content-Type") (codes "application/sdp") other type
          ∙ set_keeps h2 (codes "Require") (codes "timer") other require
          ∙ set_keeps h1 (codes "Session-Expires") expires other expiry
          ∙ set_keeps h0 (codes "Supported") (codes "100rel,timer") other supported
          ∙ set_keeps resp.headers (codes "Contact") own other contact)
        (response_to-Echoes c.req (pos 200) (codes "OK") d.local_tag)

  pub accept-cases :
      (sent : Bool) (c : IncomingCall) (tag offer : Bytes) (u : Ua)
      → ((e : CallError) × ((accept text cfg contact_user sent c tag offer u).result ≡ err e))
        ⊎ ((d : Dialog) × (m : Message) × ((accept text cfg contact_user sent c tag offer u).result
              ≡ ok (d, m))
            × Accepted c offer d m (accept text cfg contact_user sent c tag offer u).out)
  unfolding accept accept_response response_to uas_dialog
  accept-cases sent c tag offer u =
      let d =
        uas_dialog text cfg contact_user c offer tag
          (param (get c.req.headers (codes "From")) (codes "tag"))
          (uri_in_angle (get c.req.headers (codes "Contact"))) in
      elim (Bool-cases (bytes_eq (param (get c.req.headers (codes "From")) (codes "tag")) [])) [
        | inl q ↦ inl (no_tag, rw q refl)
        | inr q ↦
            elim (Bool-cases (bytes_eq (uri_in_angle (get c.req.headers (codes "Contact"))) [])) [
              | inl q' ↦ inl (no_contact, rw (q, q') refl)
              | inr q' ↦ elim (Bool-cases sent) [
                | inr q'' ↦ inl (send_failed, rw (q, q', q'') refl)
                | inl q'' ↦ inr (
                  d,
                  accept_response text cfg contact_user c d,
                  rw (q, q', q'') refl,
                  record {
                    call_id_is = refl;
                    peer_is = refl;
                    offer_is = refl;
                    going_on = refl;
                    is_response = refl;
                    status_is = refl;
                    echoes = accept_response-Echoes c d;
                    body_is = refl;
                    out_is = rw (q, q', q'') refl;
                  },
                )
              ]
            ]
      ]
