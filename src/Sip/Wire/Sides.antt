-- ===== src/Sip/Wire/Sides.antt =====
-- The two sides of a request in internal/sip: what the one that is asked does with a BYE, and what
-- the one that asks gets of the answer.
use ngntun.Base.Int.{pos}
use ngntun.Base.{
  ℕ, Result, append-nil, ◌^◌, ◌%◌, ◌+◌, true, false, [], ◌∷◌, none, some, ◌≡◌, inl, inr, refl, sym,
  ap, ◌∙◌, Bytes, codes, bytes_eq, ok, subst, Result-cases, ok_injective,
}
use ngntun.Netip.{AddrPort, NetipText}
use ngntun.Sip.Dialog as InDialog
use ngntun.Sip.Dialog.{
  Dialog, Method, Reason, begin_bye, default_sip_port, end_bye, handle_method, method_of,
  new_request, next_hop, request_headers, terminate,
}
use ngntun.Sip.Message.Parse.{parse_message}
use ngntun.Sip.Message.RoundTrip.{asking, message_of}
use ngntun.Sip.Message.{Message, call_id, cseq, is_provisional, request}
use ngntun.Sip.Param.{UriError, addr_port_from_uri}
use ngntun.Sip.Request.{begin, final, key_of, returns, wait_round}
use ngntun.Sip.Request.Answer.{begin-handle_response, wait_round-receive}
use ngntun.Sip.Response.{Config, Sent, Transport, method_bye, method_invite, respond}
use ngntun.Sip.Start.{datagram, serve}
use ngntun.Sip.Transaction.{ClientTx}
use ngntun.Sip.Ua.Dispatch.{IsTable, handle_request-bye, handle_response-Delivers}
use ngntun.Sip.Ua.{Ua, handle, handle_request, handle_response, lookup}

-- A datagram of a message alone: it is handled, and its answers are sent.
pub serve-datagram :
    (text : NetipText) (cfg : Config) (contact_user : Bytes) (tr : Transport) (tag raw : Bytes)
    (src : AddrPort) (u : Ua) {m : Message}
    → parse_message raw ≡ ok m
    → ((serve text cfg contact_user tr (datagram tag raw src ∷ []) u).ua
        ≡ (handle text cfg contact_user tag m src tr u).0)
      × ((serve text cfg contact_user tr (datagram tag raw src ∷ []) u).out
          ≡ (handle text cfg contact_user tag m src tr u).1)
unfolding serve
serve-datagram text cfg contact_user tr tag raw src u e = rw (e, serve) (refl, append-nil _)

module _ (text : NetipText) (cfg : Config) (contact_user : Bytes) where
  -- a dialog with the next number
  abbrev pub numbered : Dialog → Dialog
  numbered d = record d { cseq = (d.cseq + 1) % 2 ^ 32 }

  pub begin_bye-numbered :
      (d : Dialog) (branch : Bytes) → (begin_bye text cfg contact_user d branch).0 ≡ numbered d
  unfolding begin_bye
  begin_bye-numbered d branch =
      let d' = numbered d in
      elim (Result-cases (new_request text cfg contact_user d' method_bye d'.cseq branch)) [
        | inl (x, q) ↦ rw (q, begin_bye) refl
        | inr (x, q) ↦ rw (q, begin_bye) refl
      ]

  -- the request that is sent
  pub begin_bye-request :
      (d : Dialog) (branch : Bytes) {s : Sent}
      → (begin_bye text cfg contact_user d branch).1 ≡ ok s
      → new_request text cfg contact_user (numbered d) method_bye (numbered d).cseq branch
        ≡ ok (s.msg, s.dst)
  unfolding begin_bye
  begin_bye-request d branch {s} e =
      let d' = numbered d in
      elim (Result-cases (new_request text cfg contact_user d' method_bye d'.cseq branch)) [
        | inl ((m, dst), q) ↦
            let sent : Result UriError Sent = ok (record { tr = d.tr; dst = dst; msg = m }) in
            let same = ok_injective sent refl (rw (q, begin_bye) at e) in
            q ∙ ap (λ (x : Sent). ok (x.msg, x.dst)) same
        | inr (x, q) ↦ absurd (cc (rw (q, begin_bye) at e))
      ]

  pub new_request-message :
      (d : Dialog) (method : Bytes) (n : ℕ) (branch : Bytes) {m : Message} {dst : AddrPort}
      → new_request text cfg contact_user d method n branch ≡ ok (m, dst)
      → m ≡ message_of (asking method d.remote_target) m.headers []
  unfolding new_request
  new_request-message d method n branch {m} {dst} e =
      elim (Result-cases
        (addr_port_from_uri text (next_hop text cfg contact_user d) default_sip_port)) [
          | inr (x, q) ↦ absurd (cc (rw (q, new_request) at e))
          | inl (hop, q) ↦
              let h = request_headers text cfg contact_user d method n branch in
              let built : Result UriError (Message × AddrPort) =
                ok (request method d.remote_target h, hop) in
              let same =
                ap (λ (r : Message × AddrPort). r.0)
                  (ok_injective built refl (rw (q, new_request) at e)) in
              subst (λ (x : Message). x ≡ message_of (asking method d.remote_target) x.headers [])
                same refl
        ]

  pub handle-response :
      (tag : Bytes) (m : Message) (src : AddrPort) (tr : Transport) (u : Ua)
      → m.response ≡ true
      → handle text cfg contact_user tag m src tr u ≡ handle_response m u
  unfolding handle
  handle-response tag m src tr u r = simp r

  pub handle-request :
      (tag : Bytes) (m : Message) (src : AddrPort) (tr : Transport) (u : Ua)
      → m.response ≡ false
      → handle text cfg contact_user tag m src tr u
        ≡ handle_request text cfg contact_user tag m src tr u
  unfolding handle
  handle-request tag m src tr u r = simp r

  -- The other side: the dialog leaves the table, and one 200 goes back.
  pub handle-bye :
      (e : Dialog) (w : Ua) (tag : Bytes) (m : Message) (src : AddrPort) (tr : Transport)
      → IsTable w
      → lookup (call_id m) w.dialogs ≡ some e
      → m.response ≡ false
      → method_of m.method ≡ Method.bye
      → (lookup (call_id m) (handle text cfg contact_user tag m src tr w).0.dialogs ≡ none)
        × ((handle text cfg contact_user tag m src tr w).1
            ≡ respond cfg tr src m (pos 200) (codes "OK") e.local_tag [] ∷ [])
  unfolding handle_request InDialog.handle_request handle_method
  handle-bye e w tag m src tr table q r bye = rw (handle-request tag m src tr w r) (
    handle_request-bye text cfg contact_user tag m src tr w table q bye,
    rw (q, handle_request) (rw bye refl),
  )

  -- The waiting side: a final response of the request is what `wait` returns.
  pub handle-answer :
      (req resp : Message) (u : Ua) (tag : Bytes) (src : AddrPort) (tr : Transport)
      → resp.response ≡ true
      → key_of resp ≡ key_of req
      → is_provisional resp ≡ false
      → let v = (handle text cfg contact_user tag resp src tr (begin true req u).1).0 in
        (tx : ClientTx) × (lookup (key_of req) v.txs ≡ some tx)
        × (wait_round final tx ≡ returns (ok resp))
        × (v.dialogs ≡ u.dialogs)
  unfolding begin
  handle-answer req resp u tag src tr r e fin =
      let v = (begin true req u).1 in
      let same = handle-response tag resp src tr v r in
      rw same (
        _,
        ap (λ (k : Bytes). lookup k (handle_response resp v).0.txs) (sym e)
            ∙ begin-handle_response req resp u e,
        wait_round-receive (bytes_eq (cseq req).1 method_invite) resp fin,
        (handle_response-Delivers resp v).dialogs_same,
      )
