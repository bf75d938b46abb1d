-- ===== src/Sip/Ua/Outside.antt =====
-- Requests outside of every dialog, as the user agent of internal/sip/ua.go handles them.
use ngntun.Base.Int.{pos}
use ngntun.Base.{
  false, List, [], ◌∷◌, none, ◌≡◌, ◌≢◌, ◌⊎◌, inl, inr, refl, ltb, Bytes, codes, length, arith,
}
use ngntun.Netip.{AddrPort, NetipText}
use ngntun.Sip.Dialog.{Method, method_of}
use ngntun.Sip.Dialog.Requests.{IsAnswer, respond-IsAnswer}
use ngntun.Sip.Message.{Message, call_id}
use ngntun.Sip.Response.{Config, Transport, Sent}
use ngntun.Sip.Ua.{
  Ua, IncomingCall, incoming_cap, lookup, handle_outside, handle_incoming_invite, handle_request,
}

module _ (text : NetipText) (cfg : Config) (contact_user : Bytes) where
  -- What a request outside of every dialog is answered with, and what it changes.
  abbrev pub Outside :
      Method → Bytes → Message → AddrPort → Transport → Ua → Ua × List Sent → Type 0
  Outside Method.ack tag m src tr u (u', out) = (u' ≡ u) × (out ≡ [])
  Outside Method.options tag m src tr u (u', out) =
      (s : Sent) × (u' ≡ u) × (out ≡ s ∷ []) × IsAnswer m tag src tr (pos 200) s
  Outside Method.invite tag m src tr u (u', out) =
      (s : Sent) × IsAnswer m [] src tr (pos 100) s
      × (((u.incoming ≡ [])
            × (u'.dialogs ≡ u.dialogs)
            × (out ≡ s ∷ [])
            × (u'.incoming ≡ record { tr = tr; req = m; src = src } ∷ []))
          ⊎ ((u.incoming ≢ [])
              × (u' ≡ u)
              × ((busy : Sent) × (out ≡ s ∷ busy ∷ []) × IsAnswer m tag src tr (pos 486) busy)))
  Outside _ tag m src tr u (u', out) =
      (s : Sent) × (u' ≡ u) × (out ≡ s ∷ []) × IsAnswer m tag src tr (pos 481) s

  waiting :
      (c : IncomingCall) (calls : List IncomingCall) → ltb (length (c ∷ calls)) incoming_cap ≡ false
  waiting c calls = ground arith

  handle_incoming_invite-Outside :
      (calls : List IncomingCall) (tag : Bytes) (m : Message) (src : AddrPort) (tr : Transport)
      (u : Ua)
      → u.incoming ≡ calls
      → Outside Method.invite tag m src tr u
          (handle_incoming_invite text cfg contact_user tag m src tr u)
  unfolding handle_incoming_invite
  handle_incoming_invite-Outside [] tag m src tr u e =
      rw (e, handle_incoming_invite)
        (
          _,
          respond-IsAnswer text cfg contact_user tr src m (pos 100) (codes "Trying") [],
          inl (refl, refl, refl, refl),
        )
  handle_incoming_invite-Outside (c ∷ calls) tag m src tr u e =
      rw (e, handle_incoming_invite)
        (rw (waiting c calls) (
          _,
          respond-IsAnswer text cfg contact_user tr src m (pos 100) (codes "Trying") [],
          inr (
            (λ z. cc),
            refl,
            (
              _,
              refl,
              respond-IsAnswer text cfg contact_user tr src m (pos 486) (codes "Busy Here") tag,
            ),
          ),
        ))

  handle_outside-Outside :
      (k : Method) (tag : Bytes) (m : Message) (src : AddrPort) (tr : Transport) (u : Ua)
      → Outside k tag m src tr u (handle_outside text cfg contact_user k tag m src tr u)
  unfolding handle_outside
  handle_outside-Outside Method.ack tag m src tr u = (refl, refl)
  handle_outside-Outside Method.invite tag m src tr u =
      handle_incoming_invite-Outside u.incoming tag m src tr u refl
  handle_outside-Outside Method.options tag m src tr u =
      (_, refl, refl, respond-IsAnswer text cfg contact_user tr src m (pos 200) (codes "OK") tag)
  handle_outside-Outside _ tag m src tr u = (
    _,
    refl,
    refl,
    respond-IsAnswer text cfg contact_user tr src m (pos 481)
        (codes "Call/Transaction Does Not Exist") tag,
  )

  -- A request whose Call-ID no dialog of the table has: ACK is passed over; OPTIONS gets 200; INVITE
  -- gets 100 and is offered as a call if none is waiting, and gets 486 behind the 100 otherwise; every
  -- other method gets 481. No dialog is changed, and each response goes back to where the request
  -- came from and repeats its headers.
  pub handle_request-Outside :
      (tag : Bytes) (m : Message) (src : AddrPort) (tr : Transport) (u : Ua)
      → lookup (call_id m) u.dialogs ≡ none
      → Outside
          (method_of m.method)
          tag
          m
          src
          tr
          u
          (handle_request text cfg contact_user tag m src tr u)
  unfolding handle_request
  handle_request-Outside tag m src tr u q =
      rw (q, handle_request) (handle_outside-Outside (method_of m.method) tag m src tr u)
