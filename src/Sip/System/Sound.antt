-- ===== src/Sip/System/Sound.antt =====
-- What holds of the tables of the user agent of internal/sip in every run.
use ngntun.Base.{
  ◌≤◌, Bool, true, false, List, [], ◌∷◌, ◌++◌, ◌≡◌, inl, inr, refl, sym, Bytes, All, All-append,
  arith, Bool-cases, Option-cases, subst, length, ltb, if◌then◌else◌,
}
use ngntun.Netip.{AddrPort, NetipText}
use ngntun.Sip.Dialog as InDialog
use ngntun.Sip.Dialog.{
  Dialog, Method, Reason, method_of, terminate, begin_bye, new_request, send_ack,
}
use ngntun.Sip.Message.{Message, call_id}
use ngntun.Sip.Request.{key_of}
use ngntun.Sip.Response.{Config, Transport, Sent}
use ngntun.Sip.Transaction.Delivery.{Life}
use ngntun.Sip.Transaction.{ClientTx, receive}
use ngntun.Sip.Ua.Dispatch.{
  IsOpen, IsTable, Left, update_dialog-IsTable, handle_response_unmatched, handle_method-Left,
}
use ngntun.Sip.Ua.Tables.{All-remove, lookup-All}
use ngntun.Sip.Ua.{
  Ua, IncomingCall, incoming_cap, lookup, put, handle_response, update_dialog, handle_outside,
  handle_incoming_invite, handle_request, handle,
}

-- a response to the request whose transaction is under the key
abbrev pub IsReply : Bytes → Message → Type 0
IsReply key m = (m.response ≡ true) × (key_of m ≡ key)

-- A transaction of the table has had a life, in which exactly responses of its own key came in.
abbrev pub IsServed : Bytes × ClientTx → Type 0
IsServed (key, tx) = (ms : List Message) × Life ms tx × All (IsReply key) ms

-- A call that waits is an INVITE.
abbrev pub IsOffer : IncomingCall → Type 0
IsOffer c = (c.req.response ≡ false) × (method_of c.req.method ≡ Method.invite)

pub record IsSound (u : Ua) : Type 0 where
  pub table : IsTable u
  pub served : All IsServed u.txs
  pub offers : All IsOffer u.incoming
  pub room : length u.incoming ≤ incoming_cap

-- A change to the transactions, or to the dialogs, leaves the rest sound.
pub with_txs :
    (u : Ua) (key : Bytes) (tx : ClientTx)
    → IsServed (key, tx)
    → IsSound u
    → IsSound (record u { txs = put key tx u.txs })
with_txs u key tx s h = record {
  table = h.table;
  served = (s, All-remove IsServed key u.txs h.served);
  offers = h.offers;
  room = h.room;
}

pub with_dialogs :
    (u v : Ua) → IsTable v → v.txs ≡ u.txs → v.incoming ≡ u.incoming → IsSound u → IsSound v
with_dialogs u v t e f h = record {
  table = t;
  served = subst (All IsServed) (sym e) h.served;
  offers = subst (All IsOffer) (sym f) h.offers;
  room = subst (λ (cs : List IncomingCall). length cs ≤ incoming_cap) (sym f) h.room;
}

handle_response-IsSound :
    (m : Message) (u : Ua) → m.response ≡ true → IsSound u → IsSound (handle_response m u).0
unfolding handle_response
handle_response-IsSound m u r h = elim (Option-cases (lookup (key_of m) u.txs)) [
  | inr (tx, q) ↦
      let (ms, life, own) = lookup-All IsServed (key_of m) u.txs h.served q in
      rw (q, handle_response)
        (with_txs u (key_of m) (receive m tx)
          (
            ms ++ m ∷ [],
            Life.received m life,
            All-append (IsReply (key_of m)) ms (m ∷ []) own ((r, refl), tt),
          )
          h)
  | inl q ↦ subst IsSound (sym (handle_response_unmatched m u q)) h
]

update_dialog-rest :
    (d : Dialog) (u : Ua)
    → ((update_dialog d u).txs ≡ u.txs) × ((update_dialog d u).incoming ≡ u.incoming)
unfolding update_dialog
update_dialog-rest d u = elim (Bool-cases d.listed) [
  | inl e ↦ rw (e, update_dialog) (refl, refl)
  | inr e ↦ rw (e, update_dialog) (refl, refl)
]

-- A dialog of the table that has changed, or ended, is brought up to date.
pub update-IsSound :
    (text : NetipText) (cfg : Config) (contact_user : Bytes) (d d' : Dialog) (u : Ua)
    → Left d d'
    → IsSound u
    → IsSound (update_dialog d' u)
update-IsSound text cfg contact_user d d' u left h =
    let (txs, calls) = update_dialog-rest d' u in
    with_dialogs u (update_dialog d' u)
      (update_dialog-IsTable text cfg contact_user d d' u left h.table) txs calls h

either-IsSound :
    (b : Bool) (x y : Ua × List Sent)
    → (b ≡ true → IsSound x.0)
    → (b ≡ false → IsSound y.0)
    → IsSound (if b then x else y).0
either-IsSound true x y h k = h refl
either-IsSound false x y h k = k refl

offer_fits :
    (calls : List IncomingCall) (c : IncomingCall)
    → ltb (length calls) incoming_cap ≡ true
    → length (calls ++ c ∷ []) ≤ incoming_cap
offer_fits [] c e = omega arith
offer_fits (x ∷ calls) c e = absurd (ground (arith, e))

module _ (text : NetipText) (cfg : Config) (contact_user : Bytes) where
  handle_incoming_invite-IsSound :
      (tag : Bytes) (m : Message) (src : AddrPort) (tr : Transport) (u : Ua)
      → m.response ≡ false
      → method_of m.method ≡ Method.invite
      → IsSound u
      → IsSound (handle_incoming_invite text cfg contact_user tag m src tr u).0
  unfolding handle_incoming_invite
  handle_incoming_invite-IsSound tag m src tr u r k h =
      elim (Bool-cases (ltb (length u.incoming) incoming_cap)) [
        | inr full ↦ rw (full, handle_incoming_invite) h
        | inl free ↦
            rw (free, handle_incoming_invite)
              (record {
                table = h.table;
                served = h.served;
                offers = All-append IsOffer u.incoming _ h.offers ((r, k), tt);
                room = offer_fits u.incoming _ free;
              })
      ]

  handle_outside-IsSound :
      (k : Method) (tag : Bytes) (m : Message) (src : AddrPort) (tr : Transport) (u : Ua)
      → m.response ≡ false
      → method_of m.method ≡ k
      → IsSound u
      → IsSound (handle_outside text cfg contact_user k tag m src tr u).0
  unfolding handle_outside
  handle_outside-IsSound Method.invite tag m src tr u r k h =
      handle_incoming_invite-IsSound tag m src tr u r k h
  handle_outside-IsSound _ tag m src tr u r k h = h

  handle_request-IsSound :
      (tag : Bytes) (m : Message) (src : AddrPort) (tr : Transport) (u : Ua)
      → m.response ≡ false
      → IsSound u
      → IsSound (handle_request text cfg contact_user tag m src tr u).0
  unfolding handle_request InDialog.handle_request
  handle_request-IsSound tag m src tr u r h =
      let k = method_of m.method in
      elim (Option-cases (lookup (call_id m) u.dialogs)) [
        | inl q ↦ rw (q, handle_request) (handle_outside-IsSound k tag m src tr u r refl h)
        | inr (d, q) ↦
            let live = lookup-All IsOpen (call_id m) u.dialogs h.table q in
            let left = handle_method-Left text cfg contact_user k d m src tr live.1 live.2 in
            rw (q, handle_request) (update-IsSound text cfg contact_user d _ u left h)
      ]

  pub handle-IsSound :
      (tag : Bytes) (m : Message) (src : AddrPort) (tr : Transport) (u : Ua)
      → IsSound u
      → IsSound (handle text cfg contact_user tag m src tr u).0
  unfolding handle
  handle-IsSound tag m src tr u h =
      either-IsSound m.response (handle_response m u)
        (handle_request text cfg contact_user tag m src tr u) (λ r. handle_response-IsSound m u r h)
        (λ r. handle_request-IsSound tag m src tr u r h)
