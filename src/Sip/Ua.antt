-- ===== src/Sip/Ua.antt =====
-- `UA` of internal/sip/ua.go: its tables of transactions and dialogs, and what it does with a
-- message that comes in. A map is a list of pairs with at most the first of each key in use; a new
-- tag is an argument.
pub mod Dispatch
pub mod Outside
pub mod Tables
use ngntun.Base.Int.{ℤ, pos}
use ngntun.Base.{
  ℕ, Bool, true, false, ◌&&◌, List, [], ◌∷◌, ◌++◌, Option, none, some, ltb, if◌then◌else◌, Bytes,
  codes, bytes_eq, length,
}
use ngntun.Netip.{AddrPort, NetipText}
use ngntun.Sip.Dialog as InDialog
use ngntun.Sip.Dialog.{Dialog, Method, method_of, resend_ack}
use ngntun.Sip.Message.{Message, cseq, branch, call_id, is_success}
use ngntun.Sip.Response.{Config, Transport, Sent, respond, method_invite}
use ngntun.Sip.Transaction.{ClientTx, tx_key, receive}

pub record IncomingCall : Type 0 where
  pub tr : Transport
  pub req : Message
  pub src : AddrPort

-- the fields of `UA` that change while messages come in
pub record Ua : Type 0 where
  pub txs : List (Bytes × ClientTx)
  pub dialogs : List (Bytes × Dialog)
  pub incoming : List IncomingCall

-- the calls that the channel holds
abbrev pub incoming_cap : ℕ
incoming_cap = 1

module _ {A : Type 0} where
  unfoldable pub lookup : Bytes → List (Bytes × A) → Option A
  unfolding bytes_eq
  lookup key [] = none
  lookup key ((k, x) ∷ m) = if bytes_eq k key then some x else lookup key m

  -- `delete(m, key)`
  unfoldable pub remove : Bytes → List (Bytes × A) → List (Bytes × A)
  unfolding bytes_eq
  remove key [] = []
  remove key ((k, x) ∷ m) =
      let rest = remove key m in if bytes_eq k key then rest else (k, x) ∷ rest

  -- `m[key] = x`
  abbrev pub put : Bytes → A → List (Bytes × A) → List (Bytes × A)
  put key x m = (key, x) ∷ remove key m

-- `handleResponse`
unfoldable pub handle_response : Message → Ua → Ua × List Sent
unfolding lookup remove cseq tx_key branch receive call_id resend_ack bytes_eq is_success
handle_response m u =
    let (n, method) = cseq m in
    let key = tx_key (branch m) method in
    elim (lookup key u.txs) [
      | some tx ↦ (record u { txs = put key (receive m tx) u.txs }, [])
      | none ↦
          if bytes_eq method method_invite && is_success m
          then elim (lookup (call_id m) u.dialogs) [ some d ↦ (u, resend_ack d) | none ↦ (u, []) ]
          else (u, [])
    ]

-- The table behind a request for its dialog, which leaves the table when it ends.
unfoldable pub update_dialog : Dialog → Ua → Ua
unfolding remove
update_dialog d u =
    if d.listed
    then record u { dialogs = put d.call_id d u.dialogs }
    else record u { dialogs = remove d.call_id u.dialogs }

module _ (text : NetipText) (cfg : Config) (contact_user : Bytes) where
  -- `handleIncomingInvite`
  unfoldable pub handle_incoming_invite :
      Bytes → Message → AddrPort → Transport → Ua → Ua × List Sent
  unfolding respond
  handle_incoming_invite tag req src tr u =
      let trying = respond cfg tr src req (pos 100) (codes "Trying") [] [] in
      let call : IncomingCall = record { tr = tr; req = req; src = src } in
      if ltb (length u.incoming) incoming_cap
      then (record u { incoming = u.incoming ++ call ∷ [] }, trying ∷ [])
      else (u, trying ∷ respond cfg tr src req (pos 486) (codes "Busy Here") tag [] ∷ [])

  -- the `switch m.Method` of `handleRequest`, outside of every dialog
  unfoldable pub handle_outside :
      Method → Bytes → Message → AddrPort → Transport → Ua → Ua × List Sent
  unfolding handle_incoming_invite respond
  handle_outside Method.invite tag m src tr u = handle_incoming_invite tag m src tr u
  handle_outside Method.options tag m src tr u =
      (u, respond cfg tr src m (pos 200) (codes "OK") tag [] ∷ [])
  handle_outside Method.ack tag m src tr u = (u, [])
  handle_outside _ tag m src tr u =
      (u, respond cfg tr src m (pos 481) (codes "Call/Transaction Does Not Exist") tag [] ∷ [])

  -- `handleRequest`
  unfoldable pub handle_request : Bytes → Message → AddrPort → Transport → Ua → Ua × List Sent
  unfolding lookup call_id update_dialog handle_outside InDialog.handle_request method_of
  handle_request tag m src tr u = elim (lookup (call_id m) u.dialogs) [
    | some d ↦
        let (d', out) = InDialog.handle_request text cfg contact_user d m src tr in
        (update_dialog d' u, out)
    | none ↦ handle_outside (method_of m.method) tag m src tr u
  ]

  -- `handle`
  unfoldable pub handle : Bytes → Message → AddrPort → Transport → Ua → Ua × List Sent
  unfolding handle_response handle_request
  handle tag m src tr u = if m.response then handle_response m u else handle_request tag m src tr u
