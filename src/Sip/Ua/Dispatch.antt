-- ===== src/Sip/Ua/Dispatch.antt =====
-- What the user agent of internal/sip/ua.go does with the messages that come in.
use ngntun.Base.{
  true, false, ◌&&◌, none, some, ◌≡◌, ◌≢◌, ◌⊎◌, inl, inr, refl, sym, ap, ◌∙◌, Bytes, bytes_eq,
  bytes_eq_iff, bytes_eq_refl, All, arith, Bool-cases, Option-cases, subst,
}
use ngntun.Netip.{AddrPort, NetipText}
use ngntun.Sip.Dialog as InDialog
use ngntun.Sip.Dialog.{Dialog, Method, Reason, method_of, terminate, handle_method}
use ngntun.Sip.Message.{Message, cseq, branch, call_id, is_success}
use ngntun.Sip.Response.{Config, Transport, method_invite}
use ngntun.Sip.Transaction.{ClientTx, tx_key, receive}
use ngntun.Sip.Ua.Tables.{lookup-remove, lookup-remove_other, All-remove, lookup-All}
use ngntun.Sip.Ua.{Ua, lookup, remove, handle_response, update_dialog, handle_request}

-- What handling a response leaves: the transaction of the key has received it, and the rest of the
-- state is as before.
pub record Delivers (m : Message) (u u' : Ua) : Type 0 where
  pub own :
      (tx : ClientTx)
      → lookup (tx_key (branch m) (cseq m).1) u.txs ≡ some tx
      → lookup (tx_key (branch m) (cseq m).1) u'.txs ≡ some (receive m tx)
  pub others :
      (key : Bytes) → tx_key (branch m) (cseq m).1 ≢ key → lookup key u'.txs ≡ lookup key u.txs
  pub dialogs_same : u'.dialogs ≡ u.dialogs
  pub incoming_same : u'.incoming ≡ u.incoming

-- Without a transaction of the key the state stays.
pub handle_response_unmatched :
    (m : Message) (u : Ua)
    → lookup (tx_key (branch m) (cseq m).1) u.txs ≡ none
    → (handle_response m u).0 ≡ u
unfolding handle_response
handle_response_unmatched m u q =
    elim (Bool-cases (bytes_eq (cseq m).1 method_invite && is_success m)) [
      | inr other ↦ rw (q, handle_response) (rw other refl)
      | inl ok ↦ elim (Option-cases (lookup (call_id m) u.dialogs)) [
        | inl missing ↦ rw (q, handle_response) (rw ok (rw missing refl))
        | inr (d, e) ↦ rw (q, handle_response) (rw ok (rw e refl))
      ]
    ]

-- A response is received by the transaction of its branch and method, if there is one, and changes
-- nothing else of the user agent.
pub handle_response-Delivers : (m : Message) (u : Ua) → Delivers m u (handle_response m u).0
unfolding handle_response
handle_response-Delivers m u =
    let key = tx_key (branch m) (cseq m).1 in
    elim (Option-cases (lookup key u.txs)) [
      | inr (tx, q) ↦
          rw (q, handle_response)
            (record {
              own = λ tx' e. rw (bytes_eq_refl key) (cc (sym q ∙ e));
              others = λ other ne.
                  ground (arith, bytes_eq_iff key other, lookup-remove_other key other u.txs ne);
              dialogs_same = refl;
              incoming_same = refl;
            })
      | inl q ↦
          let same = handle_response_unmatched m u q in
          record {
            own = λ tx e. cc (sym q ∙ e);
            others = λ other ne. ap (λ (z : Ua). lookup other z.txs) same;
            dialogs_same = ap (λ (z : Ua). z.dialogs) same;
            incoming_same = ap (λ (z : Ua). z.incoming) same;
          }
    ]

-- A dialog of the table is under its Call-ID, and has not ended.
abbrev pub IsOpen : Bytes × Dialog → Type 0
IsOpen (key, d) = (key ≡ d.call_id) × (d.listed ≡ true) × (d.terminated ≡ none)

abbrev pub IsTable : Ua → Type 0
IsTable u = All IsOpen u.dialogs

-- A dialog that a request ends leaves the table.
abbrev pub Left : Dialog → Dialog → Type 0
Left d d' =
    (d'.call_id ≡ d.call_id) × ((d'.listed ≡ false) ⊎ ((d'.listed ≡ true) × (d'.terminated ≡ none)))

pub terminate-Left : (d : Dialog) (r : Reason) → d.terminated ≡ none → Left d (terminate r d)
unfolding terminate
terminate-Left d r e = rw (e, terminate) (refl, inl refl)

module _ (text : NetipText) (cfg : Config) (contact_user : Bytes) where
  pub handle_method-Left :
      (k : Method) (d : Dialog) (m : Message) (src : AddrPort) (tr : Transport)
      → d.listed ≡ true
      → d.terminated ≡ none
      → Left d (handle_method text cfg contact_user k d m src tr).0
  unfolding handle_method
  handle_method-Left Method.bye d m src tr h e = terminate-Left d Reason.remote_bye e
  handle_method-Left _ d m src tr h e = (refl, inr (h, e))

  pub update_dialog-IsTable :
      (d d' : Dialog) (u : Ua) → Left d d' → IsTable u → IsTable (update_dialog d' u)
  unfolding update_dialog
  update_dialog-IsTable d d' u (_, inl gone) h = rw gone (All-remove IsOpen d'.call_id u.dialogs h)
  update_dialog-IsTable d d' u (_, inr (stays, none_yet)) h =
      rw stays ((refl, refl, none_yet), All-remove IsOpen d'.call_id u.dialogs h)

  bye-listed : (d : Dialog) (r : Reason) → d.terminated ≡ none → (terminate r d).listed ≡ false
  unfolding terminate
  bye-listed d r e = rw (e, terminate) refl

  -- A BYE inside a dialog of the table takes the dialog out of the table, so that later requests of
  -- its Call-ID find none.
  pub handle_request-bye :
      (tag : Bytes) (m : Message) (src : AddrPort) (tr : Transport) (u : Ua) {d : Dialog}
      → IsTable u
      → lookup (call_id m) u.dialogs ≡ some d
      → method_of m.method ≡ Method.bye
      → lookup (call_id m) (handle_request text cfg contact_user tag m src tr u).0.dialogs ≡ none
  unfolding handle_request InDialog.handle_request handle_method update_dialog
  handle_request-bye tag m src tr u {d} h q bye =
      let live = lookup-All IsOpen (call_id m) u.dialogs h q in
      let left = terminate-Left d Reason.remote_bye live.2 in
      rw (q, handle_request)
        (rw bye (
          rw (bye-listed d Reason.remote_bye live.2) (
            subst (λ z. lookup (call_id m) (remove z u.dialogs) ≡ none) (live.0 ∙ sym left.0)
              (lookup-remove (call_id m) u.dialogs))))

-- A dialog that ends leaves the table.
pub update_dialog-terminate :
    (d : Dialog) (r : Reason) (u : Ua)
    → d.terminated ≡ none
    → lookup d.call_id (update_dialog (terminate r d) u).dialogs ≡ none
unfolding update_dialog terminate
update_dialog-terminate d r u e = rw (e, terminate) (lookup-remove d.call_id u.dialogs)
