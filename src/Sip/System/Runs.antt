-- ===== src/Sip/System/Runs.antt =====
-- The steps of the user agent of internal/sip keep its tables sound.
use ngntun.Base.{
  ◌+◌, ◌%◌, ◌^◌, Bool, true, false, List, [], ◌∷◌, none, some, ◌≡◌, inl, inr, refl, sym, ap, ◌∙◌,
  Bytes, bytes_eq, codes, All, arith, Bool-cases, Option-cases, Result-cases, subst, length, ok,
}
use ngntun.Netip.{NetipText}
use ngntun.Sip.Dialog.{Dialog, begin_bye, new_request, send_ack}
use ngntun.Sip.Invite.{
  accept, finish_invite, confirm, put_dialog, new_dialog_uac, uac_dialog, uas_dialog,
}
use ngntun.Sip.Header.{get}
use ngntun.Sip.Message.{Message, cseq, is_success, is_provisional}
use ngntun.Sip.Param.{param, uri_in_angle}
use ngntun.Sip.Request.{begin, close_tx, key_of, passes_on, returns, final, wait_round, provisional}
use ngntun.Sip.Response.{Config, method_ack, method_bye, method_invite}
use ngntun.Sip.System.{
  Step, Reach, heard, began, gave_up, passed, closed, invited, taken, accepted, bye_begun, ended,
  refreshed, displaced, here, next, new_ua,
}
use ngntun.Sip.Transaction.Delivery.{Life, Life-Holds, first_final-All}
use ngntun.Sip.Transaction.{ClientTx, new_tx, fail}
use ngntun.Sip.Ua.Dispatch.{IsOpen, Left, terminate-Left}
use ngntun.Sip.Ua.Tables.{All-remove, lookup-All}
use ngntun.Sip.Ua.{Ua, IncomingCall, lookup, remove}
use ngntun.Sip.System.Sound.{
  IsReply, IsServed, IsOffer, IsSound, with_txs, with_dialogs, update-IsSound, handle-IsSound,
}

-- what a provisional response that is passed on leaves
passed_on :
    (tx tx' : ClientTx) (m : Message) (held : List Message)
    → tx.provisional ≡ held
    → wait_round provisional tx ≡ passes_on m tx'
    → (rest : List Message) × (tx.provisional ≡ m ∷ rest) × (record tx { provisional = rest } ≡ tx')
unfolding wait_round
passed_on tx tx' m [] q e = absurd (cc (rw (q, wait_round) at e))
passed_on tx tx' m (x ∷ rest) q e =
    let e' = rw (q, wait_round) at e in (rest, q ∙ ap (λ (z : Message). z ∷ rest) (cc e'), cc e')

module _ (text : NetipText) (cfg : Config) (contact_user : Bytes) where
  close_tx-IsSound : (key : Bytes) (u : Ua) → IsSound u → IsSound (close_tx key u)
  unfolding close_tx
  close_tx-IsSound key u h = record {
    table = h.table;
    served = All-remove IsServed key u.txs h.served;
    offers = h.offers;
    room = h.room;
  }

  begin-IsSound : (sent : Bool) (req : Message) (u : Ua) → IsSound u → IsSound (begin sent req u).1
  unfolding begin
  begin-IsSound sent req u h =
      let invite = bytes_eq (cseq req).1 method_invite in
      let begun = with_txs u (key_of req) (new_tx invite) ([], Life.begin invite, tt) h in
      elim (Bool-cases sent) [
        | inl e ↦ rw (e, begin) begun
        | inr e ↦ rw (e, begin) (close_tx-IsSound (key_of req) _ begun)
      ]

  -- the dialog that `Invite` or `Accept` makes
  put_dialog-IsSound :
      (d : Dialog) (u : Ua)
      → d.listed ≡ true
      → d.terminated ≡ none
      → IsSound u
      → IsSound (put_dialog d u)
  put_dialog-IsSound d u l e h =
      with_dialogs u (put_dialog d u) ((refl, l, e), All-remove IsOpen d.call_id u.dialogs h.table)
        refl refl h

  remove-IsSound :
      (key : Bytes) (u : Ua) → IsSound u → IsSound (record u { dialogs = remove key u.dialogs })
  remove-IsSound key u h =
      with_dialogs u (record u { dialogs = remove key u.dialogs })
        (All-remove IsOpen key u.dialogs h.table) refl refl h

  confirm-IsSound :
      (sent : Bool) (resp : Message) (branch : Bytes) (d : Dialog) (u : Ua)
      → d.listed ≡ true
      → d.terminated ≡ none
      → IsSound u
      → IsSound (confirm text cfg contact_user sent resp branch d u).ua
  unfolding confirm send_ack
  confirm-IsSound sent resp branch d u l e h =
      elim (Result-cases (new_request text cfg contact_user d method_ack d.invite_cseq branch)) [
        | inr (x, q) ↦ rw (q, send_ack, confirm) (put_dialog-IsSound d u l e h)
        | inl ((m, dst), q) ↦
            rw (q, send_ack, confirm)
              (put_dialog-IsSound (record d { ack = some (m, dst) }) u l e h)
      ]

  finish_invite-IsSound :
      (sent : Bool) (req resp : Message) (id tag uri uri' branch : Bytes) (u : Ua)
      → IsSound u
      → IsSound (finish_invite text cfg contact_user sent req resp id tag uri uri' branch u).ua
  unfolding finish_invite new_dialog_uac uac_dialog
  finish_invite-IsSound sent req resp id tag uri uri' branch u h =
      let remote = param (get resp.headers (codes "To")) (codes "tag") in
      let target = uri_in_angle (get resp.headers (codes "Contact")) in
      let d = uac_dialog cfg req resp id tag uri uri' remote target in
      let up = confirm-IsSound sent resp branch d u refl refl h in
      elim (Bool-cases (is_success resp)) [
        | inr other ↦ rw (other, finish_invite) h
        | inl success ↦ elim (Bool-cases (bytes_eq remote [])) [
          | inl q ↦ rw (success, finish_invite) (rw (q, new_dialog_uac) h)
          | inr q ↦ elim (Bool-cases (bytes_eq target [])) [
            | inl q' ↦ rw (success, finish_invite) (rw (q, q', new_dialog_uac) h)
            | inr q' ↦ rw (success, finish_invite) (rw (q, q', new_dialog_uac) up)
          ]
        ]
      ]

  accept-IsSound :
      (sent : Bool) (c : IncomingCall) (tag sdp : Bytes) (u : Ua)
      → IsSound u
      → IsSound (accept text cfg contact_user sent c tag sdp u).ua
  unfolding accept uas_dialog
  accept-IsSound sent c tag sdp u h =
      let remote = param (get c.req.headers (codes "From")) (codes "tag") in
      let target = uri_in_angle (get c.req.headers (codes "Contact")) in
      let d = uas_dialog text cfg contact_user c sdp tag remote target in
      let up = put_dialog-IsSound d u refl refl h in
      elim (Bool-cases (bytes_eq remote [])) [
        | inl q ↦ rw (q, accept) h
        | inr q ↦ elim (Bool-cases (bytes_eq target [])) [
          | inl q' ↦ rw (q, q', accept) h
          | inr q' ↦ elim (Bool-cases sent) [
            | inl s ↦ rw (q, q', s, accept) up
            | inr s ↦ rw (q, q', s, accept) (remove-IsSound d.call_id (put_dialog d u) up)
          ]
        ]
      ]

  begin_bye-Left :
      (d : Dialog) (branch : Bytes)
      → d.listed ≡ true
      → d.terminated ≡ none
      → Left d (begin_bye text cfg contact_user d branch).0
  unfolding begin_bye
  begin_bye-Left d branch l e =
      let d' = record d { cseq = (d.cseq + 1) % 2 ^ 32 } in
      elim (Result-cases (new_request text cfg contact_user d' method_bye d'.cseq branch)) [
        | inr (x, q) ↦ rw (q, begin_bye) (refl, inr (l, e))
        | inl ((m, dst), q) ↦ rw (q, begin_bye) (refl, inr (l, e))
      ]

  passed-IsServed :
      (key : Bytes) (tx tx' : ClientTx) (m : Message)
      → wait_round provisional tx ≡ passes_on m tx'
      → IsServed (key, tx)
      → IsServed (key, tx')
  unfolding wait_round
  passed-IsServed key tx tx' m e (ms, life, own) =
      let (rest, q, same) = passed_on tx tx' m tx.provisional refl e in
      subst (λ (x : ClientTx). IsServed (key, x)) same (ms, Life.took m rest q life, own)

  Step-IsSound : {u v : Ua} → Step text cfg contact_user u v → IsSound u → IsSound v
  Step-IsSound (heard tag m src tr u) h = handle-IsSound text cfg contact_user tag m src tr u h
  Step-IsSound (began sent req u) h = begin-IsSound sent req u h
  Step-IsSound (gave_up key tx e u q) h =
      let (ms, life, own) = lookup-All IsServed key u.txs h.served q in
      with_txs u key (fail e tx) (ms, Life.failed e life, own) h
  Step-IsSound (passed key tx tx' m u q e) h =
      with_txs u key tx' (passed-IsServed key tx tx' m e (lookup-All IsServed key u.txs h.served q))
        h
  Step-IsSound (closed key u) h = close_tx-IsSound key u h
  Step-IsSound (invited sent req resp id tag uri uri' branch u) h =
      finish_invite-IsSound sent req resp id tag uri uri' branch u h
  Step-IsSound (taken c rest u q) h = record {
    table = h.table;
    served = h.served;
    offers = (subst (All IsOffer) q h.offers).1;
    room = omega (arith, h.room, ap (length {0}) q);
  }
  Step-IsSound (accepted sent c tag sdp u) h = accept-IsSound sent c tag sdp u h
  Step-IsSound (bye_begun key branch d u q) h =
      let live = lookup-All IsOpen key u.dialogs h.table q in
      update-IsSound text cfg contact_user d _ u (begin_bye-Left d branch live.1 live.2) h
  Step-IsSound (ended key r d u q) h =
      let live = lookup-All IsOpen key u.dialogs h.table q in
      update-IsSound text cfg contact_user d _ u (terminate-Left d r live.2) h
  Step-IsSound (refreshed key d u q) h =
      let live = lookup-All IsOpen key u.dialogs h.table q in
      update-IsSound text cfg contact_user d _ u (refl, inr (live.1, live.2)) h
  Step-IsSound (displaced key u) h = remove-IsSound key u h

  -- Whatever sequence of steps the goroutines of the user agent take, the tables stay sound.
  pub Reach-IsSound : {u v : Ua} → IsSound u → Reach text cfg contact_user u v → IsSound v
  Reach-IsSound h here = h
  Reach-IsSound h (next r s) = Step-IsSound s (Reach-IsSound h r)

returned : (tx : ClientTx) {m : Message} → wait_round final tx ≡ returns (ok m) → tx.final ≡ some m
unfolding wait_round
returned tx {m} e = elim (Option-cases tx.final) [
  | inl q ↦ absurd (cc (rw (q, wait_round) at e))
  | inr (x, q) ↦ cc (q, rw (q, wait_round) at e)
]

new_ua-IsSound : IsSound new_ua
new_ua-IsSound = record { table = tt; served = tt; offers = tt; room = omega arith }

-- In every run of a new user agent, what `wait` returns as the answer of a transaction is a response
-- that is not provisional, with the branch and the method of the transaction.
pub Reach-answers :
    (text : NetipText) (cfg : Config) (contact_user : Bytes) {u : Ua} (key : Bytes) {tx : ClientTx}
    {m : Message}
    → Reach text cfg contact_user new_ua u
    → lookup key u.txs ≡ some tx
    → wait_round final tx ≡ returns (ok m)
    → IsReply key m × (is_provisional m ≡ false)
Reach-answers text cfg contact_user {u} key {tx} r q e =
    let sound = Reach-IsSound text cfg contact_user new_ua-IsSound r in
    let (ms, life, own) = lookup-All IsServed key u.txs sound.served q in
    first_final-All (IsReply key) ms own (sym (Life-Holds life).final_is ∙ returned tx e)
