-- ===== src/Sip/Wire/Hangup.antt =====
-- A call that is hung up, from the BYE of `Dialog.Bye` over the wire to the other side and back:
-- internal/sip/dialog.go, transport.go, ua.go and transaction.go together.
use ngntun.Base.Int.{pos}
use ngntun.Base.{
  true, false, [], ◌∷◌, none, some, ◌≡◌, refl, sym, ap, ◌∙◌, Bytes, codes, arith, All, ok, subst,
}
use ngntun.Netip.{AddrPort, NetipText}
use ngntun.Sip.Dialog.{Dialog, Reason, begin_bye, end_bye, method_of}
use ngntun.Sip.Dialog.Requests.{respond-IsAnswer}
use ngntun.Sip.Dialog.Routing.{new_request-IsRouted}
use ngntun.Sip.Message.HeaderLines.{IsSendable, sent_headers-IsSendable}
use ngntun.Sip.Message.Parse.{parse_message}
use ngntun.Sip.Message.RoundTrip.{IsWord, asking, response, message_of, parse_message-marshal}
use ngntun.Sip.Message.Sendable.{IsValue}
use ngntun.Sip.Message.{Message, call_id, is_provisional, is_success, marshal}
use ngntun.Sip.Request.{begin, final, key_of, returns, wait_round}
use ngntun.Sip.Response.Sendable.{IsTag, respond-IsSendable, respond-message}
use ngntun.Sip.Response.{Config, Sent, Transport, method_bye, respond}
use ngntun.Sip.Start.{Served, datagram, send, serve}
use ngntun.Sip.Transaction.{ClientTx}
use ngntun.Sip.Ua.Dispatch.{update_dialog-terminate, IsOpen, IsTable}
use ngntun.Sip.Ua.Tables.{lookup-All}
use ngntun.Sip.Ua.{Ua, lookup, update_dialog}
use ngntun.Text.Case.{to_upper}
use ngntun.Text.Space.{is_space}
use ngntun.Sip.Wire.{call_id-on_wire, key_of-Echoes, key_of-on_wire, on_wire}
use ngntun.Sip.Wire.Sides.{
  serve-datagram, numbered, begin_bye-numbered, begin_bye-request, new_request-message, handle-bye,
  handle-answer,
}

-- the user agent that sends a BYE, with the transaction that waits for the answer
abbrev asked : NetipText → Config → Bytes → Dialog → Bytes → Sent → Ua → Ua
asked text cfg user d branch s u =
    (begin true s.msg (update_dialog (begin_bye text cfg user d branch).0 u)).1

-- What a datagram does on the other side of the wire.
abbrev receives : NetipText → Config → Bytes → Transport → Bytes → AddrPort → Sent → Ua → Served
receives text cfg user tr tag src s u = serve text cfg user tr (datagram tag (send s).2 src ∷ []) u

-- The two sides of a call behind a BYE and its answer: the dialog of the one that is asked has left
-- its table with one answer to where the BYE came from, and behind the answer `wait` returns a
-- success on the side that asks, whose dialog leaves its table too.
pub record HangsUp (text : NetipText) (cfg cfg' : Config) (user user' : Bytes) (d : Dialog)
    (branch : Bytes) (tag tag' : Bytes) (src src' : AddrPort) (tr tr' : Transport) (s : Sent)
    (u w : Ua) : Type 0 where
  pub answer : Sent
  pub answers : (receives text cfg' user' tr tag src s w).out ≡ answer ∷ []
  pub back : answer.dst ≡ src
  pub peer_ended : lookup d.call_id (receives text cfg' user' tr tag src s w).ua.dialogs ≡ none
  pub tx : ClientTx
  pub result : Message
  pub found :
      lookup
        (key_of s.msg)
        (receives text cfg user tr' tag' src' answer (asked text cfg user d branch s u)).ua.txs
      ≡ some tx
  pub waits : wait_round final tx ≡ returns (ok result)
  pub success : is_success result ≡ true
  pub ended :
      lookup d.call_id
        (update_dialog
          (end_bye text cfg user (begin_bye text cfg user d branch).0)
          (receives text cfg user tr' tag' src' answer
            (asked text cfg user d branch s u)).ua).dialogs
      ≡ none

end_bye-gone :
    (text : NetipText) (cfg : Config) (user : Bytes) (d : Dialog) (u : Ua)
    → d.terminated ≡ none
    → lookup d.call_id (update_dialog (end_bye text cfg user d) u).dialogs ≡ none
unfolding end_bye
end_bye-gone text cfg user d u e = update_dialog-terminate d Reason.local_bye u e

-- a BYE for a word is read as it was sent
bye-read :
    (m : Message) (uri : Bytes)
    → m ≡ message_of (asking method_bye uri) m.headers []
    → IsWord uri
    → All IsSendable m.headers
    → parse_message (marshal m) ≡ ok (on_wire m)
unfolding is_space to_upper
bye-read m uri e word k =
    let h = m.headers in
    subst (λ (x : Message). parse_message (marshal x) ≡ ok (on_wire x)) (sym e)
      (parse_message-marshal (asking method_bye uri) h []
        ((λ z. cc, ground arith), word, refl, ground arith) k (omega arith))

-- and so is an answer of status 200
answer-read :
    (m : Message)
    → m ≡ message_of (response 200 (codes "OK")) m.headers []
    → All IsSendable m.headers
    → parse_message (marshal m) ≡ ok (on_wire m)
answer-read m e k =
    subst (λ (x : Message). parse_message (marshal x) ≡ ok (on_wire x)) (sym e)
      (parse_message-marshal (response 200 (codes "OK")) m.headers [] (omega arith, ground arith) k
        (omega arith))

-- what is known of the answer to a BYE that was read
record IsFinal (m : Message) (answer : Sent) : Type 0 where
  reads : parse_message (send answer).2 ≡ ok (on_wire answer.msg)
  response_is : (on_wire answer.msg).response ≡ true
  same_key : key_of (on_wire answer.msg) ≡ key_of m
  not_provisional : is_provisional (on_wire answer.msg) ≡ false
  succeeds : is_success (on_wire answer.msg) ≡ true

respond-IsFinal :
    (text : NetipText) (cfg : Config) (user : Bytes) (tr : Transport) (src : AddrPort) (m : Message)
    (tag : Bytes)
    → All IsSendable m.headers
    → IsTag tag
    → IsValue cfg.user_agent
    → IsFinal m (respond cfg tr src (on_wire m) (pos 200) (codes "OK") tag [])
unfolding send is_provisional is_success
respond-IsFinal text cfg user tr src m tag k t v =
    let onm = on_wire m in
    let answer = respond cfg tr src onm (pos 200) (codes "OK") tag [] in
    let known = respond-IsAnswer text cfg user tr src onm (pos 200) (codes "OK") tag in
    let good =
      respond-IsSendable cfg tr src onm (pos 200) (codes "OK") tag
        (sent_headers-IsSendable m.headers m.body k) t v in
    record {
      reads = answer-read answer.msg (respond-message cfg tr src onm 200 (codes "OK") tag) good;
      response_is = known.is_response;
      same_key =
          key_of-on_wire answer.msg
          ∙ key_of-Echoes onm answer.msg tag known.echoes
          ∙ key_of-on_wire m;
      not_provisional = rw (known.is_response, known.status_is) refl;
      succeeds = rw (known.is_response, known.status_is) refl;
    }

-- A BYE for a dialog that both sides have in their tables, to a URI of one word with headers that
-- are read back, ends the call on both sides in one exchange: over the wire and back the other side
-- drops its dialog and sends one answer, which `wait` returns as a success.
pub bye-HangsUp :
    (text : NetipText) (cfg cfg' : Config) (user user' : Bytes) (d e : Dialog) (branch : Bytes)
    (tag tag' : Bytes) (src src' : AddrPort) (tr tr' : Transport) (s : Sent) (u w : Ua)
    → IsTable u
    → lookup d.call_id u.dialogs ≡ some d
    → IsTable w
    → lookup d.call_id w.dialogs ≡ some e
    → (begin_bye text cfg user d branch).1 ≡ ok s
    → IsWord d.remote_target
    → All IsSendable s.msg.headers
    → IsTag e.local_tag
    → IsValue cfg'.user_agent
    → HangsUp text cfg cfg' user user' d branch tag tag' src src' tr tr' s u w
unfolding send method_of
bye-HangsUp text cfg cfg' user user' d e branch tag tag' src src' tr tr' s u w h q h' q' b word k t
      v =
    let m = s.msg in
    let d' = (begin_bye text cfg user d branch).0 in
    let request_is = begin_bye-request text cfg user d branch b in
    let shape =
      new_request-message text cfg user (numbered text cfg user d) method_bye _ branch request_is in
    let routed =
      new_request-IsRouted text cfg user (numbered text cfg user d) method_bye _ branch
        request_is in
    let same_id : call_id (on_wire m) ≡ d.call_id = call_id-on_wire m ∙ routed.call_id_is in
    let heard =
      serve-datagram text cfg' user' tr tag (marshal m) src w
        (bye-read m d.remote_target shape word k) in
    let (gone, out) =
      handle-bye text cfg' user' e w tag (on_wire m) src tr h'
        (ap (λ (x : Bytes). lookup x w.dialogs) same_id ∙ q')
        (ap (λ (x : Message). x.response) shape) (ap method_of routed.method_is) in
    let answer = respond cfg' tr src (on_wire m) (pos 200) (codes "OK") e.local_tag [] in
    let fin = respond-IsFinal text cfg' user' tr src m e.local_tag k t v in
    let before = update_dialog d' u in
    let read =
      serve-datagram text cfg user tr' tag' (marshal answer.msg) src' (begin true m before).1
        fin.reads in
    let (tx, found, waits, kept) =
      handle-answer text cfg user m (on_wire answer.msg) before tag' src' tr' fin.response_is
        fin.same_key fin.not_provisional in
    let after =
      (receives text cfg user tr' tag' src' answer (asked text cfg user d branch s u)).ua in
    record {
      answer = answer;
      answers = heard.1 ∙ out;
      back =
          (respond-IsAnswer text cfg' user' tr src (on_wire m) (pos 200) (codes "OK")
            e.local_tag).back;
      peer_ended = ap (λ (x : Ua). lookup d.call_id x.dialogs) heard.0 ∙ rw same_id at gone;
      tx = tx;
      result = on_wire answer.msg;
      found = ap (λ (x : Ua). lookup (key_of m) x.txs) read.0 ∙ found;
      waits = waits;
      success = fin.succeeds;
      ended =
          subst
            (λ (x : Dialog).
              lookup d.call_id (update_dialog (end_bye text cfg user x) after).dialogs ≡ none)
            (sym (begin_bye-numbered text cfg user d branch))
            (end_bye-gone text cfg user (numbered text cfg user d) after
              (lookup-All IsOpen d.call_id u.dialogs h q).2);
    }
