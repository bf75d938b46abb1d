-- ===== src/Tests/Wire.antt =====
-- Runs of the user agent with its sockets, its steps and the wire.
use ngntun.Base.{true, false, List, [], ◌∷◌, some, ◌≡◌, refl, ok, codes, arith, All}
use ngntun.Netip.{ip4}
use ngntun.Sip.Dialog.{Dialog, begin_bye, contact_uri, new_request, request_headers, next_hop}
use ngntun.Sip.Message.HeaderLines.{IsSendable}
use ngntun.Sip.Message.Checked.{all_sendable, all_sendable-IsSendable, is_value, is_value-IsValue}
use ngntun.Sip.Message.Sendable.{IsValue}
use ngntun.Sip.Message.{Message, branch, cseq, is_provisional, request}
use ngntun.Sip.Param.{addr_port_from_uri, uri_in_angle}
use ngntun.Sip.Response.{Sent, v6, method_bye}
use ngntun.Sip.Request.{begin, final, key_of, returns, wait_round}
use ngntun.Sip.Start.NoLeak.{NoLeak, new_agent-NoLeak}
use ngntun.Sip.Start.Serving.{Serves, serve-Serves}
use ngntun.Sip.Start.{Read, closing, datagram, failed, new_agent, send, serve}
use ngntun.Sip.System.Runs.{Reach-IsSound, Reach-answers}
use ngntun.Sip.System.Sound.{IsReply, IsSound}
use ngntun.Sip.System.{Reach, began, heard, here, new_ua, next}
use ngntun.Sip.Transaction.{ClientTx, new_tx, receive}
use ngntun.Sip.Ua.{Ua, handle, lookup}
use ngntun.Sip.Wire.Hangup.{HangsUp, bye-HangsUp}
use ngntun.Socket.Opening.{Opens, new_transport-Opens}
use ngntun.Socket.{Answers, Control, dscp_ef, ip_tos, new_transport}
use ngntun.Text.Decimal.{parse_below}
use ngntun.Text.Space.{is_space}
use ngntun.Tests.Agent.{in_call, in_call-IsTable}
use ngntun.Tests.Calls.{agent, bye_request, call, peer, printer, reply}

abbrev other_call : Dialog
other_call = record call { local_tag = codes "x"; remote_tag = codes "y" }

abbrev other_side : Ua
other_side = record { txs = []; dialogs = (codes "c", other_call) ∷ []; incoming = [] }

abbrev pub hang_up : Sent
hang_up = record {
  tr = v6;
  dst = record { addr = ip4 5; port = 5060 };
  msg = request method_bye (codes "sip:1@5") (
      request_headers printer agent (codes "3") (record call { cseq = 2 }) method_bye 2
        (codes "b"));
}

pub begin_bye-hang_up : (begin_bye printer agent (codes "3") call (codes "b")).1 ≡ ok hang_up
unfolding begin_bye new_request addr_port_from_uri next_hop uri_in_angle parse_below
begin_bye-hang_up = refl

hang_up-IsSendable : All IsSendable hang_up.msg.headers
unfolding all_sendable request_headers contact_uri
hang_up-IsSendable = all_sendable-IsSendable hang_up.msg.headers refl

agent-IsValue : IsValue agent.user_agent
unfolding is_value
agent-IsValue = is_value-IsValue agent.user_agent refl

call_there : lookup (codes "c") in_call.dialogs ≡ some call
unfolding lookup
call_there = refl

other_call_there : lookup (codes "c") other_side.dialogs ≡ some other_call
unfolding lookup
other_call_there = refl

bye-HangsUp_example :
    HangsUp printer agent agent
      (codes "3")
      (codes "4")
      call
      (codes "b")
      (codes "t")
      (codes "r")
      peer
      peer
      v6
      v6
      hang_up
      in_call
      other_side
unfolding is_space
bye-HangsUp_example =
    bye-HangsUp printer agent agent (codes "3") (codes "4") call other_call (codes "b") (codes "t")
      (codes "r") peer peer v6 v6 hang_up in_call other_side in_call-IsTable call_there
      ((refl, refl, refl), tt) other_call_there begin_bye-hang_up (λ e. cc, ground arith)
      hang_up-IsSendable (ground arith) agent-IsValue

abbrev answer : Message
answer = record (reply 200) { headers = bye_request.headers }

abbrev asking_agent : Ua
asking_agent = (begin true bye_request new_ua).1

abbrev answered_agent : Ua
answered_agent = (handle printer agent (codes "3") (codes "t") answer peer v6 asking_agent).0

exchange : Reach printer agent (codes "3") new_ua answered_agent
exchange =
    next (next here (began true bye_request new_ua)) (heard (codes "t") answer peer v6 asking_agent)

new_ua-IsSound : IsSound new_ua
new_ua-IsSound = record { table = tt; served = tt; offers = tt; room = omega arith }

Reach-IsSound_example : IsSound answered_agent
Reach-IsSound_example = Reach-IsSound printer agent (codes "3") new_ua-IsSound exchange

abbrev answered_tx : ClientTx
answered_tx = receive answer (new_tx false)

answered_there : lookup (key_of bye_request) answered_agent.txs ≡ some answered_tx
unfolding lookup begin handle cseq branch parse_below
answered_there = refl

answered_round : wait_round final answered_tx ≡ returns (ok answer)
unfolding wait_round receive
answered_round = refl

Reach-answers_example : IsReply (key_of bye_request) answer × (is_provisional answer ≡ false)
Reach-answers_example =
    Reach-answers printer agent (codes "3") (key_of bye_request) exchange answered_there
      answered_round

abbrev works : Control
works = record { conn = true; control = true; op = true }

abbrev refuses : Control
refuses = record { conn = true; control = true; op = false }

-- a socket whose class cannot be set, and one whose device cannot be bound
abbrev unmarked : Answers
unmarked = record { listens = true; device = works; dscp = refuses }

abbrev unbound : Answers
unbound = record { listens = true; device = refuses; dscp = works }

new_transport-Opens_example :
    Opens unmarked (codes "eth0") (ip_tos dscp_ef) (new_transport unmarked peer (codes "eth0"))
new_transport-Opens_example = new_transport-Opens unmarked peer (codes "eth0")

new_agent-NoLeak_example :
    NoLeak
      (new_agent printer unmarked unbound agent (codes "eth0") (codes "3") (codes "t") (codes "r"))
new_agent-NoLeak_example =
    new_agent-NoLeak printer unmarked unbound agent (codes "eth0") (codes "3") (codes "t")
      (codes "r")

-- an error, a datagram that is no message, a BYE, the close, and a datagram that is read too late
abbrev reads : List Read
reads =
    failed
    ∷ datagram (codes "p") (codes "ping") peer
    ∷ datagram (codes "q") (send hang_up).2 peer
    ∷ closing
    ∷ datagram (codes "r") (send hang_up).2 peer
    ∷ []

serve-Serves_example :
    Serves printer agent
      (codes "4")
      v6
      reads
      other_side
      (serve printer agent (codes "4") v6 reads other_side)
serve-Serves_example = serve-Serves printer agent (codes "4") v6 reads other_side
