-- ===== src/Tests/Agent.antt =====
-- Runs of the user agent.
use ngntun.Base.{true, [], ◌∷◌, none, ◌≡◌, refl, ok, codes}
use ngntun.Netip.{ip4, AddrPort}
use ngntun.Sip.Dialog.Routing.{IsRouted, new_request-IsRouted}
use ngntun.Sip.Dialog.{Dialog, method_of, new_request, request_headers, next_hop}
use ngntun.Sip.Param.{addr_port_from_uri, uri_in_angle}
use ngntun.Sip.Message.{Message, call_id, request}
use ngntun.Sip.Response.{v6}
use ngntun.Sip.Transaction.{new_tx}
use ngntun.Sip.Ua.Dispatch.{IsTable}
use ngntun.Sip.Ua.Outside.{Outside, handle_request-Outside}
use ngntun.Sip.Ua.{Ua, lookup, handle_request}
use ngntun.Text.Decimal.{parse_below}
use ngntun.Tests.Calls.{peer, agent, printer, call}

abbrev pub in_call : Ua
in_call = record {
  txs = (codes "|", new_tx true) ∷ [];
  dialogs = (codes "c", call) ∷ [];
  incoming = [];
}

pub in_call-IsTable : IsTable in_call
in_call-IsTable = ((refl, refl, refl), tt)

abbrev first_invite : Message
first_invite = request (codes "INVITE") (codes "sip:2@a") []

no_dialog : lookup (call_id first_invite) in_call.dialogs ≡ none
unfolding lookup call_id
no_dialog = refl

handle_request-Outside_example :
    Outside printer agent
      (codes "3")
      (method_of first_invite.method)
      (codes "t")
      first_invite
      peer
      v6
      in_call
      (handle_request printer agent (codes "3") (codes "t") first_invite peer v6 in_call)
handle_request-Outside_example =
    handle_request-Outside printer agent (codes "3") (codes "t") first_invite peer v6 in_call
      no_dialog

abbrev routed_call : Dialog
routed_call = record call { route_set = codes "<sip:5:5062;lr>" ∷ [] }

abbrev second_bye : Message
second_bye =
    request (codes "BYE") (codes "sip:1@5")
      (request_headers printer agent (codes "3") routed_call (codes "BYE") 2 (codes "b"))

abbrev first_hop : AddrPort
first_hop = record { addr = ip4 5; port = 5062 }

new_request-routed_call :
    new_request printer agent (codes "3") routed_call (codes "BYE") 2 (codes "b")
    ≡ ok (second_bye, first_hop)
unfolding new_request addr_port_from_uri next_hop uri_in_angle parse_below
new_request-routed_call = refl

new_request-IsRouted_example :
    IsRouted printer agent (codes "3") routed_call (codes "BYE") 2 second_bye first_hop
new_request-IsRouted_example =
    new_request-IsRouted printer agent (codes "3") routed_call (codes "BYE") 2 (codes "b")
      new_request-routed_call
