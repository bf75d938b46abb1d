-- ===== src/Tests/Operations.antt =====
-- Runs of the whole operations of the user agent.
use ngntun.Base.{true, false, List, [], ◌∷◌, ok, err, codes, All, arith}
use ngntun.Sip.Message.{Message}
use ngntun.Sip.Operations.{Waiting, Wake, done, tick, invite, refresh_registration}
use ngntun.Sip.Operations.Calls.{Calls, invite-Calls}
use ngntun.Sip.Operations.Completion.{OnlySteps}
use ngntun.Sip.Operations.Refreshing.{Refreshes, Steps, refresh_registration-Refreshes}
use ngntun.Sip.Outgoing.{Registration, invite_request}
use ngntun.Sip.Request.{cancelled}
use ngntun.Sip.Response.{v6}
use ngntun.Sip.System.{heard, here, new_ua, next}
use ngntun.Sip.Ua.{Ua, handle}
use ngntun.Tests.Calls.{agent, bye_request, call, peer, printer, reply}

-- a wait that takes in a message, and one that is cancelled
abbrev accepted : Message
accepted = record (reply 200) {
  headers =
      record { name = codes "To"; value = codes "<sip:2@a>;tag=y" }
      ∷ record { name = codes "Contact"; value = codes "<sip:2@5>" }
      ∷ bye_request.headers;
}

abbrev answering : Waiting
answering = λ u. ((handle printer agent (codes "3") (codes "t") accepted peer v6 u).0, ok accepted)

answering-OnlySteps : OnlySteps printer agent (codes "3") (λ u. (answering u).0)
answering-OnlySteps = λ u. next here (heard (codes "t") accepted peer v6 u)

abbrev giving_up : Waiting
giving_up = λ u. (u, err cancelled)

giving_up-OnlySteps : OnlySteps printer agent (codes "3") (λ u. (giving_up u).0)
giving_up-OnlySteps = λ u. here

abbrev one_call : Ua
one_call = record { txs = []; dialogs = (codes "c", call) ∷ []; incoming = [] }

invite-Calls_example :
    Calls printer agent
      (codes "3")
      (invite_request printer agent (codes "3") (codes "2") (codes "d") (codes "x") (codes "b") [])
      (codes "d")
      (codes "x")
      (invite printer agent
        (codes "3")
        (codes "2")
        (codes "d")
        (codes "x")
        (codes "b")
        (codes "e")
        []
        true
        true
        answering
        new_ua)
      new_ua
invite-Calls_example =
    invite-Calls printer agent (codes "3") (codes "2") (codes "d") (codes "x") (codes "b")
      (codes "e") [] true true answering new_ua answering-OnlySteps

abbrev registered : Registration
registered = record { reg_tag = codes "t"; reg_call_id = codes "r@5"; reg_cseq = 1 }

abbrev wakes : List Wake
wakes = tick (codes "a") true answering ∷ tick (codes "b") false giving_up ∷ done ∷ []

wakes-Steps : All (Steps printer agent (codes "3")) wakes
wakes-Steps = (answering-OnlySteps, (giving_up-OnlySteps, (tt, tt)))

refresh_registration-Refreshes_example :
    Refreshes printer agent
      (codes "3")
      wakes
      registered
      one_call
      (refresh_registration printer agent (codes "3") wakes registered one_call)
refresh_registration-Refreshes_example =
    refresh_registration-Refreshes printer agent (codes "3") wakes registered one_call wakes-Steps
      (omega arith)
