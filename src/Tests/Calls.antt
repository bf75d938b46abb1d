-- ===== src/Tests/Calls.antt =====
-- Runs of the SIP headers, transactions, responses and dialogs.
use ngntun.Base.Int.{pos}
use ngntun.Base.{
  ℕ, true, false, List, [], ◌∷◌, ◌++◌, none, some, ◌≡◌, ◌≢◌, refl, codes, All, ok, arith,
}
use ngntun.Netip.{ip4, AddrPort, NetipText}
use ngntun.Sip.Dialog.{Dialog, method_of, handle_request}
use ngntun.Sip.Dialog.Requests.{Answered, handle_request-Answered}
use ngntun.Sip.Header.{Headers}
use ngntun.Sip.Message.HeaderLines.{IsSendable, sent_headers}
use ngntun.Sip.Message.Parse.{parse_message}
use ngntun.Sip.Message.RoundTrip.{Start, response, message_of, parse_message-marshal}
use ngntun.Sip.Message.{Message, marshal, request}
use ngntun.Text.Space.{is_space}
use ngntun.Sip.Response.{Config, v6}
use ngntun.Sip.Transaction.{new_tx, receive, schedule, timer_t1}
use ngntun.Sip.Transaction.Delivery.{begin, received, Holds, Life-Holds}
use ngntun.Sip.Transaction.Schedule.{schedule_total, schedule_bounds, unanswered, InTime}

abbrev headers : Headers
headers =
    record { name = codes "v"; value = codes "SIP/2.0/UDP a;branch=z" }
    ∷ record { name = codes "Via"; value = codes "SIP/2.0/UDP b" }
    ∷ record { name = codes "From"; value = codes "<sip:1@a>;tag=x" }
    ∷ record { name = codes "t"; value = codes "<sip:2@a>" }
    ∷ record { name = codes "Call-ID"; value = codes "c" }
    ∷ record { name = codes "CSeq"; value = codes "1 BYE" }
    ∷ []

abbrev wire_headers : Headers
wire_headers =
    record { name = codes "From"; value = codes "<sip:1@a>;tag=x" }
    ∷ record { name = codes "CSeq"; value = codes "1 BYE" }
    ∷ []

from-IsSendable : IsSendable (record { name = codes "From"; value = codes "<sip:1@a>;tag=x" })
unfolding is_space
from-IsSendable = record {
  name_some = λ e. cc;
  name_word = ground arith;
  name_lacks = ground arith;
  value_inline = ground arith;
  value_starts = refl;
  value_ends = refl;
}

cseq-IsSendable : IsSendable (record { name = codes "CSeq"; value = codes "1 BYE" })
unfolding is_space
cseq-IsSendable = record {
  name_some = λ e. cc;
  name_word = ground arith;
  name_lacks = ground arith;
  value_inline = ground arith;
  value_starts = refl;
  value_ends = refl;
}

abbrev response_start : Start
response_start = response 200 (codes "OK")

parse_message-marshal_example :
    parse_message (marshal (message_of response_start wire_headers (codes "v=0")))
    ≡ ok (message_of response_start (sent_headers wire_headers (codes "v=0")) (codes "v=0"))
parse_message-marshal_example =
    parse_message-marshal response_start wire_headers (codes "v=0") (omega arith, ground arith)
      (from-IsSendable, (cseq-IsSendable, tt)) (omega arith)

schedule_total_example : schedule 64 true 1200 40000 timer_t1 0 ≢ none
schedule_total_example = schedule_total true 1200 40000

schedule-answered : schedule 64 true 1200 40000 timer_t1 0 ≡ some (500 ∷ [])
unfolding schedule
schedule-answered = refl

schedule_bounds_example :
    ((rest : List ℕ) × (unanswered true ≡ (500 ∷ []) ++ rest))
    × All (InTime true 1200 40000) (500 ∷ [])
schedule_bounds_example = schedule_bounds true 1200 40000 schedule-answered

abbrev pub bye_request : Message
bye_request = request (codes "BYE") (codes "sip:2@a") headers

abbrev pub reply : ℕ → Message
reply n = record {
  response = true;
  method = [];
  request_uri = [];
  status = pos n;
  reason = [];
  headers = [];
  body = [];
}

Life-Holds_example :
    Holds
      (reply 180 ∷ reply 200 ∷ reply 486 ∷ [])
      (receive (reply 486) (receive (reply 200) (receive (reply 180) (new_tx true))))
Life-Holds_example =
    Life-Holds (received (reply 486) (received (reply 200) (received (reply 180) (begin true))))

abbrev pub peer : AddrPort
peer = record { addr = ip4 5; port = 5060 }

abbrev pub agent : Config
agent = record {
  domain = codes "ntt.jp";
  extension = codes "3";
  self_number = codes "0312345678";
  registrar = peer;
  proxy = peer;
  local_v4 = peer;
  local_v6 = peer;
  register_expires = 3600;
  session_expires = 300;
  user_agent = codes "ngntun";
  register_over_ipv6 = false;
}

abbrev pub printer : NetipText
printer = record {
  parse_addr = λ s. some (ip4 5);
  parse_prefix = λ s. none;
  addr_string = λ a. codes "5";
  prefix_string = λ p. [];
  addr_port_string = λ ap. codes "5:5060";
}

abbrev pub call : Dialog
call = record {
  tr = v6;
  call_id = codes "c";
  local_tag = codes "y";
  remote_tag = codes "x";
  local_uri = codes "sip:2@a";
  remote_uri = codes "sip:1@a";
  remote_target = codes "sip:1@5";
  route_set = [];
  session_expires = pos 300000000000;
  refresher = codes "uac";
  cseq = 1;
  invite_cseq = 1;
  local_sdp = codes "v=0";
  ack = none;
  ack_received = false;
  refresh = false;
  terminated = none;
  listed = true;
}

handle_request-Answered_example :
    Answered
      (method_of bye_request.method)
      bye_request
      (codes "y")
      peer
      v6
      (handle_request printer agent (codes "3") call bye_request peer v6).1
handle_request-Answered_example =
    handle_request-Answered printer agent (codes "3") call bye_request peer v6
