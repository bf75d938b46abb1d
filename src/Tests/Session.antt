-- ===== src/Tests/Session.antt =====
-- Runs of a session: the setup of a call, its supervision, and its order of calls.
use ngntun.Base.Int.{pos, to_int64}
use ngntun.Base.{
  ℕ, ◌*◌, ◌≤◌, true, false, List, [], ◌∷◌, Option, none, some, ◌≡◌, refl, ok, codes, Bytes, arith,
}
use ngntun.Netip.{ip4}
use ngntun.Sdp.{Answer}
use ngntun.Session.Admission.Order.{Established, wait_for_call-Established}
use ngntun.Session.Admission.{Arrival, Waited, wait_for_call}
use ngntun.Session.Lifecycle.Balance.{
  Event, Interleaved, by_run, closed, conn, conn_closed, done, next, perform_events, run-Balanced,
  tun, tun_closed,
}
use ngntun.Session.Lifecycle.Held.{nothing}
use ngntun.Session.Lifecycle.{
  Plan, World, run, add_route, apply_net, cancel_forward, close_agent, close_media, close_tun,
  create_tun, delete_tun, hang_up, open_agent, open_media, register, roll_back_net, roll_back_route,
  set_up_call, start_command, start_forward, start_refresh, stop_command, stop_refresh, unregister,
  wait_command,
}
use ngntun.Session.Supervise.Causes.{Ended, supervise-Ended, supervise_prompt}
use ngntun.Session.Supervise.{
  Limits, Reason, SuperviseError, Wake, media_deadline, media_timeout, command_exit,
  session_watchdog, supervise, tick, timer_length,
}
use ngntun.Sip.Dialog.{Dialog}
use ngntun.Sip.Expires.{second}
use ngntun.Sip.Invite.Outcome.{Outcome, finish_invite-Outcome}
use ngntun.Sip.Invite.{finish_invite}
use ngntun.Sip.Message.{Message, request}
use ngntun.Sip.Outgoing.{invite_request}
use ngntun.Sip.Response.{v6}
use ngntun.Sip.Ua.{Ua}
use ngntun.Tests.Calls.{agent, call, peer, printer, reply}

abbrev limits : Limits
limits = record { idle_limit = 30; max_hold = 600; media_limit = 10 }

abbrev wakes : List (ℕ × Wake)
wakes = (5, tick 1) ∷ (10, media_deadline 0) ∷ []

wakes-end : supervise limits wakes ≡ some (10, media_timeout, none)
unfolding supervise ngntun.Session.Supervise.judge
wakes-end = refl

supervise-Ended_example : Ended limits true (pos 300) 0 wakes 10 media_timeout none
unfolding session_watchdog
supervise-Ended_example =
    supervise-Ended limits true (pos 300) 0 0 wakes
      (omega arith, tt, (omega arith, (omega arith, omega arith), tt)) wakes-end

-- A lifetime of 9223372036 seconds, the longest that can be read, makes a timer that fires at once.
watchdog_wrap : timer_length (session_watchdog (pos (9223372036 * second))) ≡ 0
unfolding session_watchdog to_int64
watchdog_wrap = refl

supervise_prompt_example :
    (t : ℕ) × (v : Reason × Option SuperviseError) × (supervise limits wakes ≡ some (t, v.0, v.1))
    × (0 ≤ t)
    × (t ≤ 10)
supervise_prompt_example =
    supervise_prompt limits true (pos 300) 300 0 ((5, tick 1) ∷ []) 10 (media_deadline 0) []
      (omega arith, tt, (omega arith, (omega arith, omega arith), tt)) refl

abbrev registered_for : Bytes → Message
registered_for v = record (reply 200) {
  headers = record { name = codes "Expires"; value = v } ∷ [];
}

abbrev idle_agent : Ua
idle_agent = record { txs = []; dialogs = []; incoming = [] }

abbrev our_invite : Message
our_invite =
    invite_request printer agent (codes "3") (codes "0120") (codes "c@5") (codes "y")
      (codes "z9hG4bKz") (codes "v=0")

abbrev taken_up : Message
taken_up = record (reply 200) {
  headers =
      record { name = codes "To"; value = codes "<sip:0120@ntt.jp>;tag=x" }
      ∷ record { name = codes "Contact"; value = codes "<sip:0120@5>" }
      ∷ record { name = codes "Record-Route"; value = codes "<sip:a@5;lr>" }
      ∷ [];
}

finish_invite-Outcome_example :
    Outcome printer agent
      (codes "3")
      true
      our_invite
      taken_up
      (codes "c@5")
      (codes "y")
      idle_agent
      (finish_invite printer agent
        (codes "3")
        true
        our_invite
        taken_up
        (codes "c@5")
        (codes "y")
        (codes "sip:3@ntt.jp")
        (codes "sip:0120@ntt.jp")
        (codes "z9hG4bKw")
        idle_agent)
finish_invite-Outcome_example =
    finish_invite-Outcome printer agent (codes "3") true our_invite taken_up (codes "c@5")
      (codes "y") (codes "sip:3@ntt.jp") (codes "sip:0120@ntt.jp") (codes "z9hG4bKw") idle_agent

abbrev call_from : Bytes → Bytes → Arrival
call_from from sdp = record {
  call = record {
    tr = v6;
    req =
        record (request (codes "INVITE") (codes "sip:3@5") (
          record { name = codes "From"; value = from }
          ∷ record { name = codes "Contact"; value = codes "<sip:1@5>" }
          ∷ record { name = codes "Call-ID"; value = codes "c" }
          ∷ [])) { body = sdp };
    src = peer;
  };
  tag = codes "y";
  sent = true;
  ua = idle_agent;
}

abbrev their_sdp : Bytes
their_sdp = codes "c=IN IP4 5\r\nm=application 4000 udp octet-stream\r\nb=AS:64\r\n"

abbrev arrivals : List Arrival
arrivals =
    call_from (codes "<sip:03@a>;tag=x") their_sdp
    ∷ call_from (codes "<sip:0123@a>;tag=x") []
    ∷ call_from (codes "<sip:0123@a>;tag=x") their_sdp
    ∷ []

abbrev their_answer : Answer
their_answer = record { addr = ip4 5; port = pos 4000; bandwidth_kbps = pos 64; setup = [] }

abbrev taken_dialog : Dialog
taken_dialog = record call {
  local_uri = [];
  remote_uri = codes "sip:0123@a";
  remote_target = codes "sip:1@5";
  cseq = 0;
  invite_cseq = 0;
}

abbrev waited : Waited
waited = wait_for_call printer agent (codes "3") (codes "01" ∷ []) (codes "v=0") arrivals

waited-result : waited.result ≡ ok (taken_dialog, their_answer, codes "0123")
unfolding wait_for_call
waited-result = refl

wait_for_call-Established_example :
    Established printer agent
      (codes "3")
      (codes "01" ∷ [])
      (codes "v=0")
      arrivals
      waited.out
      taken_dialog
      their_answer
      (codes "0123")
wait_for_call-Established_example =
    wait_for_call-Established printer agent (codes "3") (codes "01" ∷ []) (codes "v=0") arrivals
      waited-result

abbrev plan : Plan
plan = record {
  force = true;
  register_only = false;
  answer_mode = false;
  peer_number = codes "0120";
  media_route = true;
  has_command = true;
}

abbrev world : World
world = record {
  exists = true;
  deleted = true;
  created = true;
  agent = true;
  registered = none;
  dialed = true;
  placed = (false, none);
  waited = ok [];
  applied = none;
  route = ok true;
  started = true;
  ends = (command_exit, none);
  command_result = record { exit_code = pos 0; failed = false };
}

-- The forwarder closes the socket before the call is hung up, and the tun device behind it.
abbrev events : List Event
events =
    by_run delete_tun
    ∷ by_run create_tun
    ∷ by_run open_agent
    ∷ by_run register
    ∷ by_run start_refresh
    ∷ by_run open_media
    ∷ by_run set_up_call
    ∷ by_run apply_net
    ∷ by_run add_route
    ∷ by_run start_forward
    ∷ by_run start_command
    ∷ by_run stop_command
    ∷ by_run cancel_forward
    ∷ conn_closed
    ∷ by_run hang_up
    ∷ tun_closed
    ∷ by_run roll_back_net
    ∷ by_run roll_back_route
    ∷ by_run wait_command
    ∷ by_run stop_command
    ∷ by_run close_media
    ∷ by_run stop_refresh
    ∷ by_run unregister
    ∷ by_run close_agent
    ∷ by_run close_tun
    ∷ []

closing : Interleaved false (run plan world).trace events
unfolding run
closing = next (
    next (
      next (
        next (
          next (
            next (
              next (
                next (
                  next (
                    next (
                      next (
                        next (
                          next (
                            conn (
                              next (
                                tun (
                                  next (
                                    next (
                                      next (
                                        next (
                                          next
                                            (next (next (next (next (done)))))))))))))))))))))))))

run-Balanced_example : perform_events events nothing closed ≡ some (nothing, closed)
run-Balanced_example = run-Balanced plan world closing
