-- ===== src/Sip/Start.antt =====
-- `New` and `Close` of internal/sip/ua.go with the two sockets of the user agent, and `Serve` of
-- internal/sip/transport.go, the loop that reads one of them.
pub mod NoLeak
pub mod Serving
use ngntun.Base.{
  Bool, true, false, List, [], ◌∷◌, ◌++◌, map, Option, none, some, if◌then◌else◌, Bytes, Result, ok,
  err,
}
use ngntun.Netip.{AddrPort, NetipText}
use ngntun.Sip.Message.{marshal}
use ngntun.Sip.Message.Parse.{parse_message}
use ngntun.Sip.Outgoing.{Registration, new_call_id, with_defaults}
use ngntun.Sip.Response.{Config, Transport, Sent, v4, v6}
use ngntun.Sip.System.{new_ua}
use ngntun.Sip.Ua.{Ua, handle}
use ngntun.Socket.{Answers, Call, OpenError, closed, new_transport}

pub data NewError : Type 0 where
  no_local_address : NewError
  no_transport : Transport → OpenError → NewError

-- What `New` returns, but for the transports, which have the names v4 and v6.
pub record Agent : Type 0 where
  pub cfg : Config
  pub ua : Ua
  pub contact_user : Bytes
  pub registration : Registration

pub record Created : Type 0 where
  pub calls : List (Transport × Call)
  pub result : Result NewError Agent

-- the calls for the socket of a transport
abbrev pub calls_of : Transport → List Call → List (Transport × Call)
calls_of t = map (λ c. (t, c))

-- the fields of `UA` that `New` sets; the tokens of crypto/rand are arguments
abbrev pub agent_of : NetipText → Config → Bytes → Bytes → Bytes → Agent
agent_of text cfg contact_user tag token = record {
  cfg = cfg;
  ua = new_ua;
  contact_user = contact_user;
  registration = record {
    reg_tag = tag;
    reg_call_id = new_call_id token (text.addr_string cfg.local_v4.addr);
    reg_cseq = 0;
  };
}

-- `New` behind the defaults
unfoldable pub open_transports : Answers → Answers → Config → Bytes → Agent → Created
unfolding new_transport
open_transports a4 a6 cfg device agent =
    let o4 = new_transport a4 cfg.local_v4 device in
    let o6 = new_transport a6 cfg.local_v6 device in
    elim o4.error [
      | some e ↦ record { calls = calls_of v4 o4.calls; result = err (no_transport v4 e) }
      | none ↦ elim o6.error [
        | some e ↦ record {
          calls = calls_of v4 o4.calls ++ (calls_of v6 o6.calls ++ (v4, closed) ∷ []);
          result = err (no_transport v6 e);
        }
        | none ↦ record { calls = calls_of v4 o4.calls ++ calls_of v6 o6.calls; result = ok agent }
      ]
    ]

-- `New`
unfoldable pub new_agent :
    NetipText → Answers → Answers → Config → Bytes → Bytes → Bytes → Bytes → Created
unfolding with_defaults open_transports
new_agent text a4 a6 cfg device contact_user tag token = elim (with_defaults cfg) [
  | none ↦ record { calls = []; result = err no_local_address }
  | some cfg' ↦ open_transports a4 a6 cfg' device (agent_of text cfg' contact_user tag token)
]

-- `Close`
abbrev pub close_agent : List (Transport × Call)
close_agent = (v4, closed) ∷ (v6, closed) ∷ []

-- `Send`: the transport, the destination and the bytes of a datagram
unfoldable pub send : Sent → Transport × AddrPort × Bytes
unfolding marshal
send s = (s.tr, s.dst, marshal s.msg)

-- What a read of a socket returns: a datagram with its source, an error, or the error of a socket
-- that is closed. The new tag is for the answer that the datagram may get.
pub data Read : Type 0 where
  datagram : (tag raw : Bytes) → AddrPort → Read
  failed closing : Read

pub record Served : Type 0 where
  pub ua : Ua
  pub out : List Sent
  pub returned : Bool

-- `Serve` on the results of its reads; without a further read it waits.
unfoldable pub serve : NetipText → Config → Bytes → Transport → List Read → Ua → Served
unfolding parse_message handle
serve text cfg contact_user tr [] u = record { ua = u; out = []; returned = false }
serve text cfg contact_user tr (closing ∷ rs) u = record { ua = u; out = []; returned = true }
serve text cfg contact_user tr (failed ∷ rs) u = serve text cfg contact_user tr rs u
serve text cfg contact_user tr (datagram tag raw src ∷ rs) u = elim (parse_message raw) [
  | err e ↦ serve text cfg contact_user tr rs u
  | ok m ↦
      let (u', out) = handle text cfg contact_user tag m src tr u in
      let rest = serve text cfg contact_user tr rs u' in record rest { out = out ++ rest.out }
]
