-- ===== src/Socket.antt =====
-- UDP sockets as internal/sip/transport.go and internal/media/media.go open them, with the options
-- of internal/sockopt. What the packages net and golang.org/x/sys/unix return is an argument, and
-- the calls that are made of them are a list; the socket is there from a listen that succeeds to
-- its close.
pub mod Opening
use ngntun.Base.{
  ℕ, Bool, true, false, not, List, [], ◌∷◌, ◌++◌, map, Option, none, some, if◌then◌else◌, Bytes,
  bytes_eq,
}
use ngntun.Netip.{AddrPort, is4}

abbrev pub dscp_ef : ℕ
dscp_ef = 0xb8

abbrev pub dscp_cs1 : ℕ
dscp_cs1 = 0x20

-- a system call on a socket
pub data Setsockopt : Type 0 where
  so_bindtodevice : (ifname : Bytes) → Setsockopt
  ip_tos : (tclass : ℕ) → Setsockopt
  ipv6_tclass : (tclass : ℕ) → Setsockopt

-- Whether `SyscallConn`, `Control` and the system call in the function that `Control` runs succeed;
-- without the first two the function does not run.
pub record Control : Type 0 where
  pub conn : Bool
  pub control : Bool
  pub op : Bool

pub data SockoptError : Type 0 where
  no_conn no_control not_set not_linux : SockoptError

pub record Outcome : Type 0 where
  pub calls : List Setsockopt
  pub error : Option SockoptError

-- the body that `BindToDevice` and `SetDSCP` share
unfoldable pub controlled : Control → Setsockopt → Outcome
controlled c o =
    if not c.conn
    then record { calls = []; error = some no_conn }
    else if not c.control
    then record { calls = []; error = some no_control }
    else record { calls = o ∷ []; error = if c.op then none else some not_set }

-- `BindToDevice` on Linux
unfoldable pub bind_to_device : Control → Bytes → Outcome
unfolding controlled bytes_eq
bind_to_device c ifname =
    if bytes_eq ifname []
    then record { calls = []; error = none }
    else controlled c (so_bindtodevice ifname)

-- `BindToDevice` elsewhere
unfoldable pub bind_to_device_other : Bytes → Outcome
unfolding bytes_eq
bind_to_device_other ifname = record {
  calls = [];
  error = if bytes_eq ifname [] then none else some not_linux;
}

-- `SetDSCP`
unfoldable pub set_dscp : Control → Bool → ℕ → Outcome
unfolding controlled
set_dscp c is_v4 tclass = controlled c (if is_v4 then ip_tos tclass else ipv6_tclass tclass)

pub data Network : Type 0 where
  udp4 udp6 : Network

-- a call that is made for a socket; a listen is noted with its success
pub data Call : Type 0 where
  listened : (works : Bool) → Network → AddrPort → Call
  option : Setsockopt → Call
  closed : Call

-- What the calls for one socket return.
pub record Answers : Type 0 where
  pub listens : Bool
  pub device : Control
  pub dscp : Control

pub data OpenError : Type 0 where
  not_bound : OpenError
  no_device : SockoptError → OpenError

pub record Opened : Type 0 where
  pub calls : List Call
  pub error : Option OpenError

-- A socket that listens is bound to the device, and gets its traffic class; only the latter may fail.
unfoldable pub open_socket : Answers → Network → AddrPort → Bool → ℕ → Bytes → Opened
unfolding bind_to_device set_dscp
open_socket a network local is_v4 tclass device =
    let first = listened a.listens network local in
    let bound = bind_to_device a.device device in
    if not a.listens
    then record { calls = first ∷ []; error = some not_bound }
    else elim bound.error [
      | some e ↦ record {
        calls = first ∷ (map option bound.calls ++ closed ∷ []);
        error = some (no_device e);
      }
      | none ↦ record {
        calls = first ∷ (map option bound.calls ++ map option (set_dscp a.dscp is_v4 tclass).calls);
        error = none;
      }
    ]

-- `Dial`
unfoldable pub dial : Answers → AddrPort → Bytes → Opened
unfolding open_socket
dial a local device = open_socket a udp6 local false dscp_cs1 device

-- `NewTransport`, with the traffic class that `New` gives
unfoldable pub new_transport : Answers → AddrPort → Bytes → Opened
unfolding open_socket
new_transport a local device =
    let is_v4 = is4 local.addr in
    open_socket a (if is_v4 then udp4 else udp6) local is_v4 dscp_ef device
