-- ===== src/Socket/Opening.antt =====
-- What the sockets of internal/sip/transport.go and internal/media/media.go are left with.
use ngntun.Base.{
  ℕ, Bool, true, false, ◌||◌, ◌&&◌, List, [], ◌∷◌, ◌++◌, map, none, some, ◌≡◌, ◌⊎◌, ◌↔◌, inl, inr,
  refl, ap, ◌∙◌, if◌then◌else◌, Bytes, bytes_eq, bytes_eq_iff, Bool-cases, Option-cases, arith,
}
use ngntun.Netip.{AddrPort, is4}
use ngntun.Socket.{
  Answers, Call, Control, Network, Opened, Setsockopt, bind_to_device, closed, controlled, dial,
  dscp_cs1, dscp_ef, ip_tos, ipv6_tclass, listened, new_transport, open_socket, option, set_dscp,
  so_bindtodevice, udp6,
}

-- Whether the socket is there behind the calls.
pub is_open : Bool → List Call → Bool
is_open b [] = b
is_open b (listened works n a ∷ cs) = is_open (works || b) cs
is_open b (option o ∷ cs) = is_open b cs
is_open b (closed ∷ cs) = is_open false cs

-- the options among the calls
pub options : List Call → List Setsockopt
options [] = []
options (option o ∷ cs) = o ∷ options cs
options (_ ∷ cs) = options cs

pub is_open-append :
    (b : Bool) (cs ds : List Call) → is_open b (cs ++ ds) ≡ is_open (is_open b cs) ds
unfolding is_open
is_open-append b [] ds = refl
is_open-append b (listened works n a ∷ cs) ds = is_open-append (works || b) cs ds
is_open-append b (option o ∷ cs) ds = is_open-append b cs ds
is_open-append b (closed ∷ cs) ds = is_open-append false cs ds

pub is_open-nil : is_open false [] ≡ false
unfolding is_open
is_open-nil = refl

pub is_open-closed : (cs : List Call) → is_open false (cs ++ closed ∷ []) ≡ false
unfolding is_open
is_open-closed cs = is_open-append false cs (closed ∷ [])

is_open-options : (b : Bool) (os : List Setsockopt) → is_open b (map option os) ≡ b
unfolding is_open
is_open-options b [] = refl
is_open-options b (o ∷ os) = is_open-options b os

options-map :
    (os : List Setsockopt) (cs : List Call) → options (map option os ++ cs) ≡ os ++ options cs
unfolding options
options-map [] cs = refl
options-map (o ∷ os) cs = rw (options-map os cs) refl

-- All three calls behind an option succeed.
abbrev pub Works : Control → Type 0
Works c = (c.conn ≡ true) × (c.control ≡ true) × (c.op ≡ true)

-- the option that a named device makes
abbrev pub device_options : Bytes → List Setsockopt
device_options [] = []
device_options (b ∷ bs) = so_bindtodevice (b ∷ bs) ∷ []

-- an option that is set if the function of `Control` runs
abbrev pub tried : Control → Setsockopt → List Setsockopt
tried c o = if c.conn && c.control then o ∷ [] else []

-- What opening a socket has done.
pub record Opens (a : Answers) (device : Bytes) (class : Setsockopt) (o : Opened) : Type 0 where
  -- It succeeds if it listens and a device that is named can be bound, whatever the class does.
  pub works_iff : (o.error ≡ none) ↔ ((a.listens ≡ true) × ((device ≡ []) ⊎ Works a.device))
  -- The socket is there exactly behind a success.
  pub held : is_open false o.calls ≡ elim o.error [ none ↦ true | some e ↦ false ]
  -- Then it has been given the device, and the class wherever the option could be tried.
  pub marked : o.error ≡ none → options o.calls ≡ device_options device ++ tried a.dscp class

bind_to_device-none :
    (c : Control) (device : Bytes)
    → ((bind_to_device c device).error ≡ none) ↔ ((device ≡ []) ⊎ Works c)
unfolding bind_to_device controlled
bind_to_device-none c device = ground (arith, bytes_eq_iff device [])

bind_to_device-options :
    (c : Control) (device : Bytes)
    → (bind_to_device c device).error ≡ none
    → (bind_to_device c device).calls ≡ device_options device
unfolding bind_to_device controlled bytes_eq
bind_to_device-options c [] e = refl
bind_to_device-options c (b ∷ bs) e = ground (arith, e)

set_dscp-calls :
    (c : Control) (is_v4 : Bool) (tclass : ℕ)
    → (set_dscp c is_v4 tclass).calls
      ≡ tried c (if is_v4 then ip_tos tclass else ipv6_tclass tclass)
unfolding set_dscp controlled
set_dscp-calls c is_v4 tclass = ground arith

held_on : (os ps : List Setsockopt) → is_open true (map option os ++ map option ps) ≡ true
held_on os ps =
    is_open-append true (map option os) (map option ps)
    ∙ ap (λ (b : Bool). is_open b (map option ps)) (is_open-options true os)
    ∙ is_open-options true ps

options-both : (os ps : List Setsockopt) → options (map option os ++ map option ps) ≡ os ++ ps
unfolding options
options-both [] [] = refl
options-both [] (p ∷ ps) = ap (◌∷◌ p) (options-both [] ps)
options-both (o ∷ os) ps = ap (◌∷◌ o) (options-both os ps)

open_socket-Opens :
    (a : Answers) (network : Network) (local : AddrPort) (is_v4 : Bool) (tclass : ℕ)
    (device : Bytes)
    → Opens a device
        (if is_v4 then ip_tos tclass else ipv6_tclass tclass)
        (open_socket a network local is_v4 tclass device)
unfolding open_socket is_open options
open_socket-Opens a network local is_v4 tclass device =
    let bound = bind_to_device a.device device in
    let can = bind_to_device-none a.device device in
    let first = listened a.listens network local in
    elim (Bool-cases a.listens) [
      | inr q ↦
          rw (q, open_socket)
            (record { works_iff = (λ e. cc, λ h. cc); held = refl; marked = λ e. cc })
      | inl q ↦ elim (Option-cases bound.error) [
        | inr (e, q') ↦
            rw (q, open_socket)
              (rw q' (record {
                works_iff = (λ h. cc, λ h. absurd (cc (can.1 h.1)));
                held = rw q (is_open-append true (map option bound.calls) (closed ∷ []));
                marked = λ h. cc;
              }))
        | inl q' ↦
            rw (q, open_socket)
              (rw q' (record {
                works_iff = (λ h. (refl, can.0 q'), λ h. refl);
                held = rw q (held_on bound.calls (set_dscp a.dscp is_v4 tclass).calls);
                marked = λ h.
                    options-both bound.calls (set_dscp a.dscp is_v4 tclass).calls
                    ∙ cc (
                      bind_to_device-options a.device device q',
                      set_dscp-calls a.dscp is_v4 tclass,
                    );
              }))
      ]
    ]

-- The socket of a transport: it comes about exactly if the address can be bound and the device, if
-- one is named, can be; no socket stays behind a failure, and the class EF is set on a success
-- wherever the option can be tried, for IPv4 or IPv6 as the address is.
pub new_transport-Opens :
    (a : Answers) (local : AddrPort) (device : Bytes)
    → Opens a device
        (if is4 local.addr then ip_tos dscp_ef else ipv6_tclass dscp_ef)
        (new_transport a local device)
unfolding new_transport
new_transport-Opens a local device = open_socket-Opens a _ local (is4 local.addr) dscp_ef device

-- The same holds of the socket for the media, which has the class CS1 of IPv6.
pub dial-Opens :
    (a : Answers) (local : AddrPort) (device : Bytes)
    → Opens a device (ipv6_tclass dscp_cs1) (dial a local device)
unfolding dial
dial-Opens a local device = open_socket-Opens a udp6 local false dscp_cs1 device
