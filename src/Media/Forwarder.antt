-- ===== src/Media/Forwarder.antt =====
-- `Forwarder` of internal/media/media.go: one round of each of the two copying loops, as a function
-- of what the reads and writes return. The two loops share the statistics under a lock, so that a
-- run of both is a sequence of such rounds.
use ngntun.Base.{
  ℕ, ◌/◌, Bool, true, false, ◌||◌, not, List, [], ◌∷◌, ◌++◌, ltb, ◌==◌, if◌then◌else◌, Bytes,
  length, Option, none, some,
}
use ngntun.Media.Stats.{
  Stats, no_stats, count_tx, count_rx, count_malformed, count_tun_write_error, count_unexpected_src,
}
use ngntun.Netip.{AddrPort, addr_eq, unmap}

-- The fields of `Config` that the loops read.
pub record Config : Type 0 where
  pub remote : AddrPort
  pub strict_peer_port : Bool

pub record Forwarder : Type 0 where
  pub cfg : Config
  pub stats : Stats
  pub last_activity : ℕ
  pub learned_port : ℕ

-- `New`, which touches the activity clock.
unfoldable pub new : Config → ℕ → Forwarder
new cfg now = record { cfg = cfg; stats = no_stats; last_activity = now; learned_port = 0 }

-- The result of a read or a write that fails: `closing` tells that the context has ended or that
-- the descriptor is closed.
pub data Write : Type 0 where
  written : Write
  failed : (closing : Bool) → Write

pub data Event : Type 0 where
  -- a packet read from tun, with the outcome of the send on the media socket
  from_tun : (now : ℕ) → Bytes → Write → Event
  -- a datagram from the media socket, with the outcome of the write to tun
  from_network : (now : ℕ) → AddrPort → Bytes → Write → Event
  tun_read_failed : (closing : Bool) → Event
  network_read_failed : (closing : Bool) → Event

pub data Exit : Type 0 where
  closed tun_read_error send_error receive_error : Exit

-- What a round writes: a packet to tun, with the source that it came from, or a datagram to the
-- remote address. A write that fails was attempted too.
pub data Output : Type 0 where
  to_tun : (src : AddrPort) → Bytes → Output
  to_network : (dst : AddrPort) → Bytes → Output

-- What a round has written, the forwarder behind it, and whether its function returned.
pub record Round : Type 0 where
  pub output : List Output
  pub exit : Option Exit
  pub next : Forwarder

-- `acceptSource`: the verdict, and the port learned from the first packet.
unfoldable pub accept_source : AddrPort → Forwarder → Bool × Forwarder
unfolding addr_eq unmap
accept_source src f =
    if not (addr_eq (unmap src.addr) (unmap f.cfg.remote.addr))
    then (false, f)
    else if f.cfg.strict_peer_port
    then (src.port == f.cfg.remote.port, f)
    else if f.learned_port == 0
    then (true, record f { learned_port = src.port })
    else (src.port == f.learned_port, f)

unfoldable pub valid_ip_version : ℕ → Bool
valid_ip_version b = let v = b / 16 in v == 4 || v == 6

-- `buf[0]`, which is read only if at least 20 bytes are there
abbrev pub first_byte : Bytes → ℕ
first_byte [] = 0
first_byte (c ∷ s) = c

abbrev pub update_stats : (Stats → Stats) → Forwarder → Forwarder
update_stats g f = record f { stats = g f.stats }

abbrev pub touch : ℕ → Forwarder → Forwarder
touch now f = record f { last_activity = now }

-- `continue`, and `return`, in a loop
abbrev pub go_on : List Output → Forwarder → Round
go_on out f = record { output = out; exit = none; next = f }

abbrev pub leave : List Output → Exit → Forwarder → Round
leave out x f = record { output = out; exit = some x; next = f }

-- one round of `tunToNetwork`, behind the read
unfoldable pub send_packet : ℕ → Bytes → Write → Forwarder → Round
unfolding count_tx count_malformed
send_packet now p w f =
    if ltb (length p) 20
    then go_on [] (update_stats count_malformed f)
    else let out = to_network f.cfg.remote p ∷ [] in
      elim w [
        | failed closing ↦ leave out (if closing then closed else send_error) f
        | written ↦ go_on out (touch now (update_stats (count_tx (length p) now) f))
      ]

-- one round of `networkToTun`, behind `acceptSource`
unfoldable pub deliver_packet : ℕ → AddrPort → Bytes → Write → Forwarder → Round
unfolding count_rx count_malformed count_tun_write_error valid_ip_version
deliver_packet now src p w f =
    if ltb (length p) 20 || not (valid_ip_version (first_byte p))
    then go_on [] (update_stats count_malformed f)
    else let out = to_tun src p ∷ [] in
      elim w [
        | failed closing ↦
            if closing then leave out closed f else go_on out (update_stats count_tun_write_error f)
        | written ↦ go_on out (touch now (update_stats (count_rx (length p) now) f))
      ]

unfoldable pub step : Event → Forwarder → Round
unfolding send_packet deliver_packet accept_source count_unexpected_src
step (tun_read_failed closing) f = leave [] (if closing then closed else tun_read_error) f
step (network_read_failed closing) f = leave [] (if closing then closed else receive_error) f
step (from_tun now p w) f = send_packet now p w f
step (from_network now src p w) f =
    let (accepted, g) = accept_source src f in
    if accepted
    then deliver_packet now src p w g
    else go_on [] (update_stats count_unexpected_src g)

-- The rounds in the order in which they take effect, up to a return.
unfoldable pub run : List Event → Forwarder → Round
run [] f = go_on [] f
run (e ∷ es) f =
    let r = step e f in
    let later = run es r.next in
    elim r.exit [ some x ↦ r | none ↦ record later { output = r.output ++ later.output } ]
