-- ===== src/Media/Running.antt =====
-- `Run` of internal/media/media.go: the two loops as goroutines, of which the first to return ends
-- the context, which closes the socket and the tun device under the other.
use ngntun.Base.{
  Bool, true, false, not, ◌&&◌, ◌||◌, List, [], ◌∷◌, Option, none, some, if◌then◌else◌,
}
use ngntun.Media.Forwarder.{
  Event, Exit, Forwarder, Output, Write, closed, failed, from_network, from_tun,
  network_read_failed, step, tun_read_failed, written,
}

-- the forwarder, the first result in the channel, and which loops have returned
pub record Running : Type 0 where
  pub fwd : Forwarder
  pub first : Option Exit
  pub tun_done : Bool
  pub network_done : Bool

abbrev pub start : Forwarder → Running
start f = record { fwd = f; first = none; tun_done = false; network_done = false }

-- the loop whose round it is
unfoldable pub is_tun : Event → Bool
is_tun (from_tun now p w) = true
is_tun (tun_read_failed closing) = true
is_tun _ = false

unfoldable pub late_write : Write → Write
late_write written = written
late_write (failed closing) = failed true

-- With the context ended, every error is one of closing.
unfoldable pub late : Event → Event
unfolding late_write
late (from_tun now p w) = from_tun now p (late_write w)
late (from_network now src p w) = from_network now src p (late_write w)
late (tun_read_failed closing) = tun_read_failed true
late (network_read_failed closing) = network_read_failed true

abbrev pub has_ended : Running → Bool
has_ended r = elim r.first [ none ↦ false | some x ↦ true ]

abbrev pub is_done : Event → Running → Bool
is_done e r = if is_tun e then r.tun_done else r.network_done

-- `errc <- …`; the channel has room for both, and only its first is received
abbrev pub returned : Event → Exit → Running → Running
returned e x r = record r {
  first = elim r.first [ none ↦ some x | some y ↦ some y ];
  tun_done = r.tun_done || is_tun e;
  network_done = r.network_done || not (is_tun e);
}

-- a round of one of the two loops; a loop that has returned has none
unfoldable pub advance : Event → Running → Running × List Output
unfolding late is_tun step
advance e r =
    let round = step (if has_ended r then late e else e) r.fwd in
    let next = record r { fwd = round.next } in
    if is_done e r
    then (r, [])
    else (elim round.exit [ none ↦ next | some x ↦ returned e x next ], round.output)

unfoldable pub advance_all : List Event → Running → Running
unfolding advance
advance_all [] r = r
advance_all (e ∷ es) r = advance_all es (advance e r).0

pub data RunResult : Type 0 where
  running : RunResult
  stopped : Option Exit → RunResult

abbrev pub error_of : Option Exit → Option Exit
error_of none = none
error_of (some closed) = none
error_of (some x) = some x

-- what `Run` returns once both loops have: no error for a loop that was closed
unfoldable pub result : Running → RunResult
result r = if r.tun_done && r.network_done then stopped (error_of r.first) else running
