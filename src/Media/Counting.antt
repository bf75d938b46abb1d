-- ===== src/Media/Counting.antt =====
-- The statistics of internal/media/media.go: each round is counted once, and the idle clock.
use ngntun.Base.{
  ℕ, ◌+◌, ◌<◌, ◌≤◌, ◌^◌, List, [], ◌∷◌, ◌≡◌, ◌⊎◌, inl, inr, refl, arith, Option, none, some,
  Option-cases, length, Bytes,
}
use ngntun.Media.Forwarder.{
  Forwarder, Event, from_tun, from_network, tun_read_failed, network_read_failed, step, run, Config,
  new, Write, deliver_packet, send_packet,
}
use ngntun.Media.Stats.{Stats}
use ngntun.Netip.{AddrPort}

-- The rounds that the statistics have counted.
abbrev pub handled : Stats → ℕ
handled s =
    s.tx_packets + s.rx_packets + s.drop_unexpected_src + s.drop_malformed + s.tun_write_errors

step-handled :
    (e : Event) (f : Forwarder)
    → handled f.stats + 1 < 2 ^ 64
    → (step e f).exit ≡ none
    → handled (step e f).next.stats ≡ handled f.stats + 1
unfolding step
step-handled (from_tun now p w) f room go = ground arith
step-handled (from_network now src p w) f room go = ground arith
step-handled (tun_read_failed closing) f room go = cc
step-handled (network_read_failed closing) f room go = cc

-- Every packet that the two loops read is counted in exactly one of the five counters, as long as
-- no loop returns and the counters have room: the sum of the counters grows by the number of rounds.
pub run-handled :
    (es : List Event) (f : Forwarder)
    → handled f.stats + length es < 2 ^ 64
    → (run es f).exit ≡ none
    → handled (run es f).next.stats ≡ handled f.stats + length es
unfolding run
run-handled [] f room go = omega arith
run-handled (e ∷ es) f room go = elim (Option-cases (step e f).exit) [
  | inl q ↦
      let first = step-handled e f (omega arith) q in
      rw (q, run)
        (omega
          (arith, first, run-handled es (step e f).next (omega (arith, first)) (rw (q, run) at go)))
  | inr (x, q) ↦ cc (rw (q, run) at go)
]

-- first ≤ last ≤ the idle clock, or neither is set.
abbrev Ordered : Option ℕ → Option ℕ → ℕ → Type 0
Ordered none none clock = Unit
Ordered (some first) (some last) clock = (first ≤ last) × (last ≤ clock)
Ordered _ _ clock = ⊥

-- The idle clock stands at the last packet that was forwarded, or at the start.
abbrev Recent : ℕ → Option ℕ → Option ℕ → ℕ → Type 0
Recent start none none clock = clock ≡ start
Recent start tx rx clock = (tx ≡ some clock) ⊎ (rx ≡ some clock)

pub record IsTimed (start : ℕ) (f : Forwarder) : Type 0 where
  pub sent : Ordered f.stats.first_tx f.stats.last_tx f.last_activity
  pub received : Ordered f.stats.first_rx f.stats.last_rx f.last_activity
  pub recent : Recent start f.stats.last_tx f.stats.last_rx f.last_activity

-- The clock does not run backwards.
abbrev NotBefore : ℕ → Event → Type 0
NotBefore clock (from_tun now p w) = clock ≤ now
NotBefore clock (from_network now src p w) = clock ≤ now
NotBefore clock _ = Unit

send_packet-IsTimed :
    (start now : ℕ) (p : Bytes) (w : Write) (f : Forwarder)
    → f.last_activity ≤ now
    → IsTimed start f
    → IsTimed start (send_packet now p w f).next
unfolding send_packet
send_packet-IsTimed start now p w f late h = ground arith

deliver_packet-IsTimed :
    (start now : ℕ) (src : AddrPort) (p : Bytes) (w : Write) (f : Forwarder)
    → f.last_activity ≤ now
    → IsTimed start f
    → IsTimed start (deliver_packet now src p w f).next
unfolding deliver_packet
deliver_packet-IsTimed start now src p w f late h = ground arith

step-IsTimed :
    (start : ℕ) (e : Event) (f : Forwarder)
    → NotBefore f.last_activity e
    → IsTimed start f
    → IsTimed start (step e f).next
unfolding step
step-IsTimed start (from_tun now p w) f late h = send_packet-IsTimed start now p w f late h
step-IsTimed start (from_network now src p w) f late h =
    let learnt = record f { learned_port = src.port } in
    let same : IsTimed start learnt = record {
      sent = h.sent;
      received = h.received;
      recent = h.recent;
    } in
    ground (
      arith,
      deliver_packet-IsTimed start now src p w f late h,
      deliver_packet-IsTimed start now src p w learnt late same,
    )
step-IsTimed start _ f late h = h

-- The clock when an event has been read.
abbrev time_of : ℕ → Event → ℕ
time_of clock (from_tun now p w) = now
time_of clock (from_network now src p w) = now
time_of clock _ = clock

abbrev pub Clocked : ℕ → List Event → Type 0
Clocked clock [] = Unit
Clocked clock (e ∷ es) = NotBefore clock e × Clocked (time_of clock e) es

step-last_activity :
    (clock : ℕ) (e : Event) (f : Forwarder)
    → f.last_activity ≤ clock
    → NotBefore clock e
    → (NotBefore f.last_activity e) × ((step e f).next.last_activity ≤ time_of clock e)
unfolding step
step-last_activity clock (from_tun now p w) f h late = (omega arith, ground arith)
step-last_activity clock (from_network now src p w) f h late = (omega arith, ground arith)
step-last_activity clock _ f h late = (tt, h)

run_from-IsTimed :
    (start clock : ℕ) (es : List Event) (f : Forwarder)
    → f.last_activity ≤ clock
    → Clocked clock es
    → IsTimed start f
    → IsTimed start (run es f).next
unfolding run
run_from-IsTimed start clock [] f h c t = t
run_from-IsTimed start clock (e ∷ es) f h (late, c) t =
    let (fits, later) = step-last_activity clock e f h late in
    let t' = step-IsTimed start e f fits t in
    elim (Option-cases (step e f).exit) [
      | inl q ↦ rw (q, run) (run_from-IsTimed start (time_of clock e) es (step e f).next later c t')
      | inr (x, q) ↦ rw (q, run) t'
    ]

-- If the clock does not run backwards, then after any run of a new forwarder the idle clock stands
-- at the last packet that was forwarded in either direction, or at the start if none was: packets
-- that are dropped do not hold the call. The first and last times of a direction are both unset,
-- or in order and not after the idle clock.
pub run-IsTimed :
    (cfg : Config) (start : ℕ) (es : List Event)
    → Clocked start es
    → IsTimed start (run es (new cfg start)).next
unfolding new
run-IsTimed cfg start es c =
    run_from-IsTimed start start es (new cfg start) (omega arith) c
      (record { sent = tt; received = tt; recent = refl })
