-- ===== src/Session/Supervise.antt =====
-- `supervise` and `sessionWatchdog` of internal/session/session.go. Each round of the loop is one
-- wake of its `select`; times count from the start of the loop. A duration that is not positive
-- counts as 0, as the code treats it.
pub mod Causes
use ngntun.Base.Int.{ℤ, pos, negsuc, int_leb, to_int64, to_nat}
use ngntun.Base.{
  ◌-◌, ℕ, ◌+◌, ◌*◌, ◌≤◌, ◌<◌, Bool, true, false, ◌&&◌, List, [], ◌∷◌, Option, none, some, ltb, ◌==◌,
  if◌then◌else◌, Bytes,
}

pub data Reason : Type 0 where
  idle_timeout max_duration remote_bye signal media_timeout command_exit error : Reason

pub data SuperviseError : Type 0 where
  forwarder_failed forwarder_stopped session_expired : SuperviseError

-- the fields of `Config` that the loop reads; durations are nanoseconds
pub record Limits : Type 0 where
  pub idle_limit : ℕ
  pub max_hold : ℕ
  pub media_limit : ℕ

pub data Wake : Type 0 where
  interrupted : Wake
  forwarder_ended : (failed : Bool) → Wake
  terminated command_exited max_hold_over : Wake
  media_deadline : (rx_packets : ℕ) → Wake
  refreshed session_timer_over : Wake
  tick : (idle_for : ℕ) → Wake

abbrev pub second : ℕ
second = 1000000000

-- the sum of two int64
abbrev add_int64 : ℤ → ℕ → ℤ
add_int64 (pos n) m = to_int64 (n + m)
add_int64 (negsuc n) m = if ltb n m then pos (m - 1 - n) else negsuc (n - m)

-- `sessionWatchdog`, of a lifetime of nanoseconds: the sum wraps
unfoldable pub session_watchdog : ℤ → ℤ
unfolding to_int64
session_watchdog expires =
    if int_leb expires (pos 0) then pos (3600 * second) else add_int64 expires (30 * second)

-- How long a timer runs: one that is set to a negative duration fires at once.
abbrev pub timer_length : ℤ → ℕ
timer_length = to_nat

-- How a round ends: the loop returns, or goes on.
abbrev pub Verdict : Type 0
Verdict = Option (Reason × Option SuperviseError)

-- the cases of the `select`
unfoldable pub judge : Limits → Wake → Verdict
judge cfg interrupted = some (signal, none)
judge cfg (forwarder_ended failed) =
    some (error, some (if failed then forwarder_failed else forwarder_stopped))
judge cfg terminated = some (remote_bye, none)
judge cfg command_exited = some (command_exit, none)
judge cfg max_hold_over = some (max_duration, none)
judge cfg (media_deadline rx_packets) = if rx_packets == 0 then some (media_timeout, none) else none
judge cfg refreshed = none
judge cfg session_timer_over = some (error, some session_expired)
judge cfg (tick idle_for) =
    if ltb 0 cfg.idle_limit && ltb cfg.idle_limit idle_for then some (idle_timeout, none) else none

-- `sessionTimer.Reset` upon a refresh
unfoldable pub next_deadline : ℤ → ℕ → Wake → ℕ → ℕ
unfolding session_watchdog
next_deadline expires now refreshed deadline = now + timer_length (session_watchdog expires)
next_deadline expires now _ deadline = deadline

-- The loop over the wakes in their order, with their times: when and how it returns.
unfoldable pub supervise : Limits → List (ℕ × Wake) → Option (ℕ × Reason × Option SuperviseError)
supervise cfg [] = none
supervise cfg ((now, w) ∷ ws) =
    let later = supervise cfg ws in
    elim (judge cfg w) [ none ↦ later | some (r, e) ↦ some (now, r, e) ]
