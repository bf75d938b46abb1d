-- ===== src/Session/Supervise/Causes.antt =====
-- Why the loop of internal/session/session.go returns, and that it does.
use ngntun.Base.Int.{ℤ, pos, negsuc, to_int64}
use ngntun.Base.{
  ℕ, zero, suc, ◌+◌, ◌*◌, ◌^◌, ◌≤◌, ◌<◌, Bool, true, false, ◌&&◌, List, [], ◌∷◌, ◌++◌, Option, none,
  some, Option-cases, ltb, ◌≡◌, ◌≢◌, ◌⊎◌, inl, inr, refl, ap, arith, Bool-cases, All, subst,
  some_injective,
}
use ngntun.Session.Supervise.{
  Limits, Wake, Reason, SuperviseError, Verdict, interrupted, forwarder_ended, terminated,
  command_exited, max_hold_over, media_deadline, refreshed, session_timer_over, tick,
  session_watchdog, timer_length, judge, next_deadline, supervise, forwarder_failed,
  forwarder_stopped, session_expired, second,
}

-- When a wake can come: a timer fires at its time and not before it, and one that is not set never;
-- the command can end only where one runs.
abbrev pub Possible : Limits → Bool → ℕ → ℕ → Wake → Type 0
Possible cfg runs deadline now max_hold_over = (0 < cfg.max_hold) × (cfg.max_hold ≤ now)
Possible cfg runs deadline now (media_deadline n) = (0 < cfg.media_limit) × (cfg.media_limit ≤ now)
Possible cfg runs deadline now session_timer_over = deadline ≤ now
Possible cfg runs deadline now command_exited = runs ≡ true
Possible cfg runs deadline now _ = Unit

-- Wakes in the order of their times, each of them possible.
abbrev pub Feasible : Limits → Bool → ℤ → ℕ → ℕ → List (ℕ × Wake) → Type 0
Feasible cfg runs expires deadline start [] = Unit
Feasible cfg runs expires deadline start ((now, w) ∷ ws) =
    (start ≤ now)
    × Possible cfg runs deadline now w
    × Feasible cfg runs expires (next_deadline expires now w deadline) now ws

-- the time of the last refresh, or the start
abbrev pub refresh_time : ℕ → ℕ → Wake → ℕ
refresh_time since now refreshed = now
refresh_time since now _ = since

abbrev pub last_refresh : ℕ → List (ℕ × Wake) → ℕ
last_refresh since [] = since
last_refresh since ((now, w) ∷ ws) = last_refresh (refresh_time since now w) ws

-- That no refresh came for so long: an hour if there is no lifetime, and 30 seconds beyond the lifetime
-- if that is an int64 of nanoseconds. If it is not, the sum wraps, and nothing is said.
abbrev pub Expired : ℤ → ℕ → ℕ → Type 0
Expired (negsuc n) since now = since + 3600 * second ≤ now
Expired (pos n) since now =
    ((n ≡ 0) × (since + 3600 * second ≤ now))
    ⊎ (((0 < n) × (n + 30 * second < 2 ^ 63) × (since + (n + 30 * second) ≤ now))
        ⊎ (2 ^ 63 ≤ n + 30 * second))

session_watchdog-Expired :
    (expires : ℤ) (since now : ℕ)
    → since + timer_length (session_watchdog expires) ≤ now
    → Expired expires since now
unfolding session_watchdog to_int64
session_watchdog-Expired (negsuc n) since now h = h
session_watchdog-Expired (pos n) since now h = ground arith

-- What has happened at the time `now`, by the reason that is given.
abbrev pub Justified : Limits → Bool → ℤ → ℕ → ℕ → Wake → Reason → Option SuperviseError → Type 0
Justified cfg runs expires since now w Reason.idle_timeout e =
    (e ≡ none) × ((n : ℕ) × (w ≡ tick n) × (0 < cfg.idle_limit) × (cfg.idle_limit < n))
Justified cfg runs expires since now w Reason.max_duration e =
    (e ≡ none) × (w ≡ max_hold_over) × (0 < cfg.max_hold) × (cfg.max_hold ≤ now)
Justified cfg runs expires since now w Reason.remote_bye e = (e ≡ none) × (w ≡ terminated)
Justified cfg runs expires since now w Reason.signal e = (e ≡ none) × (w ≡ interrupted)
Justified cfg runs expires since now w Reason.media_timeout e =
    (e ≡ none) × (w ≡ media_deadline 0) × (0 < cfg.media_limit) × (cfg.media_limit ≤ now)
Justified cfg runs expires since now w Reason.command_exit e =
    (e ≡ none) × (w ≡ command_exited) × (runs ≡ true)
Justified cfg runs expires since now w Reason.error e =
    ((w ≡ forwarder_ended true) × (e ≡ some forwarder_failed))
    ⊎ (((w ≡ forwarder_ended false) × (e ≡ some forwarder_stopped))
        ⊎ ((w ≡ session_timer_over) × (e ≡ some session_expired) × Expired expires since now))

none-some {ℓ} : {A : Type ℓ} {x : A} → none ≡ some x → ⊥
none-some e = cc

module _ (cfg : Limits) (runs : Bool) (expires : ℤ) where
  -- from the reason that a case gives to the one that is returned
  transport :
      (since now : ℕ) (w : Wake) (r₀ : Reason) (e₀ : Option SuperviseError) {r : Reason}
      {e : Option SuperviseError}
      → Justified cfg runs expires since now w r₀ e₀
      → ◌≡◌ {A = Verdict} (some (r₀, e₀)) (some (r, e))
      → Justified cfg runs expires since now w r e
  transport since now w r₀ e₀ j q =
      subst (λ (v : Reason × Option SuperviseError). Justified cfg runs expires since now w v.0 v.1)
        (some_injective q) j

  judge-Justified :
      (since now : ℕ) (w : Wake) {r : Reason} {e : Option SuperviseError}
      → Possible cfg runs (since + timer_length (session_watchdog expires)) now w
      → judge cfg w ≡ some (r, e)
      → Justified cfg runs expires since now w r e
  unfolding judge
  judge-Justified since now interrupted p q =
      transport since now interrupted Reason.signal none (refl, refl) q
  judge-Justified since now (forwarder_ended true) p q =
      transport since now (forwarder_ended true) Reason.error (some forwarder_failed)
        (inl (refl, refl)) q
  judge-Justified since now (forwarder_ended false) p q =
      transport since now (forwarder_ended false) Reason.error (some forwarder_stopped)
        (inr (inl (refl, refl))) q
  judge-Justified since now terminated p q =
      transport since now terminated Reason.remote_bye none (refl, refl) q
  judge-Justified since now command_exited p q =
      transport since now command_exited Reason.command_exit none (refl, refl, p) q
  judge-Justified since now max_hold_over (p, p') q =
      transport since now max_hold_over Reason.max_duration none (refl, refl, p, p') q
  judge-Justified since now (media_deadline zero) (p, p') q =
      transport since now (media_deadline 0) Reason.media_timeout none (refl, refl, p, p') q
  judge-Justified since now (media_deadline (suc n)) p q = ground arith
  judge-Justified since now refreshed p q = absurd (none-some q)
  judge-Justified since now session_timer_over p q =
      transport since now session_timer_over Reason.error (some session_expired)
        (inr (inr (refl, refl, session_watchdog-Expired expires since now p))) q
  judge-Justified since now (tick n) p q =
      elim (Bool-cases (ltb 0 cfg.idle_limit && ltb cfg.idle_limit n)) [
        | inl over ↦
            transport since now (tick n) Reason.idle_timeout none
              (refl, (n, refl, ground arith, ground arith)) (rw over at q)
        | inr still ↦ absurd (none-some (rw still at q))
      ]

  -- How the loop came to return: the wakes before the last one did not end it, and the last one did.
  pub record Ended (since : ℕ) (ws : List (ℕ × Wake)) (now : ℕ) (r : Reason)
      (e : Option SuperviseError) : Type 0 where
    pub before : List (ℕ × Wake)
    pub last : Wake
    pub after : List (ℕ × Wake)
    pub split : ws ≡ before ++ (now, last) ∷ after
    pub quiet : All (λ (x : ℕ × Wake). judge cfg x.1 ≡ none) before
    pub cause : Justified cfg runs expires (last_refresh since before) now last r e

  deadline-refresh :
      (since now : ℕ) (w : Wake)
      → next_deadline expires now w (since + timer_length (session_watchdog expires))
        ≡ refresh_time since now w + timer_length (session_watchdog expires)
  unfolding next_deadline
  deadline-refresh since now refreshed = refl
  deadline-refresh since now _ = refl

  -- Whenever the loop returns upon wakes that are possible, the reason that it gives has happened at
  -- that time, and no earlier wake was one to end it: the idle clock was over its limit, the hold or
  -- the media timer was set and over with no packet received, the dialog had ended, a signal had come,
  -- the command had ended, the forwarder had, or no refresh had come for an hour where the session has
  -- no lifetime, and for 30 seconds beyond its lifetime where it has one; where that sum is no int64
  -- of nanoseconds the watchdog may fire at any time.
  pub supervise-Ended :
      (since start : ℕ) (ws : List (ℕ × Wake)) {now : ℕ} {r : Reason} {e : Option SuperviseError}
      → Feasible cfg runs expires (since + timer_length (session_watchdog expires)) start ws
      → supervise cfg ws ≡ some (now, r, e)
      → Ended since ws now r e
  unfolding supervise
  supervise-Ended since start [] f h = cc
  supervise-Ended since start ((t, w) ∷ ws) {now} {r} {e} (le, p, f) h =
      elim (Option-cases (judge cfg w)) [
        | inl calm ↦
            let later =
              supervise-Ended (refresh_time since t w) t ws
                (subst (λ (d : ℕ). Feasible cfg runs expires d t ws) (deadline-refresh since t w) f)
                (rw (calm, supervise) at h) in
            record {
              before = (t, w) ∷ later.before;
              last = later.last;
              after = later.after;
              split = ap (◌∷◌ (t, w)) later.split;
              quiet = (calm, later.quiet);
              cause = later.cause;
            }
        | inr (v, q) ↦
            subst
              (λ (x : ℕ × Reason × Option SuperviseError). Ended since ((t, w) ∷ ws) x.0 x.1 x.2)
              (some_injective (rw (q, supervise) at h))
              (record {
                before = [];
                last = w;
                after = ws;
                split = refl;
                quiet = tt;
                cause = judge-Justified since t w p q;
              })
      ]

  Feasible-le :
      (deadline start : ℕ) (before : List (ℕ × Wake)) (now : ℕ) (w : Wake) (after : List (ℕ × Wake))
      → Feasible cfg runs expires deadline start (before ++ (now, w) ∷ after)
      → start ≤ now
  Feasible-le deadline start [] now w after f = f.0
  Feasible-le deadline start ((t, x) ∷ before) now w after (le, p, f) =
      omega (arith, Feasible-le (next_deadline expires t x deadline) t before now w after f)

  -- the wakes that the loop does not survive
  abbrev pub Ends : Wake → Type 0
  Ends (media_deadline n) = n ≡ 0
  Ends refreshed = ⊥
  Ends (tick n) = (0 < cfg.idle_limit) × (cfg.idle_limit < n)
  Ends _ = Unit

  judge-Ends : (w : Wake) → Ends w → judge cfg w ≢ none
  unfolding judge
  judge-Ends interrupted h q = cc
  judge-Ends (forwarder_ended failed) h q = cc
  judge-Ends terminated h q = cc
  judge-Ends command_exited h q = cc
  judge-Ends max_hold_over h q = cc
  judge-Ends (media_deadline n) h q = ground arith
  judge-Ends refreshed h q = absurd h
  judge-Ends session_timer_over h q = cc
  judge-Ends (tick n) h q = ground arith

  -- The loop returns at the latest with the first of these wakes: a signal, the end of the forwarder,
  -- the dialog or the command, a timer that is over (the media timer if nothing was received), and a
  -- tick at which the idle clock is over its limit.
  pub supervise_prompt :
      (deadline start : ℕ) (before : List (ℕ × Wake)) (now : ℕ) (w : Wake) (after : List (ℕ × Wake))
      → Feasible cfg runs expires deadline start (before ++ (now, w) ∷ after)
      → Ends w
      → (t : ℕ) × (v : Reason × Option SuperviseError) × (supervise cfg (before ++ (now, w) ∷ after)
          ≡ some (t, v.0, v.1))
        × (start ≤ t)
        × (t ≤ now)
  unfolding supervise
  supervise_prompt deadline start [] now w after (le, p, f) h = elim (Option-cases (judge cfg w)) [
    | inl q ↦ absurd (judge-Ends w h q)
    | inr (v, q) ↦ (now, v, rw (q, supervise) refl, le, omega arith)
  ]
  supervise_prompt deadline start ((t, x) ∷ before) now w after (le, p, f) h =
      elim (Option-cases (judge cfg x)) [
        | inl calm ↦
            let (u, v, found, early, late) =
              supervise_prompt (next_deadline expires t x deadline) t before now w after f h in
            (u, v, rw (calm, supervise) found, omega arith, late)
        | inr (v, q) ↦ (
          t,
          v,
          rw (q, supervise) refl,
          le,
          Feasible-le (next_deadline expires t x deadline) t before now w after f,
        )
      ]
