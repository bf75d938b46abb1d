-- ===== src/Session/Lifecycle/Balance.antt =====
-- `Run` of internal/session/session.go beside the goroutine of the forwarder, which closes the media
-- socket and the tun device itself once its context is done or one of its loops has returned
-- (`Run` of internal/media/media.go). `Run` does not wait for it.
use ngntun.Base.{
  Bool, true, false, List, [], ◌∷◌, Option, Option-cases, none, some, ◌≡◌, inl, inr, refl, subst,
  some_injective,
}
use ngntun.Session.Lifecycle.Held.{Held, only_if, nothing, perform, perform_all, run-Held}
use ngntun.Session.Lifecycle.{
  Action, delete_tun, create_tun, close_tun, open_agent, close_agent, register, unregister,
  start_refresh, stop_refresh, open_media, close_media, set_up_call, hang_up, apply_net,
  roll_back_net, add_route, roll_back_route, start_forward, cancel_forward, start_command,
  stop_command, wait_command, Plan, World, run,
}

-- a call of `Run`, or what the goroutine of the forwarder does beside it
pub data Event : Type 0 where
  by_run : Action → Event
  conn_closed tun_closed : Event

abbrev pub starts : Action → Bool → Bool
starts start_forward b = true
starts _ b = b

-- The calls of `Run` in their order, and between and behind them, from the start of the forwarder on,
-- the closes of the forwarder at any time.
pub data Interleaved : Bool → List Action → List Event → Type 0 where
  done : {b : Bool} → Interleaved b [] []
  next :
      {b : Bool} {a : Action} {xs : List Action} {es : List Event}
      → Interleaved (starts a b) xs es
      → Interleaved b (a ∷ xs) (by_run a ∷ es)
  conn :
      {xs : List Action} {es : List Event}
      → Interleaved true xs es
      → Interleaved true xs (conn_closed ∷ es)
  tun :
      {xs : List Action} {es : List Event}
      → Interleaved true xs es
      → Interleaved true xs (tun_closed ∷ es)

-- Which of the two files that `Run` and the forwarder share are open. To close one again does nothing.
pub record Files : Type 0 where
  pub tun_open : Bool
  pub media_open : Bool

abbrev open_or_close : Action → Files → Files
open_or_close create_tun f = record f { tun_open = true }
open_or_close close_tun f = record f { tun_open = false }
open_or_close open_media f = record f { media_open = true }
open_or_close close_media f = record f { media_open = false }
open_or_close _ f = f

abbrev pub perform_events : List Event → Held → Files → Option (Held × Files)
perform_events [] h f = some (h, f)
perform_events (by_run a ∷ es) h f = elim (perform a h) [
  | none ↦ none
  | some h' ↦ perform_events es h' (open_or_close a f)
]
perform_events (conn_closed ∷ es) h f = perform_events es h (record f { media_open = false })
perform_events (tun_closed ∷ es) h f = perform_events es h (record f { tun_open = false })

abbrev pub closed : Files
closed = record { tun_open = false; media_open = false }

-- A file that `Run` does not hold is closed.
abbrev Shut : Held → Files → Type 0
Shut h f = (h.tun ≡ false → f.tun_open ≡ false) × (h.media ≡ false → f.media_open ≡ false)

through :
    (b : Bool) (k : Held) (f : Files) {h' : Held} → Shut k f → only_if b k ≡ some h' → Shut h' f
through true k f c q = subst (λ (z : Held). Shut z f) (some_injective q) c
through false k f c q = cc

perform-Shut :
    (a : Action) (h : Held) (f : Files) {h' : Held}
    → Shut h f
    → perform a h ≡ some h'
    → Shut h' (open_or_close a f)
perform-Shut create_tun h f c q = through _ _ (record f { tun_open = true }) (λ e. cc, c.1) q
perform-Shut close_tun h f c q = through _ _ (record f { tun_open = false }) (λ e. refl, c.1) q
perform-Shut open_media h f c q = through _ _ (record f { media_open = true }) (c.0, λ e. cc) q
perform-Shut close_media h f c q = through _ _ (record f { media_open = false }) (c.0, λ e. refl) q
perform-Shut stop_command h f c q = through true _ f c q
perform-Shut delete_tun h f c q = through _ _ f c q
perform-Shut open_agent h f c q = through _ _ f c q
perform-Shut close_agent h f c q = through _ _ f c q
perform-Shut register h f c q = through _ _ f c q
perform-Shut unregister h f c q = through _ _ f c q
perform-Shut start_refresh h f c q = through _ _ f c q
perform-Shut stop_refresh h f c q = through _ _ f c q
perform-Shut set_up_call h f c q = through _ _ f c q
perform-Shut hang_up h f c q = through _ _ f c q
perform-Shut apply_net h f c q = through _ _ f c q
perform-Shut roll_back_net h f c q = through _ _ f c q
perform-Shut add_route h f c q = through _ _ f c q
perform-Shut roll_back_route h f c q = through _ _ f c q
perform-Shut start_forward h f c q = through _ _ f c q
perform-Shut cancel_forward h f c q = through _ _ f c q
perform-Shut start_command h f c q = through _ _ f c q
perform-Shut wait_command h f c q = through _ _ f c q

-- The closes of the forwarder change nothing of what `Run` holds, and leave no file open.
perform_events-Shut :
    {b : Bool} {xs : List Action} {es : List Event} (h : Held) (f : Files) {h' : Held}
    → Interleaved b xs es
    → Shut h f
    → perform_all xs h ≡ some h'
    → (g : Files) × (perform_events es h f ≡ some (h', g)) × Shut h' g
perform_events-Shut h f done c q =
    (f, cc (some_injective q), subst (λ (z : Held). Shut z f) (some_injective q) c)
perform_events-Shut h f (next {a} {xs} {es} i) c q = elim (Option-cases (perform a h)) [
  | inl stuck ↦ cc (rw (stuck, perform_all) at q)
  | inr (k, p) ↦
      rw (p, perform_events)
        (perform_events-Shut k (open_or_close a f) i (perform-Shut a h f c p)
          (rw (p, perform_all) at q))
]
perform_events-Shut h f (conn i) c q =
    perform_events-Shut h (record f { media_open = false }) i (c.0, λ e. refl) q
perform_events-Shut h f (tun i) c q =
    perform_events-Shut h (record f { tun_open = false }) i (λ e. refl, c.1) q

-- Whatever the calls of `Run` return, and whenever from its start on the forwarder closes the media
-- socket and the tun device itself, the calls come in an order in which each has what it needs: a
-- call is only set up by an agent that is registered, over a tun device and a media socket that have
-- been opened; network settings, the media route, the forwarder and the command only start while the
-- call is up; it is hung up only after the forwarder was asked to stop; the settings are undone and
-- the command waited for behind the hang-up; and at the end nothing is set up, both files are closed,
-- no command runs, and a forwarder that was started has been asked to stop.
pub run-Balanced :
    (cfg : Plan) (w : World) {es : List Event}
    → Interleaved false (run cfg w).trace es
    → perform_events es nothing closed ≡ some (nothing, closed)
run-Balanced cfg w i =
    let (g, e, shut) =
      perform_events-Shut nothing closed i (λ e. refl, λ e. refl) (run-Held cfg w) in
    cc (e, shut.0 refl, shut.1 refl)
