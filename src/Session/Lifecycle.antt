-- ===== src/Session/Lifecycle.antt =====
-- `Run` of internal/session/session.go as the order of its calls: what it opens, sets up, undoes and
-- waits for, in every case of what those calls return. A deferred call stands at the end of the
-- function that defers it. A call that `Invite` or `Accept` returns as an error counts as not set up.
pub mod Balance
pub mod Held
use ngntun.Base.Int.{ℤ, pos}
use ngntun.Base.{
  Bool, true, false, not, List, [], ◌∷◌, ◌++◌, Option, none, some, if◌then◌else◌, Bytes, Result, ok,
  err,
}
use ngntun.Netcfg.{NetError}
use ngntun.Session.Admission.{PlaceError, WaitError}
use ngntun.Session.Command.{CommandResult}
use ngntun.Session.Supervise.{Reason, SuperviseError, signal, error}
use ngntun.Sip.Failure.{Failure}

-- The calls of `Run` that open or close something, or wait. `cancel_forward` is `stopFwd`, which only
-- asks the forwarder to stop, and `stop_command` likewise; what the goroutine of the forwarder does
-- on its own is in Balance.
pub data Action : Type 0 where
  delete_tun create_tun close_tun : Action
  open_agent close_agent : Action
  register unregister start_refresh stop_refresh : Action
  open_media close_media : Action
  set_up_call hang_up : Action
  apply_net roll_back_net add_route roll_back_route : Action
  start_forward cancel_forward : Action
  start_command stop_command wait_command : Action

-- Why `Run` fails.
pub data RunError : Type 0 where
  tun_exists tun_not_deleted tun_not_created no_agent no_media no_command : RunError
  not_registered : Failure → RunError
  not_placed : PlaceError → RunError
  not_waited : WaitError → RunError
  not_applied no_route : NetError → RunError
  not_supervised : SuperviseError → RunError

-- `Result`, without its counters
pub record SessionResult : Type 0 where
  pub reason : Reason
  pub peer_number : Bytes
  pub command_run : Bool
  pub command_exit_code : ℤ

-- the fields of `Config` that `Run` branches on
pub record Plan : Type 0 where
  pub force : Bool
  pub register_only : Bool
  pub answer_mode : Bool
  pub peer_number : Bytes
  pub media_route : Bool
  pub has_command : Bool

-- What the calls of `Run` return. `placed` is the answer of `placeCall`, which may have hung up, and
-- `waited` that of `waitForCall`; `route` is what `EnsureHostRoute` returns, `none` for nothing to undo.
pub record World : Type 0 where
  pub exists : Bool
  pub deleted : Bool
  pub created : Bool
  pub agent : Bool
  pub registered : Option Failure
  pub dialed : Bool
  pub placed : Bool × Option PlaceError
  pub waited : Result WaitError Bytes
  pub applied : Option NetError
  pub route : Result NetError Bool
  pub started : Bool
  pub ends : Reason × Option SuperviseError
  pub command_result : CommandResult

-- What `Run` has done, and what it returns.
pub record Session : Type 0 where
  pub trace : List Action
  pub result : Option SessionResult
  pub failure : Option RunError

abbrev fail : RunError → Session
fail e = record { trace = []; result = none; failure = some e }

-- a call, and what comes after it
abbrev and_then : Action → Session → Session
and_then a s = record s { trace = a ∷ s.trace }

-- a deferred call
abbrev deferred : Action → Session → Session
deferred a s = record s { trace = s.trace ++ a ∷ [] }

module _ (cfg : Plan) (w : World) where
  -- the nil `mediaRoute` has nothing to roll back
  route_undo : Bool → List Action → List Action
  route_undo true rest = roll_back_route ∷ rest
  route_undo false rest = rest

  -- `finish`; `routed` says that there is a media route to undo, `runs` that there is a runner
  unfoldable pub finish : Bytes → Bool → Bool → Reason → Option RunError → Session
  unfolding route_undo
  finish peer routed runs reason e =
      let undo =
        hang_up ∷ roll_back_net ∷ route_undo routed (if runs then wait_command ∷ [] else []) in
      record {
        trace = stop_command ∷ cancel_forward ∷ undo;
        result = some (record {
          reason = reason;
          peer_number = peer;
          command_run = runs;
          command_exit_code = if runs then w.command_result.exit_code else pos 0;
        });
        failure = e;
      }

  run_error : Option SuperviseError → Option RunError
  run_error none = none
  run_error (some e) = some (not_supervised e)

  -- from the forwarder on
  unfoldable pub forward : Bytes → Bool → Session
  unfolding finish run_error
  forward peer routed =
      let (reason, e) = w.ends in
      let supervised = finish peer routed cfg.has_command reason (run_error e) in
      and_then start_forward (
        deferred stop_command (
          if not cfg.has_command
          then supervised
          else if not w.started
          then finish peer routed false error (some no_command)
          else and_then start_command supervised))

  -- the route to the media
  unfoldable pub media_route : Bytes → Session
  unfolding forward
  media_route peer = if not cfg.media_route then forward peer false else elim w.route [
    | err e ↦ and_then hang_up (and_then roll_back_net (fail (no_route e)))
    | ok true ↦ and_then add_route (forward peer true)
    | ok false ↦ forward peer false
  ]

  -- the call is up: the settings of the network
  unfoldable pub established : Bytes → Session
  unfolding media_route
  established peer = and_then set_up_call (elim w.applied [
    | some e ↦ and_then hang_up (fail (not_applied e))
    | none ↦ and_then apply_net (media_route peer)
  ])

  -- a call that is not placed, which is hung up if it was up already
  unfoldable pub not_up : Bool → PlaceError → Session
  not_up true e = and_then set_up_call (and_then hang_up (fail (not_placed e)))
  not_up false e = fail (not_placed e)

  -- `waitForCall` or `placeCall`
  unfoldable pub call_up : Session
  unfolding established not_up
  call_up =
      if cfg.answer_mode
      then elim w.waited [ err e ↦ fail (not_waited e) | ok peer ↦ established peer ]
      else let (hung_up, e) = w.placed in
        elim e [ some e ↦ not_up hung_up e | none ↦ established cfg.peer_number ]

  -- the media socket
  unfoldable pub media : Session
  unfolding call_up
  media = if not w.dialed then fail no_media else and_then open_media (deferred close_media call_up)

  -- the registration
  unfoldable pub registration : Session
  unfolding media
  registration = elim w.registered [
    | some e ↦ fail (not_registered e)
    | none ↦ and_then register (
        deferred unregister (
          and_then start_refresh (
            deferred stop_refresh (
              if cfg.register_only
              then record {
                trace = [];
                result = some (record {
                  reason = signal;
                  peer_number = [];
                  command_run = false;
                  command_exit_code = pos 0;
                });
                failure = none;
              }
              else media))))
  ]

  -- the user agent, once the tun device is there
  unfoldable pub agent_up : Session
  unfolding registration
  agent_up =
      if not w.agent then fail no_agent else and_then open_agent (deferred close_agent registration)

  -- the tun device
  unfoldable pub tun_up : Session
  unfolding agent_up
  tun_up =
      if not w.created
      then fail tun_not_created
      else and_then create_tun (deferred close_tun agent_up)

  -- `Run`
  unfoldable pub run : Session
  unfolding tun_up
  run =
      if not w.exists
      then tun_up
      else if not cfg.force
      then fail tun_exists
      else if not w.deleted
      then fail tun_not_deleted
      else and_then delete_tun tun_up
