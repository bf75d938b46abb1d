-- ===== src/Session/Lifecycle/Held.antt =====
-- What `Run` of internal/session/session.go itself holds, at each of its calls.
use ngntun.Base.{
  Bool, true, false, not, ◌&&◌, List, [], ◌∷◌, ◌++◌, Option, Option-cases, none, some, ◌≡◌, inl,
  inr, refl, if◌then◌else◌, Bytes, Bool-cases, Result-cases,
}
use ngntun.Session.Admission.{PlaceError}
use ngntun.Session.Lifecycle.{
  Action, delete_tun, create_tun, close_tun, open_agent, close_agent, register, unregister,
  start_refresh, stop_refresh, open_media, close_media, set_up_call, hang_up, apply_net,
  roll_back_net, add_route, roll_back_route, start_forward, cancel_forward, start_command,
  stop_command, wait_command, Plan, World, finish, forward, media_route, established, not_up,
  call_up, media, registration, agent_up, tun_up, run,
}

-- What `Run` has opened, set up or started and not yet closed, undone, asked to stop or waited for.
-- `forwarding` is a forwarder that is not asked to stop yet, and `stopping` a command that is.
pub record Held : Type 0 where
  pub tun : Bool
  pub agent : Bool
  pub registered : Bool
  pub refreshing : Bool
  pub media : Bool
  pub call : Bool
  pub net : Bool
  pub route : Bool
  pub forwarding : Bool
  pub command : Bool
  pub stopping : Bool

abbrev pub only_if : Bool → Held → Option Held
only_if b h = if b then some h else none

-- What an action needs and what it changes. A call is set up only by a registered agent with its tun
-- device and its media socket; the network is set up, and the forwarder and the command start, only
-- while a call is up; the call is hung up only after the forwarder was asked to stop; and only after the
-- hang-up are the settings undone, the command waited for, the agent unregistered, and the socket and
-- the device closed by `Run`.
abbrev pub perform : Action → Held → Option Held
perform delete_tun h = only_if (not h.tun) h
perform create_tun h = only_if (not h.tun) (record h { tun = true })
perform close_tun h =
    only_if (h.tun && (not h.agent && (not h.net && (not h.forwarding && not h.command))))
      (record h { tun = false })
perform open_agent h = only_if (h.tun && not h.agent) (record h { agent = true })
perform close_agent h =
    only_if (h.agent && (not h.registered && (not h.refreshing && not h.call)))
      (record h { agent = false })
perform register h = only_if (h.agent && not h.registered) (record h { registered = true })
perform unregister h =
    only_if (h.registered && (not h.refreshing && not h.call)) (record h { registered = false })
perform start_refresh h =
    only_if (h.registered && not h.refreshing) (record h { refreshing = true })
perform stop_refresh h = only_if (h.refreshing && not h.call) (record h { refreshing = false })
perform open_media h = only_if (h.registered && not h.media) (record h { media = true })
perform close_media h =
    only_if (h.media && (not h.call && not h.forwarding)) (record h { media = false })
perform set_up_call h =
    only_if (h.tun && (h.registered && (h.media && not h.call))) (record h { call = true })
perform hang_up h = only_if (h.call && not h.forwarding) (record h { call = false })
perform apply_net h = only_if (h.tun && (h.call && not h.net)) (record h { net = true })
perform roll_back_net h = only_if (h.net && not h.call) (record h { net = false })
perform add_route h = only_if (h.net && (h.call && not h.route)) (record h { route = true })
perform roll_back_route h = only_if (h.route && not h.call) (record h { route = false })
perform start_forward h =
    only_if (h.net && (h.call && not h.forwarding)) (record h { forwarding = true })
perform cancel_forward h = only_if h.forwarding (record h { forwarding = false })
perform start_command h =
    only_if (h.forwarding && (h.call && not h.command)) (record h { command = true })
perform stop_command h = some (record h { stopping = h.command })
perform wait_command h =
    only_if (h.command && (h.stopping && not h.call))
      (record h { command = false; stopping = false })

abbrev pub perform_all : List Action → Held → Option Held
perform_all [] h = some h
perform_all (a ∷ xs) h = elim (perform a h) [ none ↦ none | some h' ↦ perform_all xs h' ]

abbrev pub nothing : Held
nothing = record {
  tun = false;
  agent = false;
  registered = false;
  refreshing = false;
  media = false;
  call = false;
  net = false;
  route = false;
  forwarding = false;
  command = false;
  stopping = false;
}

abbrev with_tun : Held
with_tun = record nothing { tun = true }

abbrev with_agent : Held
with_agent = record with_tun { agent = true }

abbrev with_registration : Held
with_registration = record with_agent { registered = true; refreshing = true }

abbrev with_media : Held
with_media = record with_registration { media = true }

abbrev with_call : Held
with_call = record with_media { call = true }

abbrev with_net : Bool → Held
with_net routed = record with_call { net = true; route = routed }

perform_all-append :
    (xs ys : List Action) (h : Held) {h' h'' : Held}
    → perform_all xs h ≡ some h'
    → perform_all ys h' ≡ some h''
    → perform_all (xs ++ ys) h ≡ some h''
perform_all-append [] ys h e f = cc
perform_all-append (a ∷ xs) ys h e f = elim (Option-cases (perform a h)) [
  | inl q ↦ cc (rw (q, perform_all) at e)
  | inr (k, q) ↦ rw (q, perform_all) (perform_all-append xs ys k (rw (q, perform_all) at e) f)
]

module _ (cfg : Plan) (w : World) where
  forward-Held :
      (peer : Bytes) (routed : Bool)
      → perform_all (forward cfg w peer routed).trace (with_net routed) ≡ some with_media
  unfolding forward finish
  forward-Held peer true = elim (Bool-cases cfg.has_command) [
    | inr q ↦ rw q refl
    | inl q ↦ elim (Bool-cases w.started) [ inl q' ↦ rw (q, q') refl | inr q' ↦ rw (q, q') refl ]
  ]
  forward-Held peer false = elim (Bool-cases cfg.has_command) [
    | inr q ↦ rw q refl
    | inl q ↦ elim (Bool-cases w.started) [ inl q' ↦ rw (q, q') refl | inr q' ↦ rw (q, q') refl ]
  ]

  media_route-Held :
      (peer : Bytes) → perform_all (media_route cfg w peer).trace (with_net false) ≡ some with_media
  unfolding media_route
  media_route-Held peer = elim (Bool-cases cfg.media_route) [
    | inr q ↦ rw q (forward-Held peer false)
    | inl q ↦ elim (Result-cases w.route) [
      | inr (e, q') ↦ rw (q, q') refl
      | inl (routed, q') ↦ elim (Bool-cases routed) [
        | inl q'' ↦ rw (q, q', q'') (forward-Held peer true)
        | inr q'' ↦ rw (q, q', q'') (forward-Held peer false)
      ]
    ]
  ]

  established-Held :
      (peer : Bytes) → perform_all (established cfg w peer).trace with_media ≡ some with_media
  unfolding established
  established-Held peer = elim (Option-cases w.applied) [
    | inl q ↦ rw q (media_route-Held peer)
    | inr (e, q) ↦ rw q refl
  ]

  not_up-Held :
      (hung_up : Bool) (e : PlaceError)
      → perform_all (not_up cfg w hung_up e).trace with_media ≡ some with_media
  unfolding not_up
  not_up-Held true e = refl
  not_up-Held false e = refl

  call_up-Held : perform_all (call_up cfg w).trace with_media ≡ some with_media
  unfolding call_up
  call_up-Held = elim (Bool-cases cfg.answer_mode) [
    | inl q ↦ elim (Result-cases w.waited) [
      | inl (peer, q') ↦ rw (q, q') (established-Held peer)
      | inr (e, q') ↦ rw (q, q') refl
    ]
    | inr q ↦ elim (Option-cases w.placed.1) [
      | inl q' ↦ rw (q, q') (established-Held cfg.peer_number)
      | inr (e, q') ↦ rw (q, q') (not_up-Held w.placed.0 e)
    ]
  ]

  media-Held : perform_all (media cfg w).trace with_registration ≡ some with_registration
  unfolding media
  media-Held = elim (Bool-cases w.dialed) [
    | inr q ↦ rw q refl
    | inl q ↦
        rw q
          (perform_all-append (call_up cfg w).trace (close_media ∷ []) with_media call_up-Held refl)
  ]

  registration-Held : perform_all (registration cfg w).trace with_agent ≡ some with_agent
  unfolding registration
  registration-Held = elim (Option-cases w.registered) [
    | inr (e, q) ↦ rw q refl
    | inl q ↦ elim (Bool-cases cfg.register_only) [
      | inl q' ↦ rw (q, q') refl
      | inr q' ↦
          let inner = (media cfg w).trace ++ stop_refresh ∷ [] in
          let stopped =
            perform_all-append (media cfg w).trace (stop_refresh ∷ []) with_registration media-Held
              refl in
          rw (q, q')
            (perform_all-append (start_refresh ∷ inner) (unregister ∷ [])
              (record with_agent { registered = true }) stopped refl)
    ]
  ]

  agent_up-Held : perform_all (agent_up cfg w).trace with_tun ≡ some with_tun
  unfolding agent_up
  agent_up-Held = elim (Bool-cases w.agent) [
    | inr q ↦ rw q refl
    | inl q ↦ rw q (
        perform_all-append (registration cfg w).trace (close_agent ∷ []) with_agent
          registration-Held refl)
  ]

  tun_up-Held : perform_all (tun_up cfg w).trace nothing ≡ some nothing
  unfolding tun_up
  tun_up-Held = elim (Bool-cases w.created) [
    | inr q ↦ rw q refl
    | inl q ↦
        rw q
          (perform_all-append (agent_up cfg w).trace (close_tun ∷ []) with_tun agent_up-Held refl)
  ]

  -- Every call of `Run` has what it needs, and at the end nothing is held.
  pub run-Held : perform_all (run cfg w).trace nothing ≡ some nothing
  unfolding run
  run-Held = elim (Bool-cases w.exists) [
    | inr q ↦ rw q tun_up-Held
    | inl q ↦ elim (Bool-cases cfg.force) [
      | inr q' ↦ rw (q, q') refl
      | inl q' ↦ elim (Bool-cases w.deleted) [
        | inr q'' ↦ rw (q, q', q'') refl
        | inl q'' ↦ rw (q, q', q'') tun_up-Held
      ]
    ]
  ]
