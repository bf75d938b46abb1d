-- ===== src/Sip/Operations.antt =====
-- The requests of the user agent as whole operations, from the begin of their transaction to its
-- close: `Register`, `Unregister` and `Invite` of internal/sip/ua.go and `Bye` of
-- internal/sip/dialog.go, with `hangup` and `refreshRegistration` of
-- internal/session/session.go. What happens to the tables an operation waits, and what the wait returns, is an argument.
pub mod Calls
pub mod Completion
pub mod Refreshing
use ngntun.Base.Int.{ℤ}
use ngntun.Base.{
  ℕ, Bool, true, false, List, [], ◌∷◌, Option, none, some, Bytes, bytes_eq, if◌then◌else◌, Result,
  ok, err,
}
use ngntun.Netip.{NetipText}
use ngntun.Sip.Dialog.{Dialog, begin_bye, end_bye}
use ngntun.Sip.Failure.{Failure}
use ngntun.Sip.Invite.{CallError, finish_invite}
use ngntun.Sip.Message.{Message}
use ngntun.Sip.Outgoing.{
  Registration, aor, begin_register, invite_request, maybe_prack, new_branch, number_uri,
  register_result,
}
use ngntun.Sip.Param.{UriError}
use ngntun.Sip.Request.{WaitError, begin, close_tx}
use ngntun.Sip.Response.{Config, Sent}
use ngntun.Sip.Ua.{Ua, lookup, update_dialog}

-- What `wait` returns, and the tables behind it: other goroutines go on meanwhile.
abbrev pub Waiting : Type 0
Waiting = Ua → Ua × Result WaitError Message

-- `begin`, `wait` and what follows it, and the deferred `close`: `unsent` is returned if `begin`
-- fails.
unfoldable pub transact :
    {A : Type 0}
    → Bool
    → Message
    → Waiting
    → A
    → (Result WaitError Message → Ua → A × Ua)
    → Ua
    → A × Ua
unfolding begin close_tx
transact sent req wait unsent after u =
    let (begun, u1) = begin sent req u in
    elim begun [
      | none ↦ (unsent, u1)
      | some key ↦ let (u2, r) = wait u1 in let (a, u3) = after r u2 in (a, close_tx key u3)
    ]

-- Why a request has no result: its address, its send, its wait, or its answer of type `F`.
pub data RequestError (F : Type 0) : Type 0 where
  no_address : UriError → RequestError F
  unsent : RequestError F
  no_answer : WaitError → RequestError F
  refused : F → RequestError F

unfoldable pub register_answer : ℕ → Result WaitError Message → Result (RequestError Failure) ℤ
unfolding register_result
register_answer expires (err e) = err (no_answer e)
register_answer expires (ok resp) = elim (register_result expires resp) [
  | ok lifetime ↦ ok lifetime
  | err f ↦ err (refused f)
]

-- what wakes the loop of `refreshRegistration`
pub data Wake : Type 0 where
  tick : (branch : Bytes) (sent : Bool) → Waiting → Wake
  done : Wake

-- The dialog that a pointer stands for, as long as it has not ended: the one that the table has under
-- its Call-ID, if it has its own tag too, which is a new token for each dialog.
unfoldable pub current : Bytes → Bytes → Ua → Option Dialog
unfolding lookup bytes_eq
current key tag u = elim (lookup key u.dialogs) [
  | none ↦ none
  | some d ↦ if bytes_eq d.local_tag tag then some d else none
]

module _ (text : NetipText) (cfg : Config) (contact_user : Bytes) where
  -- `register`
  unfoldable pub register :
      ℕ
      → Bytes
      → Bool
      → Waiting
      → Registration
      → Ua
      → Result (RequestError Failure) ℤ × Registration × Ua
  unfolding begin_register transact register_answer
  register expires branch sent wait reg u =
      let (reg', s) = begin_register text cfg contact_user reg expires branch in
      let (r, u') =
        transact sent s.msg wait (err unsent) (λ w v. (register_answer expires w, v)) u in
      (r, reg', u')

  -- `Invite` behind the wait: the result, and what has been sent
  unfoldable pub invite_answer :
      Bool
      → Message
      → Bytes
      → Bytes
      → Bytes
      → Bytes
      → Result WaitError Message
      → Ua
      → (Result (RequestError CallError) (Dialog × Message) × List Sent) × Ua
  unfolding finish_invite
  invite_answer acked req peer call_id local_tag branch (err e) u = ((err (no_answer e), []), u)
  invite_answer acked req peer call_id local_tag branch (ok resp) u =
      let s =
        finish_invite text cfg contact_user acked req resp call_id local_tag
          (aor text cfg contact_user) (number_uri text cfg contact_user peer) branch u in
      elim s.result [
        | ok call ↦ ((ok call, s.out), s.ua)
        | err e ↦ ((err (refused e), s.out), s.ua)
      ]

  -- `Invite`: `acked` tells whether the ACK can be sent, `branch'` is its branch
  unfoldable pub invite :
      Bytes
      → Bytes
      → Bytes
      → Bytes
      → Bytes
      → Bytes
      → Bool
      → Bool
      → Waiting
      → Ua
      → (Result (RequestError CallError) (Dialog × Message) × List Sent) × Ua
  unfolding invite_request transact invite_answer
  invite peer call_id local_tag branch branch' sdp sent acked wait u =
      let req = invite_request text cfg contact_user peer call_id local_tag branch sdp in
      transact sent req wait (err unsent, [])
        (invite_answer acked req peer call_id local_tag branch') u

  -- `terminate` behind a wait: a dialog that has ended meanwhile stays as it is, and so does another
  -- one that has taken its place in the table
  unfoldable pub end_call : Bytes → Bytes → Ua → Ua
  unfolding current update_dialog end_bye
  end_call key tag u = elim (current key tag u) [
    | none ↦ u
    | some d ↦ update_dialog (end_bye text cfg contact_user d) u
  ]

  -- `Bye`; an answer that is no success is only logged
  unfoldable pub bye_answer :
      Bytes → Bytes → Result WaitError Message → Ua → Option (RequestError Unit) × Ua
  unfolding end_call
  bye_answer key tag r u =
      (elim r [ ok resp ↦ none | err e ↦ some (no_answer e) ], end_call key tag u)

  unfoldable pub bye : Dialog → Bytes → Bool → Waiting → Ua → Option (RequestError Unit) × Ua
  unfolding begin_bye update_dialog transact bye_answer
  bye d branch sent wait u =
      let (d', r) = begin_bye text cfg contact_user d branch in
      let u' = update_dialog d' u in
      elim r [
        | err e ↦ (some (no_address e), u')
        | ok s ↦ transact sent s.msg wait (some unsent) (bye_answer d.call_id d.local_tag) u'
      ]

  -- `hangup` of the dialog with this Call-ID and own tag: nothing if it has ended
  unfoldable pub hangup : Bytes → Bytes → Bytes → Bool → Waiting → Ua → Ua
  unfolding current bye
  hangup key tag branch sent wait u = elim (current key tag u) [
    | none ↦ u
    | some d ↦ (bye d branch sent wait u).1
  ]

  -- `Register` and `Unregister`
  abbrev pub register_for :
      Bytes
      → Bool
      → Waiting
      → Registration
      → Ua
      → Result (RequestError Failure) ℤ × Registration × Ua
  register_for = register cfg.register_expires

  abbrev pub unregister :
      Bytes
      → Bool
      → Waiting
      → Registration
      → Ua
      → Result (RequestError Failure) ℤ × Registration × Ua
  unregister = register 0

  -- `refreshRegistration`: the ticks with what becomes of their requests, until `done`; with no
  -- further wake the loop waits. A failure is only logged.
  unfoldable pub refresh_registration : List Wake → Registration → Ua → Bool × Registration × Ua
  unfolding register
  refresh_registration [] reg u = (false, reg, u)
  refresh_registration (done ∷ ws) reg u = (true, reg, u)
  refresh_registration (tick branch sent wait ∷ ws) reg u =
      let (r, reg', u') = register_for branch sent wait reg u in refresh_registration ws reg' u'

  -- `maybePrack` behind the send, and the goroutine that waits: errors are only logged
  unfoldable pub prack : Message → Message → Bytes → Bytes → Bool → Waiting → Ua → Ua
  unfolding maybe_prack transact
  prack resp invite local_tag branch sent wait u =
      elim (maybe_prack text cfg contact_user resp invite local_tag branch) [
        | none ↦ u
        | some s ↦ (transact sent s.msg wait tt (λ r v. (tt, v)) u).1
      ]
