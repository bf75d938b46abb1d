-- ===== src/Sip/Operations/Completion.antt =====
-- What the whole operations of internal/sip leave in the tables, whatever happens while they wait.
use ngntun.Base.{
  ℕ, Bool, true, false, [], none, some, ◌≡◌, inl, inr, refl, Bytes, Result, ok, err, Option-cases,
  Result-cases, ◌≢◌, ◌⊎◌, Bool-cases, bytes_eq, bytes_eq_iff, bytes_eq_refl,
}
use ngntun.Netip.{NetipText}
use ngntun.Sip.Dialog.{Dialog, Reason, begin_bye, end_bye}
use ngntun.Sip.Invite.{finish_invite}
use ngntun.Sip.Message.{Message}
use ngntun.Sip.Outgoing.{Registration, aor, begin_register, invite_request, maybe_prack, number_uri}
use ngntun.Sip.Operations.{
  Waiting, transact, register, invite, invite_answer, bye, bye_answer, current, end_call, prack,
  register_answer, unsent,
}
use ngntun.Sip.Request.{WaitError, begin, key_of}
use ngntun.Sip.Request.Answer.{begin-unsent, close_tx-lookup}
use ngntun.Sip.Response.{Config}
use ngntun.Sip.System.{Reach, began, bye_begun, closed, ended, invited, here, next}
use ngntun.Sip.Ua.{Ua, lookup}

-- While an operation waits, all that happens to the tables are steps of the system.
abbrev pub OnlySteps : NetipText → Config → Bytes → (Ua → Ua) → Type 0
OnlySteps text cfg user f = (u : Ua) → Reach text cfg user u (f u)

pub current-cases :
    (key tag : Bytes) (u : Ua)
    → ((current key tag u ≡ none)
        × ((x : Dialog) → lookup key u.dialogs ≡ some x → x.local_tag ≢ tag))
      ⊎ ((d : Dialog) × (lookup key u.dialogs ≡ some d)
          × (current key tag u ≡ some d)
          × (d.local_tag ≡ tag))
unfolding current
current-cases key tag u = elim (Option-cases (lookup key u.dialogs)) [
  | inl q ↦ inl (rw (q, current) refl, λ x e. cc)
  | inr (d, q) ↦ elim (Bool-cases (bytes_eq d.local_tag tag)) [
    | inl own ↦ inr (d, q, rw (q, own, current) refl, (bytes_eq_iff d.local_tag tag).0 own)
    | inr other ↦
        inl (rw (q, other, current) refl, λ x e same. cc (q, e, same, other, bytes_eq_refl tag))
  ]
]

module _ (text : NetipText) (cfg : Config) (user : Bytes) where
  pub Reach-trans :
      {u v w : Ua} → Reach text cfg user u v → Reach text cfg user v w → Reach text cfg user u w
  Reach-trans r here = r
  Reach-trans r (next s t) = next (Reach-trans r s) t

  module _ {A : Type 0} (wait : Waiting) (unsent : A)
      (after : Result WaitError Message → Ua → A × Ua) where
    pub transact-Reach :
        (sent : Bool) (req : Message)
        → OnlySteps text cfg user (λ v. (wait v).0)
        → ((r : Result WaitError Message) → OnlySteps text cfg user (λ v. (after r v).1))
        → OnlySteps text cfg user (λ v. (transact sent req wait unsent after v).1)
    unfolding transact begin
    transact-Reach false req h k u = next here (began false req u)
    transact-Reach true req h k u =
        let u1 = (begin true req u).1 in
        let (u2, r) = wait u1 in
        let waited = Reach-trans (next here (began true req u)) (h u1) in
        next (Reach-trans waited (k r u2)) (closed (key_of req) (after r u2).1)

    pub transact-unsent :
        (req : Message) (u : Ua) → (transact false req wait unsent after u).0 ≡ unsent
    unfolding transact begin
    transact-unsent req u = refl

    -- No transaction is left.
    pub transact-lookup :
        (sent : Bool) (req : Message) (u : Ua)
        → lookup (key_of req) (transact sent req wait unsent after u).1.txs ≡ none
    unfolding transact begin
    transact-lookup false req u = begin-unsent req u
    transact-lookup true req u =
        let (u2, r) = wait (begin true req u).1 in close_tx-lookup (key_of req) (after r u2).1

  -- `Register` is a run of the system, and leaves no transaction of its request.
  pub register-Reach :
      (expires : ℕ) (branch : Bytes) (sent : Bool) (wait : Waiting) (reg : Registration)
      → OnlySteps text cfg user (λ v. (wait v).0)
      → OnlySteps text cfg user (λ v. (register text cfg user expires branch sent wait reg v).2)
  unfolding register
  register-Reach expires branch sent wait reg h u =
      transact-Reach wait (err unsent) (λ w v. (register_answer expires w, v)) sent
        (begin_register text cfg user reg expires branch).1.msg h (λ r v. here) u

  invite_answer-Reach :
      (acked : Bool) (req : Message) (peer id tag branch : Bytes) (r : Result WaitError Message)
      → OnlySteps text cfg user
          (λ v. (invite_answer text cfg user acked req peer id tag branch r v).1)
  unfolding invite_answer
  invite_answer-Reach acked req peer id tag branch (err e) u = here
  invite_answer-Reach acked req peer id tag branch (ok resp) u =
      let own = aor text cfg user in
      let other = number_uri text cfg user peer in
      let s = finish_invite text cfg user acked req resp id tag own other branch u in
      let step = next here (invited acked req resp id tag own other branch u) in
      elim (Result-cases s.result) [
        | inl (call, q) ↦ rw (q, invite_answer) step
        | inr (e, q) ↦ rw (q, invite_answer) step
      ]

  pub invite-Reach :
      (peer id tag branch branch' sdp : Bytes) (sent acked : Bool) (wait : Waiting)
      → OnlySteps text cfg user (λ v. (wait v).0)
      → OnlySteps text cfg user
          (λ v. (invite text cfg user peer id tag branch branch' sdp sent acked wait v).1)
  unfolding invite
  invite-Reach peer id tag branch branch' sdp sent acked wait h u =
      let req = invite_request text cfg user peer id tag branch sdp in
      transact-Reach wait (err unsent, [])
        (invite_answer text cfg user acked req peer id tag branch') sent req h
        (invite_answer-Reach acked req peer id tag branch') u

  end_call-Reach : (key tag : Bytes) → OnlySteps text cfg user (end_call text cfg user key tag)
  unfolding end_call end_bye
  end_call-Reach key tag u = elim (current-cases key tag u) [
    | inl (q, other) ↦ rw (q, end_call) here
    | inr (d, there, q, own) ↦ rw (q, end_call) (next here (ended key Reason.local_bye d u there))
  ]

  pub bye-Reach :
      (d : Dialog) (branch : Bytes) (sent : Bool) (wait : Waiting) (u : Ua)
      → OnlySteps text cfg user (λ v. (wait v).0)
      → lookup d.call_id u.dialogs ≡ some d
      → Reach text cfg user u (bye text cfg user d branch sent wait u).1
  unfolding bye bye_answer
  bye-Reach d branch sent wait u h q =
      let (d', r) = begin_bye text cfg user d branch in
      let begun = next here (bye_begun d.call_id branch d u q) in
      elim (Result-cases r) [
        | inr (e, q') ↦ rw (q', bye) begun
        | inl (s, q') ↦
            rw (q', bye)
              (Reach-trans begun (
                transact-Reach wait (some unsent) (bye_answer text cfg user d.call_id d.local_tag)
                  sent s.msg h (λ w. end_call-Reach d.call_id d.local_tag) _))
      ]

  -- The PRACK of a provisional response is a run of the system too.
  pub prack-Reach :
      (resp invite : Message) (tag branch : Bytes) (sent : Bool) (wait : Waiting)
      → OnlySteps text cfg user (λ v. (wait v).0)
      → OnlySteps text cfg user (prack text cfg user resp invite tag branch sent wait)
  unfolding prack
  prack-Reach resp inv tag branch sent wait h u =
      elim (Option-cases (maybe_prack text cfg user resp inv tag branch)) [
        | inl q ↦ rw (q, prack) here
        | inr (s, q) ↦
            rw (q, prack) (transact-Reach wait tt (λ r v. (tt, v)) sent s.msg h (λ r v. here) u)
      ]
