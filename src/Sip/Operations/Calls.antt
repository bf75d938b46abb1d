-- ===== src/Sip/Operations/Calls.antt =====
-- A call of internal/sip from its INVITE, or to its BYE.
use ngntun.Base.{
  Bool, true, false, List, [], none, some, ◌≡◌, ◌≢◌, inl, inr, sym, ap, ◌∙◌, Bytes, Result, ok, err,
  Result-cases, ok_injective, subst,
}
use ngntun.Netip.{NetipText}
use ngntun.Sip.Dialog.{Dialog, begin_bye}
use ngntun.Sip.Invite.{finish_invite}
use ngntun.Sip.Message.{Message}
use ngntun.Sip.Outgoing.{aor, invite_request, number_uri}
use ngntun.Sip.Operations.{Waiting, transact, invite, invite_answer, bye, RequestError, unsent}
use ngntun.Sip.Request.{WaitError, begin, close_tx, key_of}
use ngntun.Sip.Response.{Config, Sent}
use ngntun.Sip.System.{Reach}
use ngntun.Sip.Ua.{Ua, lookup, update_dialog}
use ngntun.Sip.Operations.Completion.{OnlySteps, transact-lookup, invite-Reach}
use ngntun.Sip.Invite.Outcome.{
  Answers, Outcome, acknowledged, declined, malformed, stranded, finish_invite-Outcome,
}
use ngntun.Sip.Invite.{Setup, CallError}
use ngntun.Sip.Message.{is_success}

module _ (text : NetipText) (cfg : Config) (user : Bytes) where
  -- The dialog with this Call-ID and own tag is not in the table.
  abbrev pub IsGone : Bytes → Bytes → Ua → Type 0
  IsGone key tag u = (x : Dialog) → lookup key u.dialogs ≡ some x → x.local_tag ≢ tag

  -- the user agent behind the wait of a BYE that is sent
  abbrev pub behind_wait : Dialog → Bytes → Waiting → Sent → Ua → Ua
  behind_wait d branch wait s u =
      (wait (begin true s.msg (update_dialog (begin_bye text cfg user d branch).0 u)).1).0

  -- What a BYE leaves.
  pub record Ends (d : Dialog) (branch : Bytes) (sent : Bool) (wait : Waiting) (s : Sent) (u : Ua)
      : Type 0 where
    pub run : Reach text cfg user u (bye text cfg user d branch sent wait u).1
    pub no_tx : lookup (key_of s.msg) (bye text cfg user d branch sent wait u).1.txs ≡ none
    pub no_call :
        sent ≡ true → IsGone d.call_id d.local_tag (bye text cfg user d branch sent wait u).1
    pub spared :
        sent ≡ true
        → (x : Dialog) → lookup d.call_id (behind_wait d branch wait s u).dialogs ≡ some x
        → x.local_tag ≢ d.local_tag
        → lookup d.call_id (bye text cfg user d branch sent wait u).1.dialogs ≡ some x
    pub unsent_is : sent ≡ false → (bye text cfg user d branch sent wait u).0 ≡ some unsent

  -- What a call that `Invite` returns is.
  pub record Connects (req : Message) (id tag : Bytes) (d : Dialog) (m : Message) (u : Ua)
      : Type 0 where
    pub success : is_success m ≡ true
    pub answers : Answers req m id tag d
    pub there : lookup id u.dialogs ≡ some d

  Outcome-Connects :
      (sent : Bool) (req resp : Message) (id tag : Bytes) (u : Ua) (s : Setup) {d : Dialog}
      {m : Message}
      → Outcome text cfg user sent req resp id tag u s
      → s.result ≡ ok (d, m)
      → Connects req id tag d m s.ua
  Outcome-Connects sent req resp id tag u s (declined failed e same m out acks) q = cc
  Outcome-Connects sent req resp id tag u s (malformed good why e r same out) q = cc
  Outcome-Connects sent req resp id tag u s (stranded good d' a there r out) q = cc
  Outcome-Connects true req resp id tag u s {d} {m}
        (acknowledged good d' a there m' dst routed k out r) q =
      let same = ok_injective s.result r q in
      let same_d : d' ≡ d = ap (λ (x : Dialog × Message). x.0) same in
      let same_m : resp ≡ m = ap (λ (x : Dialog × Message). x.1) same in
      record {
        success = ap is_success (sym same_m) ∙ good;
        answers =
            subst (λ (x : Dialog). Answers req m id tag x) same_d
              (subst (λ (x : Message). Answers req x id tag d') same_m a);
        there = there ∙ ap some same_d;
      }
  Outcome-Connects false req resp id tag u s (acknowledged good d' a there m' dst routed k out r)
        q =
      cc

  -- behind the wait
  invite_answer-Connects :
      (acked : Bool) (req : Message) (peer id tag branch : Bytes) (w : Result WaitError Message)
      (u : Ua) {d : Dialog} {m : Message}
      → (invite_answer text cfg user acked req peer id tag branch w u).0.0 ≡ ok (d, m)
      → Connects req id tag d m (invite_answer text cfg user acked req peer id tag branch w u).1
  unfolding invite_answer
  invite_answer-Connects acked req peer id tag branch (err e) u q = cc
  invite_answer-Connects acked req peer id tag branch (ok resp) u q =
      let own = aor text cfg user in
      let other = number_uri text cfg user peer in
      let s = finish_invite text cfg user acked req resp id tag own other branch u in
      let known =
        Outcome-Connects acked req resp id tag u s
          (finish_invite-Outcome text cfg user acked req resp id tag own other branch u) in
      elim (Result-cases s.result) [
        | inr (e, q') ↦ absurd (cc (rw (q', invite_answer) at q))
        | inl (call, q') ↦ rw (q', invite_answer) (known (q' ∙ cc (rw (q', invite_answer) at q)))
      ]

  -- What a whole `Invite` leaves.
  pub record Calls (req : Message) (id tag : Bytes)
      (r : (Result (RequestError CallError) (Dialog × Message) × List Sent) × Ua) (u : Ua)
      : Type 0 where
    pub run : Reach text cfg user u r.1
    pub no_tx : lookup (key_of req) r.1.txs ≡ none
    pub connects : {d : Dialog} {m : Message} → r.0.0 ≡ ok (d, m) → Connects req id tag d m r.1

  transact-Connects :
      (acked : Bool) (req : Message) (peer id tag branch : Bytes) (sent : Bool) (wait : Waiting)
      (u : Ua) {d : Dialog} {m : Message}
      → (transact sent req wait
          (err unsent, [])
          (invite_answer text cfg user acked req peer id tag branch)
          u).0.0
        ≡ ok (d, m)
      → Connects req id tag d m
          (transact sent req wait
            (err unsent, [])
            (invite_answer text cfg user acked req peer id tag branch)
            u).1
  unfolding transact begin close_tx
  transact-Connects acked req peer id tag branch false wait u q = cc
  transact-Connects acked req peer id tag branch true wait u q =
      let (v, w) = wait (begin true req u).1 in
      let known = invite_answer-Connects acked req peer id tag branch w v q in
      record { success = known.success; answers = known.answers; there = known.there }

  -- Whatever happens while `Invite` waits: it leaves no transaction of its request, and a call that it
  -- returns was answered with a success, is in the table under its Call-ID, and is the dialog of that
  -- answer.
  pub invite-Calls :
      (peer id tag branch branch' sdp : Bytes) (sent acked : Bool) (wait : Waiting) (u : Ua)
      → OnlySteps text cfg user (λ v. (wait v).0)
      → Calls
          (invite_request text cfg user peer id tag branch sdp)
          id
          tag
          (invite text cfg user peer id tag branch branch' sdp sent acked wait u)
          u
  unfolding invite
  invite-Calls peer id tag branch branch' sdp sent acked wait u h =
      let req = invite_request text cfg user peer id tag branch sdp in
      record {
        run = invite-Reach text cfg user peer id tag branch branch' sdp sent acked wait h u;
        no_tx =
            transact-lookup text cfg user wait (err unsent, [])
              (invite_answer text cfg user acked req peer id tag branch') sent req u;
        connects = transact-Connects acked req peer id tag branch' sent wait u;
      }
