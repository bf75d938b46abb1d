-- ===== src/Session/Admission.antt =====
-- `waitForCall`, `placeCall` and `allowed` of internal/session/session.go. The calls that come in are a
-- list; with each one are the state of the user agent when it is taken, the new tag, and whether the
-- 200 can be sent.
pub mod Order
use ngntun.Base.Int.{pos}
use ngntun.Base.{
  Bool, true, false, not, ◌||◌, List, [], ◌∷◌, Option, none, some, if◌then◌else◌, Bytes, codes,
  Result, ok, err,
}
use ngntun.Netip.{NetipText}
use ngntun.Sdp.{Answer, SdpError, parse_answer}
use ngntun.Sip.Dialog.{Dialog}
use ngntun.Sip.Invite.{CallError, Setup, accept, caller_number, reject}
use ngntun.Sip.Message.{Message}
use ngntun.Sip.Response.{Config, Sent}
use ngntun.Sip.Ua.{IncomingCall, Ua}
use ngntun.Text.Find.{has_prefix}

-- `slices.ContainsFunc`
unfoldable pub any_prefix : Bytes → List Bytes → Bool
unfolding has_prefix
any_prefix from [] = false
any_prefix from (p ∷ allow) = let rest = any_prefix from allow in has_prefix p from || rest

-- `allowed`: an empty list allows every number
unfoldable pub allowed : Bytes → List Bytes → Bool
unfolding any_prefix
allowed from [] = true
allowed from (p ∷ allow) = any_prefix from (p ∷ allow)

pub record Arrival : Type 0 where
  pub call : IncomingCall
  pub tag : Bytes
  pub sent : Bool
  pub ua : Ua

pub data WaitError : Type 0 where
  cancelled : WaitError
  not_answered : CallError → WaitError

-- What the loop returns, and what has been sent in it.
pub record Waited : Type 0 where
  pub result : Result WaitError (Dialog × Answer × Bytes)
  pub out : List Sent

abbrev answered : Answer → Bytes → Setup → Waited
answered a from s = record {
  result = elim s.result [ err e ↦ err (not_answered e) | ok (d, resp) ↦ ok (d, a, from) ];
  out = s.out;
}

abbrev after : Sent → Waited → Waited
after m w = record w { out = m ∷ w.out }

module _ (text : NetipText) (cfg : Config) (contact_user : Bytes) (allow : List Bytes)
    (offer : Bytes) where
  -- How the loop treats one call: it is turned away, or answered.
  unfoldable pub admit : Arrival → Result Sent Waited
  unfolding caller_number allowed reject parse_answer accept
  admit x =
      let from = caller_number text cfg contact_user x.call in
      if not (allowed from allow)
      then err (reject text cfg contact_user x.call (pos 403) (codes "Forbidden") x.tag)
      else elim (parse_answer text x.call.req.body) [
        | err e ↦
            err (reject text cfg contact_user x.call (pos 488) (codes "Not Acceptable Here") x.tag)
        | ok a ↦ ok (answered a from (accept text cfg contact_user x.sent x.call x.tag offer x.ua))
      ]

  -- `waitForCall` over the calls that come in before the context is done
  unfoldable pub wait_for_call : List Arrival → Waited
  unfolding admit
  wait_for_call [] = record { result = err cancelled; out = [] }
  wait_for_call (x ∷ xs) =
      let rest = wait_for_call xs in elim (admit x) [ err m ↦ after m rest | ok w ↦ w ]

pub data PlaceError : Type 0 where
  not_placed : CallError → PlaceError
  bad_answer : SdpError → PlaceError

-- `placeCall` on what `Invite` returns: the call, or the error, and whether the dialog is hung up
unfoldable pub place_call :
    NetipText → Result CallError (Dialog × Message) → Bool × Result PlaceError (Dialog × Answer)
unfolding parse_answer
place_call text (err e) = (false, err (not_placed e))
place_call text (ok (d, resp)) = elim (parse_answer text resp.body) [
  | err e ↦ (true, err (bad_answer e))
  | ok a ↦ (false, ok (d, a))
]
