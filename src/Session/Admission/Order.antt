-- ===== src/Session/Admission/Order.antt =====
-- Which call `waitForCall` of internal/session/session.go answers, and what it does with those before.
use ngntun.Base.Int.{pos}
use ngntun.Base.{
  true, List, [], ◌∷◌, ◌++◌, Option-cases, ◌≡◌, ◌≢◌, ◌⊎◌, ◌↔◌, inl, inr, refl, ap, Bytes, codes,
  arith, Bool-cases, ok, err, Result-cases, ok_injective, subst,
}
use ngntun.Netip.{NetipText}
use ngntun.Sdp.{Answer, parse_answer}
use ngntun.Session.Admission.{Arrival, answered, allowed, any_prefix, admit, wait_for_call}
use ngntun.Sip.Dialog.{Dialog}
use ngntun.Sip.Invite.Accepting.{Accepted, accept-cases}
use ngntun.Sip.Invite.{accept, caller_number, reject}
use ngntun.Sip.Message.{Message}
use ngntun.Sip.Response.{Config, Sent}
use ngntun.Text.Find.{cut_prefix, has_prefix, cut_prefix-append, cut_prefix_sound}

-- A number that the list of prefixes lets through: every one if the list is empty.
pub data Permits (from : Bytes) : List Bytes → Type 0 where
  anyone : Permits from []
  here :
      {p : Bytes} {allow : List Bytes} (rest : Bytes) → from ≡ p ++ rest → Permits from (p ∷ allow)
  there :
      {p q : Bytes} {allow : List Bytes} → Permits from (q ∷ allow) → Permits from (p ∷ q ∷ allow)

here_of_prefix :
    (from p : Bytes) (allow : List Bytes) → has_prefix p from ≡ true → Permits from (p ∷ allow)
unfolding has_prefix
here_of_prefix from p allow e = elim (Option-cases (cut_prefix p from)) [
  | inr (t, q) ↦ here t (cut_prefix_sound p from q)
  | inl q ↦ cc (rw (q, has_prefix) at e)
]

has_prefix-append : (p t : Bytes) → has_prefix p (p ++ t) ≡ true
unfolding has_prefix
has_prefix-append p t = rw (cut_prefix-append p t, has_prefix) refl

any_prefix_sound :
    (from p : Bytes) (allow : List Bytes)
    → any_prefix from (p ∷ allow) ≡ true
    → Permits from (p ∷ allow)
unfolding any_prefix
any_prefix_sound from p [] e = elim (Bool-cases (has_prefix p from)) [
  | inl q ↦ here_of_prefix from p [] q
  | inr q ↦ cc (rw q at e)
]
any_prefix_sound from p (q ∷ allow) e = elim (Bool-cases (has_prefix p from)) [
  | inl found ↦ here_of_prefix from p (q ∷ allow) found
  | inr other ↦ there (any_prefix_sound from q allow (rw other at e))
]

any_prefix_complete :
    (from p : Bytes) (allow : List Bytes)
    → Permits from (p ∷ allow)
    → any_prefix from (p ∷ allow) ≡ true
unfolding any_prefix
any_prefix_complete from p allow (here rest e) = rw (e, has_prefix-append p rest) refl
any_prefix_complete from p (q ∷ allow) (there h) =
    let found = any_prefix_complete from q allow h in ground (arith, found)

pub allowed_iff :
    (from : Bytes) (allow : List Bytes) → (allowed from allow ≡ true) ↔ Permits from allow
unfolding allowed
allowed_iff from [] = (λ _. anyone, λ _. refl)
allowed_iff from (p ∷ allow) = (any_prefix_sound from p allow, any_prefix_complete from p allow)

module _ (text : NetipText) (cfg : Config) (contact_user : Bytes) (allow : List Bytes)
    (offer : Bytes) where
  -- a call that the loop turns away, with the rejection that it is sent
  pub data TurnedAway (x : Arrival) : Sent → Type 0 where
    forbidden :
        ¬ Permits (caller_number text cfg contact_user x.call) allow
        → TurnedAway x (reject text cfg contact_user x.call (pos 403) (codes "Forbidden") x.tag)
    not_acceptable :
        ((a : Answer) → parse_answer text x.call.req.body ≢ ok a)
        → TurnedAway x
            (reject text cfg contact_user x.call (pos 488) (codes "Not Acceptable Here") x.tag)

  -- calls that are all turned away, with their rejections
  pub data AllTurnedAway : List Arrival → List Sent → Type 0 where
    no_calls : AllTurnedAway [] []
    and_then :
        {x : Arrival} {xs : List Arrival} {m : Sent} {ms : List Sent}
        → TurnedAway x m
        → AllTurnedAway xs ms
        → AllTurnedAway (x ∷ xs) (m ∷ ms)

  -- the call that is answered, with its dialog and its media
  pub record Taken (x : Arrival) (a : Answer) (from : Bytes) : Type 0 where
    pub permitted : Permits from allow
    pub from_is : from ≡ caller_number text cfg contact_user x.call
    pub media_is : parse_answer text x.call.req.body ≡ ok a

  pub record Established (xs : List Arrival) (out : List Sent) (d : Dialog) (a : Answer)
      (from : Bytes) : Type 0 where
    pub before : List Arrival
    pub call : Arrival
    pub later : List Arrival
    pub in_order : xs ≡ before ++ (call ∷ later)
    pub rejections : List Sent
    pub turned_away : AllTurnedAway before rejections
    pub taken : Taken call a from
    pub ok_response : Message
    pub answer_out : List Sent
    pub accepted : Accepted call.call offer d ok_response answer_out
    pub sent_is : out ≡ rejections ++ answer_out

  admit-cases :
      (x : Arrival)
      → ((m : Sent) × TurnedAway x m × (admit text cfg contact_user allow offer x ≡ err m))
        ⊎ ((a : Answer) × Permits (caller_number text cfg contact_user x.call) allow
            × (parse_answer text x.call.req.body ≡ ok a)
            × (admit text cfg contact_user allow offer x
                ≡ ok (
                    answered a
                      (caller_number text cfg contact_user x.call)
                      (accept text cfg contact_user x.sent x.call x.tag offer x.ua))))
  unfolding admit
  admit-cases x =
      let from = caller_number text cfg contact_user x.call in
      elim (Bool-cases (allowed from allow)) [
        | inr q ↦ inl (_, forbidden (λ h. cc ((allowed_iff from allow).1 h, q)), rw q refl)
        | inl q ↦ elim (Result-cases (parse_answer text x.call.req.body)) [
          | inl (a, q') ↦ inr (a, (allowed_iff from allow).0 q, q', rw (q, q') refl)
          | inr (e, q') ↦ inl (_, not_acceptable (λ a r. cc (q', r)), rw (q, q') refl)
        ]
      ]

  answered-Established :
      (x : Arrival) (xs : List Arrival) (a : Answer)
      → Taken x a (caller_number text cfg contact_user x.call)
      → {d : Dialog} {a' : Answer} {from : Bytes}
      → (answered a
          (caller_number text cfg contact_user x.call)
          (accept text cfg contact_user x.sent x.call x.tag offer x.ua)).result
        ≡ ok (d, a', from)
      → Established
          (x ∷ xs)
          (accept text cfg contact_user x.sent x.call x.tag offer x.ua).out
          d
          a'
          from
  answered-Established x xs a taken e =
      elim (accept-cases text cfg contact_user x.sent x.call x.tag offer x.ua) [
        | inl (why, q) ↦ cc (rw q at e)
        | inr (d', m, q, good) ↦
            subst
              (λ (r : Dialog × Answer × Bytes).
                Established (x ∷ xs)
                  (accept text cfg contact_user x.sent x.call x.tag offer x.ua).out r.0 r.1 r.2)
              (ok_injective _ (rw q refl) e)
              (record {
                before = [];
                call = x;
                later = xs;
                in_order = refl;
                rejections = [];
                turned_away = no_calls;
                taken = taken;
                ok_response = m;
                answer_out = _;
                accepted = good;
                sent_is = refl;
              })
      ]

  -- If `waitForCall` returns a call, the calls that came in before it were all turned away, each with
  -- one response, 403 where no prefix of a list that is not empty lets its number through and 488
  -- where its SDP is none; the call that it returns comes from the number that is returned, which
  -- the list lets through, and its SDP is the one that is returned; the dialog has its Call-ID, the
  -- tag of the caller and our offer, and the last thing sent is the one response, a 200 with that
  -- offer that repeats the headers of the INVITE and goes back to where that came from.
  pub wait_for_call-Established :
      (xs : List Arrival) {d : Dialog} {a : Answer} {from : Bytes}
      → (wait_for_call text cfg contact_user allow offer xs).result ≡ ok (d, a, from)
      → Established xs (wait_for_call text cfg contact_user allow offer xs).out d a from
  unfolding wait_for_call
  wait_for_call-Established [] e = cc
  wait_for_call-Established (x ∷ xs) {d} {a} {from} e = elim (admit-cases x) [
    | inl (m, away, q) ↦
        let rest = wait_for_call-Established xs (rw (q, wait_for_call) at e) in
        rw (q, wait_for_call)
          (record {
            before = x ∷ rest.before;
            call = rest.call;
            later = rest.later;
            in_order = ap (λ (l : List Arrival). x ∷ l) rest.in_order;
            rejections = m ∷ rest.rejections;
            turned_away = and_then away rest.turned_away;
            taken = rest.taken;
            ok_response = rest.ok_response;
            answer_out = rest.answer_out;
            accepted = rest.accepted;
            sent_is = ap (λ (l : List Sent). m ∷ l) rest.sent_is;
          })
    | inr (a', permitted, parsed, q) ↦
        rw (q, wait_for_call)
          (answered-Established x xs a'
            (record { permitted = permitted; from_is = refl; media_is = parsed })
            (rw (q, wait_for_call) at e))
  ]
