-- ===== src/Sip/Start/NoLeak.antt =====
-- The sockets that `New` and `Close` of internal/sip/ua.go leave.
use ngntun.Base.{
  Bool, true, false, List, [], ◌∷◌, ◌++◌, append-nil, ◌≡◌, inl, inr, refl, ap, ◌∙◌, if◌then◌else◌,
  Bytes, Option-cases, ok, err,
}
use ngntun.Netip.{NetipText}
use ngntun.Sip.Outgoing.{with_defaults}
use ngntun.Sip.Response.{Config, Transport, v4, v6}
use ngntun.Sip.Start.{Agent, Created, NewError, calls_of, close_agent, new_agent, open_transports}
use ngntun.Socket.Opening.{is_open, is_open-closed, is_open-nil, new_transport-Opens}
use ngntun.Socket.{Answers, Call, closed, new_transport}

abbrev same : Transport → Transport → Bool
same v4 v4 = true
same v6 v6 = true
same _ _ = false

-- the calls for the socket of a transport, in their order
pub calls_for : Transport → List (Transport × Call) → List Call
calls_for t [] = []
calls_for t ((s, c) ∷ cs) = let rest = calls_for t cs in if same s t then c ∷ rest else rest

-- Whether the socket of the transport is there behind the calls.
abbrev pub holds : Transport → List (Transport × Call) → Bool
holds t cs = is_open false (calls_for t cs)

calls_for-append :
    (t : Transport) (cs ds : List (Transport × Call))
    → calls_for t (cs ++ ds) ≡ calls_for t cs ++ calls_for t ds
unfolding calls_for
calls_for-append t [] ds = refl
calls_for-append v4 ((v4, c) ∷ cs) ds = ap (◌∷◌ c) (calls_for-append v4 cs ds)
calls_for-append v4 ((v6, c) ∷ cs) ds = calls_for-append v4 cs ds
calls_for-append v6 ((v4, c) ∷ cs) ds = calls_for-append v6 cs ds
calls_for-append v6 ((v6, c) ∷ cs) ds = ap (◌∷◌ c) (calls_for-append v6 cs ds)

own : (t : Transport) (cs : List Call) → calls_for t (calls_of t cs) ≡ cs
unfolding calls_for
own t [] = refl
own v4 (c ∷ cs) = ap (◌∷◌ c) (own v4 cs)
own v6 (c ∷ cs) = ap (◌∷◌ c) (own v6 cs)

other_v4 : (cs : List Call) → calls_for v4 (calls_of v6 cs) ≡ []
unfolding calls_for
other_v4 [] = refl
other_v4 (c ∷ cs) = other_v4 cs

other_v6 : (cs : List Call) → calls_for v6 (calls_of v4 cs) ≡ []
unfolding calls_for
other_v6 [] = refl
other_v6 (c ∷ cs) = other_v6 cs

-- the two sockets of a list of calls for the one and then for the other
both :
    (cs ds : List Call) (es : List (Transport × Call))
    → (calls_for v4 (calls_of v4 cs ++ (calls_of v6 ds ++ es)) ≡ cs ++ calls_for v4 es)
      × (calls_for v6 (calls_of v4 cs ++ (calls_of v6 ds ++ es)) ≡ ds ++ calls_for v6 es)
both cs ds es = (
  rw (calls_for-append, own) (rw calls_for-append (rw other_v4 refl)),
  rw (calls_for-append, other_v6) (rw calls_for-append (rw own refl)),
)

-- Both sockets are there behind a success and none is behind a failure, and `Close` leaves none.
pub record NoLeak (c : Created) : Type 0 where
  pub created : {g : Agent} → c.result ≡ ok g → (t : Transport) → holds t c.calls ≡ true
  pub refused : {e : NewError} → c.result ≡ err e → (t : Transport) → holds t c.calls ≡ false
  pub ended : (t : Transport) → holds t (c.calls ++ close_agent) ≡ false

close_ends : (t : Transport) (cs : List (Transport × Call)) → holds t (cs ++ close_agent) ≡ false
unfolding calls_for
close_ends v4 cs =
    ap (is_open false) (calls_for-append v4 cs close_agent) ∙ is_open-closed (calls_for v4 cs)
close_ends v6 cs =
    ap (is_open false) (calls_for-append v6 cs close_agent) ∙ is_open-closed (calls_for v6 cs)

only_v4 :
    (cs : List Call) (t : Transport) → is_open false cs ≡ false → holds t (calls_of v4 cs) ≡ false
only_v4 cs v4 e = rw own e
only_v4 cs v6 e = rw other_v6 is_open-nil

two_held :
    (cs ds : List Call) (t : Transport)
    → is_open false cs ≡ true
    → is_open false ds ≡ true
    → holds t (calls_of v4 cs ++ calls_of v6 ds) ≡ true
two_held cs ds v4 e f =
    let mine = calls_for-append v4 (calls_of v4 cs) (calls_of v6 ds) in
    ap (is_open false) (mine ∙ cc (own v4 cs, other_v4 ds) ∙ append-nil cs) ∙ e
two_held cs ds v6 e f =
    let mine = calls_for-append v6 (calls_of v4 cs) (calls_of v6 ds) in
    ap (is_open false) (mine ∙ cc (own v6 ds, other_v6 cs)) ∙ f

two_gone :
    (cs ds : List Call) (t : Transport)
    → is_open false ds ≡ false
    → holds t (calls_of v4 cs ++ (calls_of v6 ds ++ (v4, closed) ∷ [])) ≡ false
unfolding calls_for
two_gone cs ds v4 f = ap (is_open false) (both cs ds ((v4, closed) ∷ [])).0 ∙ is_open-closed cs
two_gone cs ds v6 f = ap (is_open false) ((both cs ds ((v4, closed) ∷ [])).1 ∙ append-nil ds) ∙ f

open_transports-NoLeak :
    (a4 a6 : Answers) (cfg : Config) (device : Bytes) (g : Agent)
    → NoLeak (open_transports a4 a6 cfg device g)
unfolding open_transports
open_transports-NoLeak a4 a6 cfg device g =
    let o4 = new_transport a4 cfg.local_v4 device in
    let o6 = new_transport a6 cfg.local_v6 device in
    let h4 = (new_transport-Opens a4 cfg.local_v4 device).held in
    let h6 = (new_transport-Opens a6 cfg.local_v6 device).held in
    elim (Option-cases o4.error) [
      | inr (e, q) ↦
          rw (q, open_transports)
            (record {
              created = λ z. cc;
              refused = λ z t. only_v4 o4.calls t (rw q at h4);
              ended = λ t. close_ends t _;
            })
      | inl q ↦ elim (Option-cases o6.error) [
        | inr (e, q') ↦
            rw (q, q', open_transports)
              (record {
                created = λ z. cc;
                refused = λ z t. two_gone o4.calls o6.calls t (rw q' at h6);
                ended = λ t. close_ends t _;
              })
        | inl q' ↦
            rw (q, q', open_transports)
              (record {
                created = λ z t. two_held o4.calls o6.calls t (rw q at h4) (rw q' at h6);
                refused = λ z. cc;
                ended = λ t. close_ends t _;
              })
      ]
    ]

-- Whatever the calls for its two sockets return, `New` leaves both sockets open if it succeeds and
-- none if it fails, and `Close` leaves none.
pub new_agent-NoLeak :
    (text : NetipText) (a4 a6 : Answers) (cfg : Config) (device contact_user tag token : Bytes)
    → NoLeak (new_agent text a4 a6 cfg device contact_user tag token)
unfolding new_agent calls_for
new_agent-NoLeak text a4 a6 cfg device contact_user tag token =
    elim (Option-cases (with_defaults cfg)) [
      | inl q ↦
          rw (q, new_agent)
            (record {
              created = λ z. cc;
              refused = λ z t. is_open-nil;
              ended = λ t. close_ends t [];
            })
      | inr (cfg', q) ↦ rw (q, new_agent) (open_transports-NoLeak a4 a6 cfg' device _)
    ]
