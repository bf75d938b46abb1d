-- ===== src/Sip/Dialog/Requests.antt =====
-- Requests inside a dialog of internal/sip/dialog.go: what answers them and what ends the dialog.
use ngntun.Base.Int.{ℤ, pos}
use ngntun.Base.{
  Bool, true, false, ◌||◌, inl, inr, Option-cases, List, [], ◌∷◌, Option, none, some, ◌≡◌, refl,
  sym, ap, ◌∙◌, Bytes, codes, bytes_eq, arith,
}
use ngntun.Netip.{AddrPort, NetipText}
use ngntun.Sip.Dialog.{
  Reason, Dialog, Method, terminate, method_of, with_session_timer, with_body, contact_uri, angled,
  refresh_response, handle_method, handle_request,
}
use ngntun.Sip.Header.Laws.{alike, values-set, get-values, first_or_nil}
use ngntun.Sip.Header.{Headers, canon, get, set, values}
use ngntun.Sip.Message.{Message, call_id}
use ngntun.Sip.Response.Echo.{Echoes, response_to-Echoes}
use ngntun.Sip.Response.{Config, Transport, Sent, local_addr_port, respond, with_sdp, response_to}

-- None of the headers that are set on an answer stands for the name.
abbrev pub Untouched : Bytes → Type 0
Untouched other =
    (alike (codes "Contact") other ≡ false)
    × (alike (codes "User-Agent") other ≡ false)
    × (alike (codes "Session-Expires") other ≡ false)
    × (alike (codes "Require") other ≡ false)
    × (alike (codes "Content-Type") other ≡ false)
    × (alike (codes "Supported") other ≡ false)

-- The headers agree on every name that is not set on an answer.
abbrev pub Agree : Headers → Headers → Type 0
Agree h h' = (other : Bytes) → Untouched other → values h' other ≡ values h other

pub set_keeps :
    (h : Headers) (name v other : Bytes)
    → alike name other ≡ false
    → values (set h name v) other ≡ values h other
set_keeps h name v other e = ground (arith, values-set h name v other)

with_session_timer-Agree : (se : Bytes) (h : Headers) → Agree h (with_session_timer se h)
unfolding with_session_timer
with_session_timer-Agree [] h other u = refl
with_session_timer-Agree (c ∷ se) h other (_, _, e, r, _, _) =
    set_keeps (set h (codes "Session-Expires") (c ∷ se)) (codes "Require") (codes "timer") other r
    ∙ set_keeps h (codes "Session-Expires") (c ∷ se) other e

with_body-Agree : (body : Bytes) (h : Headers) → Agree h (with_body body h)
unfolding with_body
with_body-Agree [] h other u = refl
with_body-Agree (c ∷ body) h other (_, _, _, _, t, _) =
    set_keeps h (codes "Content-Type") (codes "application/sdp") other t

get-Agree :
    (h h' : Headers) (other : Bytes) → Agree h h' → Untouched other → get h' other ≡ get h other
get-Agree h h' other a u =
    get-values h' other ∙ ap first_or_nil (a other u) ∙ sym (get-values h other)

-- Headers that agree with those of an answer keep what it repeats.
pub Echoes-Agree :
    (req resp resp' : Message) (tag : Bytes)
    → Agree resp.headers resp'.headers
    → Echoes req resp tag
    → Echoes req resp' tag
unfolding canon bytes_eq call_id
Echoes-Agree req resp resp' tag a e =
    let same = λ (n : Bytes) (u : Untouched n). get-Agree resp.headers resp'.headers n a u in
    record {
      via = a (codes "Via") (refl, refl, refl, refl, refl, refl) ∙ e.via;
      from = same (codes "From") (refl, refl, refl, refl, refl, refl) ∙ e.from;
      call_id_is = same (codes "Call-ID") (refl, refl, refl, refl, refl, refl) ∙ e.call_id_is;
      cseq_is = same (codes "CSeq") (refl, refl, refl, refl, refl, refl) ∙ e.cseq_is;
      to_kept = λ h. same (codes "To") (refl, refl, refl, refl, refl, refl) ∙ e.to_kept h;
      to_tagged = λ h k. same (codes "To") (refl, refl, refl, refl, refl, refl) ∙ e.to_tagged h k;
    }

-- One answer with the status, to where the request came from, over the same transport.
pub record IsAnswer (req : Message) (tag : Bytes) (src : AddrPort) (tr : Transport) (status : ℤ)
    (s : Sent) : Type 0 where
  pub back : s.dst ≡ src
  pub same_tr : s.tr ≡ tr
  pub is_response : s.msg.response ≡ true
  pub status_is : s.msg.status ≡ status
  pub echoes : Echoes req s.msg tag

-- What a dialog sends upon a request: nothing upon ACK, one answer upon any other.
abbrev pub Answered : Method → Message → Bytes → AddrPort → Transport → List Sent → Type 0
Answered Method.ack req tag src tr out = out ≡ []
Answered Method.other req tag src tr out =
    (s : Sent) × (out ≡ s ∷ []) × IsAnswer req tag src tr (pos 501) s
Answered m req tag src tr out = (s : Sent) × (out ≡ s ∷ []) × IsAnswer req tag src tr (pos 200) s

abbrev is_bye : Method → Bool
is_bye Method.bye = true
is_bye _ = false

-- the reason of a dialog's end, which a BYE gives if none is there yet
abbrev pub ending : Option Reason → Bool → Option Reason
ending (some r) b = some r
ending none true = some Reason.remote_bye
ending none false = none

ending_twice : (r : Option Reason) (b c : Bool) → ending (ending r b) c ≡ ending r (b || c)
ending_twice (some r) b c = refl
ending_twice none true c = refl
ending_twice none false c = refl

terminate-ended :
    (d : Dialog) (r : Reason) → d.terminated ≡ some r → terminate Reason.remote_bye d ≡ d
unfolding terminate
terminate-ended d r e = rw e refl

terminated-terminate :
    (d : Dialog) → (terminate Reason.remote_bye d).terminated ≡ ending d.terminated true
unfolding terminate
terminated-terminate d = elim (Option-cases d.terminated) [
  | inl e ↦ rw (e, terminate) refl
  | inr (r, e) ↦
      ap (λ (x : Dialog). x.terminated) (terminate-ended d r e)
      ∙ e
      ∙ ap (λ (o : Option Reason). ending o true) (sym e)
]

ending-false : (r : Option Reason) → ending r false ≡ r
ending-false (some r) = refl
ending-false none = refl

module _ (text : NetipText) (cfg : Config) (contact_user : Bytes) where
  pub respond-IsAnswer :
      (tr : Transport) (src : AddrPort) (req : Message) (status : ℤ) (reason tag : Bytes)
      → IsAnswer req tag src tr status (respond cfg tr src req status reason tag [])
  unfolding respond with_sdp response_to
  respond-IsAnswer tr src req status reason tag =
      let resp = response_to req status reason tag in
      record {
        back = refl;
        same_tr = refl;
        is_response = refl;
        status_is = refl;
        echoes =
            Echoes-Agree req resp (respond cfg tr src req status reason tag []).msg tag
              (λ other u. set_keeps resp.headers (codes "User-Agent") cfg.user_agent other u.1)
              (response_to-Echoes req status reason tag);
      }

  refresh_response-IsAnswer :
      (d : Dialog) (req : Message) (src : AddrPort) (tr : Transport)
      → IsAnswer req d.local_tag src tr
          (pos 200)
          (record { tr = tr; dst = src; msg = refresh_response text cfg contact_user d req tr })
  unfolding refresh_response response_to
  refresh_response-IsAnswer d req src tr =
      let resp = response_to req (pos 200) (codes "OK") d.local_tag in
      let c = angled (contact_uri text cfg contact_user (local_addr_port cfg tr)) in
      let h0 = set resp.headers (codes "Contact") c in
      let h1 = set h0 (codes "User-Agent") cfg.user_agent in
      let se = get req.headers (codes "Session-Expires") in
      record {
        back = refl;
        same_tr = refl;
        is_response = refl;
        status_is = refl;
        echoes =
            Echoes-Agree req resp (refresh_response text cfg contact_user d req tr) d.local_tag
              (λ other u.
                with_body-Agree d.local_sdp (with_session_timer se h1) other u
                ∙ with_session_timer-Agree se h1 other u
                ∙ set_keeps h0 (codes "User-Agent") cfg.user_agent other u.1
                ∙ set_keeps resp.headers (codes "Contact") c other u.0)
              (response_to-Echoes req (pos 200) (codes "OK") d.local_tag);
      }

  handle_method-Answered :
      (m : Method) (d : Dialog) (req : Message) (src : AddrPort) (tr : Transport)
      → Answered m req d.local_tag src tr (handle_method text cfg contact_user m d req src tr).1
  unfolding handle_method
  handle_method-Answered Method.ack d req src tr = refl
  handle_method-Answered Method.bye d req src tr =
      (_, refl, respond-IsAnswer tr src req (pos 200) (codes "OK") d.local_tag)
  handle_method-Answered Method.invite d req src tr =
      (_, refl, refresh_response-IsAnswer d req src tr)
  handle_method-Answered Method.update d req src tr =
      (_, refl, refresh_response-IsAnswer d req src tr)
  handle_method-Answered Method.options d req src tr =
      (_, refl, respond-IsAnswer tr src req (pos 200) (codes "OK") d.local_tag)
  handle_method-Answered Method.other d req src tr =
      (_, refl, respond-IsAnswer tr src req (pos 501) (codes "Not Implemented") d.local_tag)

  -- A dialog sends nothing upon ACK and exactly one datagram upon every other request: a response
  -- to the address and over the transport the request came by, with status 501 for a method that is
  -- not ACK, BYE, INVITE, UPDATE or OPTIONS and 200 for the others, which repeats Via, From,
  -- Call-ID, CSeq and To of the request, the To with the tag of the dialog if it had none.
  pub handle_request-Answered :
      (d : Dialog) (req : Message) (src : AddrPort) (tr : Transport)
      → Answered
          (method_of req.method)
          req
          d.local_tag
          src
          tr
          (handle_request text cfg contact_user d req src tr).1
  unfolding handle_request
  handle_request-Answered d req src tr = handle_method-Answered (method_of req.method) d req src tr

  -- a BYE among the requests
  pub heard_bye : List (Message × AddrPort × Transport) → Bool
  heard_bye [] = false
  heard_bye ((req, src, tr) ∷ rest) = is_bye (method_of req.method) || heard_bye rest

  -- the dialog behind several requests
  pub handle_all : Dialog → List (Message × AddrPort × Transport) → Dialog
  unfolding handle_request
  handle_all d [] = d
  handle_all d ((req, src, tr) ∷ rest) =
      handle_all (handle_request text cfg contact_user d req src tr).0 rest

  handle_method-terminated :
      (m : Method) (d : Dialog) (req : Message) (src : AddrPort) (tr : Transport)
      → (handle_method text cfg contact_user m d req src tr).0.terminated
        ≡ ending d.terminated (is_bye m)
  unfolding handle_method
  handle_method-terminated Method.ack d req src tr = sym (ending-false d.terminated)
  handle_method-terminated Method.bye d req src tr = terminated-terminate d
  handle_method-terminated Method.invite d req src tr = sym (ending-false d.terminated)
  handle_method-terminated Method.update d req src tr = sym (ending-false d.terminated)
  handle_method-terminated Method.options d req src tr = sym (ending-false d.terminated)
  handle_method-terminated Method.other d req src tr = sym (ending-false d.terminated)

  -- Behind any requests the dialog has ended with `remote_bye` if a BYE was among them and it had
  -- not ended before; otherwise the reason of its end, or that it has none, is what it was before.
  pub handle_all-terminated :
      (d : Dialog) (reqs : List (Message × AddrPort × Transport))
      → (handle_all d reqs).terminated ≡ ending d.terminated (heard_bye reqs)
  unfolding handle_all heard_bye handle_request
  handle_all-terminated d [] = sym (ending-false d.terminated)
  handle_all-terminated d ((req, src, tr) ∷ rest) =
      let m = method_of req.method in
      handle_all-terminated (handle_method text cfg contact_user m d req src tr).0 rest
      ∙ ap (λ r. ending r (heard_bye rest)) (handle_method-terminated m d req src tr)
      ∙ ending_twice d.terminated (is_bye m) (heard_bye rest)
