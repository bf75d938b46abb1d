-- ===== src/Sip/Wire.antt =====
-- Messages of internal/sip that go through `Marshal` and `ParseMessage`: what the other side
-- gets.
pub mod Hangup
pub mod Sides
use ngntun.Base.Int.{ℤ, pos}
use ngntun.Base.{
  ℕ, ◌<◌, ◌^◌, Bool, true, false, List, [], ◌∷◌, ◌++◌, ◌≡◌, ◌≢◌, ◌⊎◌, inl, inr, refl, sym, ap, ◌∙◌,
  Bytes, codes, bytes_eq, bytes_eq_iff, arith, All, All-append, All-imp, Bool-cases, ok, length,
  if◌then◌else◌, subst,
}
use ngntun.Netip.{AddrPort}
use ngntun.Sip.Header.Laws.{alike, get-set, get-values, first_or_nil}
use ngntun.Sip.Header.{Header, Headers, add, canon, get, set, set_loop, same_name, values}
use ngntun.Sip.Message.HeaderLines.{IsSendable, All-set_loop, sent_headers, word-IsInline}
use ngntun.Sip.Message.Lines.{IsInline}
use ngntun.Sip.Message.RoundTrip.{
  Start, asking, response, IsStart, message_of, parse_message-marshal,
}
use ngntun.Sip.Message.{Message, branch, call_id, cseq, marshal, request}
use ngntun.Sip.Message.Parse.{parse_message}
use ngntun.Sip.Param.{param}
use ngntun.Sip.Request.{key_of}
use ngntun.Sip.Response.Echo.{Echoes}
use ngntun.Sip.Response.{Config, Transport, Sent}
use ngntun.Text.Space.{is_space, StartsClear, EndsClear, EndsClear-append}

-- a message as it is read: with its Content-Length
abbrev pub on_wire : Message → Message
on_wire m = record m { headers = sent_headers m.headers m.body }

-- Every other header is found as before.
pub get-on_wire :
    (m : Message) (name : Bytes)
    → alike (codes "Content-Length") name ≡ false
    → get (on_wire m).headers name ≡ get m.headers name
get-on_wire m name e = get-set m.headers _ _ name ∙ ground (arith, e)

-- Messages with the same Via and CSeq are of the same transaction.
pub key_of-alike :
    (m n : Message)
    → get m.headers (codes "Via") ≡ get n.headers (codes "Via")
    → get m.headers (codes "CSeq") ≡ get n.headers (codes "CSeq")
    → key_of m ≡ key_of n
unfolding branch cseq
key_of-alike m n e f = rw (e, f) refl

pub key_of-on_wire : (m : Message) → key_of (on_wire m) ≡ key_of m
unfolding canon bytes_eq
key_of-on_wire m =
    key_of-alike (on_wire m) m (get-on_wire m (codes "Via") refl)
      (get-on_wire m (codes "CSeq") refl)

pub call_id-on_wire : (m : Message) → call_id (on_wire m) ≡ call_id m
unfolding call_id canon bytes_eq
call_id-on_wire m = get-on_wire m (codes "Call-ID") refl

-- A response is of the transaction of the request that it repeats.
pub key_of-Echoes :
    (req resp : Message) (tag : Bytes) → Echoes req resp tag → key_of resp ≡ key_of req
key_of-Echoes req resp tag e =
    key_of-alike resp req
      (get-values resp.headers (codes "Via")
        ∙ ap first_or_nil e.via
        ∙ sym (get-values req.headers (codes "Via")))
      e.cseq_is
