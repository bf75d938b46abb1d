-- ===== src/Sip/Response/Sendable.antt =====
-- The responses of internal/sip/ua.go to requests that are read back are read back themselves.
use ngntun.Base.Int.{ℤ, pos}
use ngntun.Base.{
  ℕ, false, not, ◌&&◌, List, [], ◌∷◌, ◌++◌, ◌≡◌, inl, inr, refl, Bytes, codes, bytes_eq, arith, All,
  All-append, Bool-cases,
}
use ngntun.Netip.{AddrPort}
use ngntun.Sip.Header.{Headers, add, get}
use ngntun.Sip.Message.Sendable.{
  IsName, IsValue, add-IsSendable, append-IsValue, get-IsValue, set-IsSendable, values-IsValue,
}
use ngntun.Sip.Message.HeaderLines.{IsSendable}
use ngntun.Sip.Message.RoundTrip.{response, message_of}
use ngntun.Sip.Message.{Message, call_id}
use ngntun.Sip.Param.{param}
use ngntun.Sip.Response.{Config, Transport, copy_headers, respond, response_to, tagged, with_sdp}
use ngntun.Text.Space.{is_space}

-- a tag: one word
abbrev pub IsTag : Bytes → Type 0
IsTag t = All (λ c. is_space c ≡ false) t

copy_headers-IsSendable :
    (name : Bytes) (vs : List Bytes) (h : Headers)
    → IsName name
    → All IsValue vs
    → All IsSendable h
    → All IsSendable (copy_headers name vs h)
unfolding copy_headers
copy_headers-IsSendable name [] h n k s = s
copy_headers-IsSendable name (v ∷ vs) h n (k, ks) s =
    copy_headers-IsSendable name vs (add h name v) n ks (add-IsSendable h name v n k s)

tagged-IsValue : (to tag : Bytes) → IsValue to → IsTag tag → IsValue (tagged to tag)
unfolding tagged is_space
tagged-IsValue to tag k t =
    elim (Bool-cases (bytes_eq (param to (codes "tag")) [] && not (bytes_eq tag []))) [
      | inr q ↦ rw (q, tagged) k
      | inl q ↦
          rw (q, tagged)
            (append-IsValue to (codes ";tag=" ++ tag) k (λ e. cc)
              (All-append _ (codes ";tag=") tag (ground arith) t))
    ]

response_to-IsSendable :
    (req : Message) (status : ℤ) (reason tag : Bytes)
    → All IsSendable req.headers
    → IsTag tag
    → All IsSendable (response_to req status reason tag).headers
unfolding response_to is_space call_id
response_to-IsSendable req status reason tag k t =
    let value = λ (n : Bytes). get-IsValue req.headers n k in
    let via : IsName (codes "Via") = (λ e. cc, ground arith, ground arith) in
    let from : IsName (codes "From") = (λ e. cc, ground arith, ground arith) in
    let to : IsName (codes "To") = (λ e. cc, ground arith, ground arith) in
    let id : IsName (codes "Call-ID") = (λ e. cc, ground arith, ground arith) in
    let number : IsName (codes "CSeq") = (λ e. cc, ground arith, ground arith) in
    let to_value = tagged-IsValue (get req.headers (codes "To")) tag (value (codes "To")) t in
    add-IsSendable _ _ _ number (value (codes "CSeq")) (
      add-IsSendable _ _ _ id (value (codes "Call-ID")) (
        add-IsSendable _ _ _ to to_value (
          add-IsSendable _ _ _ from (value (codes "From")) (
            copy_headers-IsSendable (codes "Via") _ [] via
              (values-IsValue req.headers (codes "Via") k) tt))))

-- Such a response is a message with its status and reason.
pub respond-message :
    (cfg : Config) (tr : Transport) (dst : AddrPort) (req : Message) (status : ℕ)
    (reason tag : Bytes)
    → (respond cfg tr dst req (pos status) reason tag []).msg
      ≡ message_of
          (response status reason)
          (respond cfg tr dst req (pos status) reason tag []).msg.headers
          []
unfolding respond with_sdp response_to
respond-message cfg tr dst req status reason tag = refl

-- The headers of a response are read back if those of the request, the tag and the own name are.
pub respond-IsSendable :
    (cfg : Config) (tr : Transport) (dst : AddrPort) (req : Message) (status : ℤ)
    (reason tag : Bytes)
    → All IsSendable req.headers
    → IsTag tag
    → IsValue cfg.user_agent
    → All IsSendable (respond cfg tr dst req status reason tag []).msg.headers
unfolding respond with_sdp is_space
respond-IsSendable cfg tr dst req status reason tag k t v =
    set-IsSendable _ (codes "User-Agent") cfg.user_agent (λ e. cc, ground arith, ground arith) v
      (response_to-IsSendable req status reason tag k t)
