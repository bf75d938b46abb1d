-- ===== src/Sip/Message/RoundTrip.antt =====
-- `ParseMessage` of internal/sip/message.go reads what `Marshal` writes.
use ngntun.Base.Int.{ℤ, pos}
use ngntun.Base.{
  ℕ, ◌<◌, ◌^◌, Bool, true, false, List, [], ◌∷◌, ◌++◌, map, some, ◌≡◌, ◌≢◌, refl, ap, ◌∙◌, Bytes,
  codes, arith, All, All-append, All-imp, length, ok,
}
use ngntun.Sip.Header.{Headers, get}
use ngntun.Sip.Message.{Message, crlf, marshal, start_line, request}
use ngntun.Sip.Message.HeaderLines.{
  IsSendable, line_of, header_lines-ended, headers_loop-lines, sized-itoa, sent_headers,
  sent_headers-IsSendable, get-sent_headers, word-IsInline, word-IsLine, headers-IsLine, itoa-clear,
}
use ngntun.Sip.Message.Lines.{IsInline, IsLine, ended, divide-ended, unfold_lines-between}
use ngntun.Sip.Message.Parse.{
  divide, unfold_lines, headers_loop, sized, first_line, status_line, request_line, parse_lines,
  with_headers, parse_message, empty_response,
}
use ngntun.Text.Case.{to_upper}
use ngntun.Text.Decimal.{itoa, format_int, atoi, atoi-itoa, itoa-IsDigit, IsDigit}
use ngntun.Text.Find.{has_prefix, cut_prefix}
use ngntun.Text.Space.{is_space}
use ngntun.Text.Split.{cut, cut-append, Lacks, fields, fields_func_cons, fields_func_one}

-- the first line of a message
pub data Start : Type 0 where
  response : (status : ℕ) → (reason : Bytes) → Start
  asking : (method uri : Bytes) → Start

abbrev pub message_of : Start → Headers → Bytes → Message
message_of (response n reason) h body = record (empty_response (pos n) reason) {
  headers = h;
  body = body;
}
message_of (asking method uri) h body = record (request method uri h) { body = body }

abbrev pub IsWord : Bytes → Type 0
IsWord w = (w ≢ []) × All (λ c. is_space c ≡ false) w

-- a first line that is read back: a status that is an int and a reason on one line, or a method in
-- capitals with no `/` and a URI, both of one word
abbrev pub IsStart : Start → Type 0
IsStart (response n reason) = (n < 2 ^ 63) × All IsInline reason
IsStart (asking method uri) =
    IsWord method × IsWord uri × (to_upper method ≡ method) × Lacks b'/' method

abbrev first : Start → Bytes
first s = start_line (message_of s [] [])

status_line-read :
    (l : Bytes) {v rest code reason : Bytes} {more : Bool} {n : ℤ}
    → cut b' ' l ≡ (v, rest, true)
    → cut b' ' rest ≡ (code, reason, more)
    → atoi code ≡ some n
    → status_line l ≡ ok (empty_response n reason)
unfolding status_line
status_line-read l {reason = reason} {n = n} e f g =
    let tail : (cut b' ' (cut b' ' l).1).1 ≡ reason = rw e (rw f refl) in
    rw (e, f, g, status_line) (ap (λ (r : Bytes). ok (empty_response n r)) tail)

digit-space : (n : ℕ) → Lacks b' ' (itoa n)
digit-space n = All-imp IsDigit _ (itoa n) (λ c k. ground (arith, k.0)) (itoa-IsDigit n)

response-read :
    (n : ℕ) (reason : Bytes)
    → n < 2 ^ 63
    → first_line (first (response n reason)) ≡ ok (empty_response (pos n) reason)
unfolding first_line start_line has_prefix cut_prefix format_int
response-read n reason k =
    status_line-read (codes "SIP/2.0" ++ (b' ' ∷ (itoa n ++ (b' ' ∷ reason))))
      (cut-append b' ' (codes "SIP/2.0") (itoa n ++ (b' ' ∷ reason)) (ground arith))
      (cut-append b' ' (itoa n) reason (digit-space n)) (atoi-itoa n k)

no_slash :
    (method rest : Bytes)
    → Lacks b'/' method
    → has_prefix (codes "SIP/2.0") (method ++ (b' ' ∷ rest)) ≡ false
unfolding has_prefix cut_prefix
no_slash [] rest h = refl
no_slash (a ∷ []) rest h = ground arith
no_slash (a ∷ b ∷ []) rest h = ground arith
no_slash (a ∷ b ∷ c ∷ []) rest h = ground arith
no_slash (a ∷ b ∷ c ∷ d ∷ method) rest h = let other = h.1.1.1.0 in ground (arith, other)

first_line-request :
    (l method uri : Bytes)
    → has_prefix (codes "SIP/2.0") l ≡ false
    → fields l ≡ method ∷ uri ∷ codes "SIP/2.0" ∷ []
    → to_upper method ≡ method
    → first_line l ≡ ok (request method uri [])
unfolding first_line request_line has_prefix cut_prefix
first_line-request l method uri e f g =
    rw (e, f, first_line) (ap (λ (m : Bytes). ok (request m uri [])) g)

fields-request :
    (method uri : Bytes)
    → IsWord method
    → IsWord uri
    → fields (method ++ (b' ' ∷ (uri ++ codes " SIP/2.0"))) ≡ method ∷ uri ∷ codes "SIP/2.0" ∷ []
unfolding fields is_space
fields-request method uri (ne, m) (ne', u) =
    fields_func_cons is_space method b' ' (uri ++ codes " SIP/2.0") ne m refl
    ∙ ap (λ (ps : List Bytes). method ∷ ps)
        (fields_func_cons is_space uri b' ' (codes "SIP/2.0") ne' u refl)
    ∙ ap (λ (ps : List Bytes). method ∷ uri ∷ ps)
        (fields_func_one is_space (codes "SIP/2.0") (λ e. cc) (ground arith))

first-read : (s : Start) → IsStart s → first_line (first s) ≡ ok (message_of s [] [])
unfolding start_line
first-read (response n reason) (k, inline) = response-read n reason k
first-read (asking method uri) (m, u, upper, slash) =
    first_line-request (first (asking method uri)) method uri (no_slash method _ slash)
      (fields-request method uri m u) upper

first-IsLine : (s : Start) → IsStart s → IsLine (first s)
unfolding start_line format_int is_space
first-IsLine (response n reason) (k, inline) =
    let space : IsInline b' ' = (λ e. omega arith, λ e. omega arith) in
    word-IsLine (codes "SIP/2.0") (b' ' ∷ (itoa n ++ (b' ' ∷ reason))) (λ e. cc) (ground arith)
      (
        space,
        All-append IsInline (itoa n) (b' ' ∷ reason) (word-IsInline (itoa n) (itoa-clear n))
            (space, inline),
      )
first-IsLine (asking method uri) (m, u, upper, slash) =
    let space : IsInline b' ' = (λ e. omega arith, λ e. omega arith) in
    word-IsLine method (b' ' ∷ (uri ++ codes " SIP/2.0")) m.0 m.1 (
      space,
      All-append IsInline uri (codes " SIP/2.0") (word-IsInline uri u.1)
          (space, word-IsInline (codes "SIP/2.0") (ground arith)),
    )

with_headers-read :
    (rest : Bytes) (ls : List Bytes) (m : Message) {h : Headers} {body : Bytes}
    → headers_loop ls [] ≡ ok h
    → sized (get h (codes "Content-Length")) rest ≡ body
    → with_headers rest ls m ≡ ok (record m { headers = h; body = body })
unfolding with_headers
with_headers-read rest ls m {h} e f =
    rw (e, with_headers) (ap (λ (b : Bytes). ok (record m { headers = h; body = b })) f)

parse_lines-read :
    (rest l : Bytes) (ls : List Bytes) {m : Message}
    → first_line l ≡ ok m
    → parse_lines rest (l ∷ ls) ≡ with_headers rest ls m
unfolding parse_lines
parse_lines-read rest l ls e = rw (e, parse_lines) refl

parse_message-read :
    (t : Bytes) {head rest : Bytes} {ls : List Bytes}
    → divide t ≡ (head, rest)
    → unfold_lines head ≡ ls
    → parse_message t ≡ parse_lines rest ls
unfolding parse_message
parse_message-read t {rest = rest} e f =
    ap (λ (p : Bytes × Bytes). parse_lines p.1 (unfold_lines p.0)) e ∙ ap (parse_lines rest) f

marshal-ended :
    (s : Start) (h : Headers) (body : Bytes)
    → marshal (message_of s h body)
      ≡ ended (first s ∷ map line_of (sent_headers h body)) (crlf body)
unfolding marshal start_line
marshal-ended (response n reason) h body =
    ap (λ (x : Bytes). first (response n reason) ++ crlf x)
      (header_lines-ended (sent_headers h body) (crlf body))
marshal-ended (asking method uri) h body =
    ap (λ (x : Bytes). first (asking method uri) ++ crlf x)
      (header_lines-ended (sent_headers h body) (crlf body))

with_parts :
    (s : Start) (h : Headers) (body : Bytes)
    → record (message_of s [] []) { headers = h; body = body } ≡ message_of s h body
with_parts (response n reason) h body = refl
with_parts (asking method uri) h body = refl

-- A message is read back as it was written, with the Content-Length of its body among its headers:
-- a response with its status and reason, or a request with its method in capitals and its URI, with
-- headers of one line whose names are words and whose values have no blank at an end, and any body.
pub parse_message-marshal :
    (s : Start) (h : Headers) (body : Bytes)
    → IsStart s
    → All IsSendable h
    → length body < 2 ^ 63
    → parse_message (marshal (message_of s h body)) ≡ ok (message_of s (sent_headers h body) body)
parse_message-marshal s h body start sendable small =
    let hs = sent_headers h body in
    let good = sent_headers-IsSendable h body sendable in
    let ls = map line_of hs in
    let lines : All IsLine (first s ∷ ls) = (first-IsLine s start, headers-IsLine hs good) in
    ap parse_message (marshal-ended s h body)
    ∙ parse_message-read (ended (first s ∷ ls) (crlf body)) (divide-ended (first s) ls body lines)
        (unfold_lines-between (first s) ls lines)
    ∙ parse_lines-read body (first s) ls (first-read s start)
    ∙ with_headers-read body ls (message_of s [] []) (headers_loop-lines hs [] good)
        (ap (λ (v : Bytes). sized v body) (get-sent_headers h body) ∙ sized-itoa body small)
    ∙ ap ok (with_parts s hs body)
