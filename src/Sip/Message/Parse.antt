-- ===== src/Sip/Message/Parse.antt =====
-- `ParseMessage` and `unfold` of internal/sip/message.go.
use ngntun.Base.Int.{ℤ, pos, negsuc}
use ngntun.Base.{
  ℕ, Bool, true, not, ◌||◌, List, [], ◌∷◌, ◌++◌, none, some, leb, ◌==◌, if◌then◌else◌, Bytes, codes,
  bytes_eq, length, take, Result, ok, err, ◌>>=◌,
}
use ngntun.Sip.Header.{Headers, get, add}
use ngntun.Sip.Message.{Message, request}
use ngntun.Text.Case.{to_upper}
use ngntun.Text.Decimal.{atoi}
use ngntun.Text.Find.{cut_at, has_prefix}
use ngntun.Text.Space.{trim_right, trim_space}
use ngntun.Text.Split.{cut, split, fields}

pub data ParseError : Type 0 where
  empty_message bad_status_line bad_status_code bad_request_line bad_header : ParseError

-- the head and the body, divided at the first empty line
unfoldable pub divide : Bytes → Bytes × Bytes
unfolding cut_at
divide s = elim (cut_at (codes "\r\n\r\n") s) [
  | some (head, body) ↦ (head, body)
  | none ↦ elim (cut_at (codes "\n\n") s) [ some (head, body) ↦ (head, body) | none ↦ (s, []) ]
]

-- `out[len(out)-1] += " " + line`, on at least one line
extend_last : List Bytes → Bytes → List Bytes
extend_last [] line = []
extend_last (l ∷ []) line = (l ++ (b' ' ∷ line)) ∷ []
extend_last (l ∷ l' ∷ ls) line = l ∷ extend_last (l' ∷ ls) line

unfoldable pub is_blank : ℕ → Bool
is_blank c = c == b' ' || c == b'\t'

-- one round of `unfold`, on a line without its end
unfoldable pub unfold_line : Bytes → List Bytes → List Bytes
unfolding extend_last is_blank trim_space
unfold_line [] out = out
unfold_line (c ∷ s) [] = (c ∷ s) ∷ []
unfold_line (c ∷ s) (l ∷ ls) =
    if is_blank c then extend_last (l ∷ ls) (trim_space (c ∷ s)) else (l ∷ ls) ++ (c ∷ s) ∷ []

unfoldable pub unfold_loop : List Bytes → List Bytes → List Bytes
unfolding unfold_line trim_right
unfold_loop [] out = out
unfold_loop (raw ∷ raws) out = unfold_loop raws (unfold_line (trim_right (λ c. c == b'\r') raw) out)

-- `unfold`: the lines, with continuation lines joined to the one before
unfoldable pub unfold_lines : Bytes → List Bytes
unfolding unfold_loop split
unfold_lines head = unfold_loop (split b'\n' head) []

abbrev pub empty_response : ℤ → Bytes → Message
empty_response status reason = record {
  response = true;
  method = [];
  request_uri = [];
  status = status;
  reason = reason;
  headers = [];
  body = [];
}

-- the status line: the code behind the first blank, and the reason behind the second
unfoldable pub status_line : Bytes → Result ParseError Message
unfolding cut atoi
status_line l =
    let (version, rest, found) = cut b' ' l in
    let (code, reason, more) = cut b' ' rest in
    if not found
    then err bad_status_line
    else elim (atoi code) [ none ↦ err bad_status_code | some n ↦ ok (empty_response n reason) ]

unfoldable pub request_line : List Bytes → Result ParseError Message
unfolding has_prefix to_upper
request_line (method ∷ uri ∷ version ∷ []) =
    if has_prefix (codes "SIP/2.0") version
    then ok (request (to_upper method) uri [])
    else err bad_request_line
request_line _ = err bad_request_line

unfoldable pub first_line : Bytes → Result ParseError Message
unfolding status_line request_line has_prefix fields
first_line l = if has_prefix (codes "SIP/2.0") l then status_line l else request_line (fields l)

unfoldable pub headers_loop : List Bytes → Headers → Result ParseError Headers
unfolding cut trim_space add
headers_loop [] h = ok h
headers_loop (l ∷ ls) h =
    let (name, value, found) = cut b':' l in
    let rest = headers_loop ls (add h (trim_space name) (trim_space value)) in
    if not found then err bad_header else rest

-- the body that Content-Length gives, if it is a number that fits
unfoldable pub sized : Bytes → Bytes → Bytes
unfolding bytes_eq atoi trim_space
sized v body = if bytes_eq v [] then body else elim (atoi (trim_space v)) [
  | some (pos n) ↦ if leb n (length body) then take n body else body
  | some (negsuc n) ↦ body
  | none ↦ body
]

unfoldable pub with_headers : Bytes → List Bytes → Message → Result ParseError Message
unfolding headers_loop sized get
with_headers body ls m = do
  h ← headers_loop ls []
  ok (record m { headers = h; body = sized (get h (codes "Content-Length")) body })

unfoldable pub parse_lines : Bytes → List Bytes → Result ParseError Message
unfolding first_line with_headers
parse_lines body [] = err empty_message
parse_lines body (l ∷ ls) = do m ← first_line l; with_headers body ls m

-- `ParseMessage`
unfoldable pub parse_message : Bytes → Result ParseError Message
unfolding divide unfold_lines parse_lines
parse_message s = let (head, body) = divide s in parse_lines body (unfold_lines head)
