-- ===== src/Sip/Message.antt =====
-- `Message` of internal/sip/message.go: parsing, printing and the questions that are asked of it.
pub mod Checked
pub mod HeaderLines
pub mod Lines
pub mod Parse
pub mod RoundTrip
pub mod Sendable
use ngntun.Base.Int.{ℤ, pos, negsuc, int_leb, int_ltb}
use ngntun.Base.{
  ℕ, ◌^◌, Bool, true, false, not, ◌&&◌, ◌||◌, List, [], ◌∷◌, ◌++◌, Option, none, some, ◌==◌,
  if◌then◌else◌, Bytes, codes, bytes_eq, length,
}
use ngntun.Sip.Header.{Header, Headers, get, set}
use ngntun.Sip.Param.{param}
use ngntun.Text.Case.{to_upper}
use ngntun.Text.Decimal.{format_int, itoa, parse_uint}
use ngntun.Text.Split.{fields}

pub record Message : Type 0 where
  pub response : Bool
  pub method : Bytes
  pub request_uri : Bytes
  pub status : ℤ
  pub reason : Bytes
  pub headers : Headers
  pub body : Bytes

abbrev pub request : Bytes → Bytes → Headers → Message
request method uri h = record {
  response = false;
  method = method;
  request_uri = uri;
  status = pos 0;
  reason = [];
  headers = h;
  body = [];
}

abbrev pub crlf : Bytes → Bytes
crlf rest = b'\r' ∷ b'\n' ∷ rest

unfoldable pub start_line : Message → Bytes
unfolding format_int
start_line m =
    if m.response
    then codes "SIP/2.0 " ++ (format_int m.status ++ (b' ' ∷ m.reason))
    else m.method ++ (b' ' ∷ (m.request_uri ++ codes " SIP/2.0"))

unfoldable pub header_lines : Headers → Bytes → Bytes
header_lines [] rest = rest
header_lines (hd ∷ h) rest = hd.name ++ (codes ": " ++ (hd.value ++ crlf (header_lines h rest)))

-- `Marshal`
unfoldable pub marshal : Message → Bytes
unfolding start_line header_lines itoa set
marshal m =
    let h = set m.headers (codes "Content-Length") (itoa (length m.body)) in
    start_line m ++ crlf (header_lines h (crlf m.body))

cseq_of : List Bytes → ℕ × Bytes
unfolding to_upper
cseq_of (n ∷ method ∷ fs) = elim (parse_uint (2 ^ 32) n) [
  | none ↦ (0, [])
  | some k ↦ (k, to_upper method)
]
cseq_of _ = (0, [])

-- `CSeq`: the number and the method
unfoldable pub cseq : Message → ℕ × Bytes
unfolding cseq_of fields get
cseq m = cseq_of (fields (get m.headers (codes "CSeq")))

-- `Branch`
unfoldable pub branch : Message → Bytes
unfolding get param
branch m = param (get m.headers (codes "Via")) (codes "branch")

-- `CallID`
unfoldable pub call_id : Message → Bytes
unfolding get
call_id m = get m.headers (codes "Call-ID")

unfoldable pub is_provisional : Message → Bool
is_provisional m = m.response && (int_leb (pos 100) m.status && int_ltb m.status (pos 200))

unfoldable pub is_success : Message → Bool
is_success m = m.response && (int_leb (pos 200) m.status && int_ltb m.status (pos 300))

unfoldable pub is_final : Message → Bool
is_final m = m.response && int_leb (pos 200) m.status
