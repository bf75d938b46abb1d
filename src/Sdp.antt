-- ===== src/Sdp.antt =====
-- internal/sdp/sdp.go: the offer and the answer. An `int` that the program sets itself is a number
-- that is not negative; one that is read may be negative.
pub mod Lines
pub mod RoundTrip
use ngntun.Base.Int.{ℤ, pos, int_leb, to_nat}
use ngntun.Base.{
  ℕ, ◌%◌, ◌^◌, Bool, true, false, not, ◌&&◌, ◌||◌, List, [], ◌∷◌, ◌++◌, Option, none, some, ltb,
  ◌==◌, if◌then◌else◌, Bytes, codes, bytes_eq, Result, ok, err, ◌>>=◌, or_err,
}
use ngntun.Netip.{Addr, invalid, AddrPort, NetipText, is_valid, is4, is_unspecified, unmap}
use ngntun.Text.Decimal.{atoi, itoa}
use ngntun.Text.Find.{cut_prefix}
use ngntun.Text.Space.{trim_right, trim_space}
use ngntun.Text.Split.{cut, split, fields}

abbrev pub media_type : Bytes
media_type = codes "application"

abbrev pub media_proto : Bytes
media_proto = codes "udp"

abbrev pub media_format : Bytes
media_format = codes "octet-stream"

abbrev pub setup_active : Bytes
setup_active = codes "active"

abbrev pub setup_passive : Bytes
setup_passive = codes "passive"

pub record Offer : Type 0 where
  pub addr : Addr
  pub port : ℕ
  pub bandwidth_kbps : ℕ
  pub setup : Bytes
  pub session_id : ℕ
  pub session_ver : ℕ

pub record Answer : Type 0 where
  pub addr : Addr
  pub port : ℤ
  pub bandwidth_kbps : ℤ
  pub setup : Bytes

pub addr_type : Addr → Bytes
addr_type a = if is4 a then codes "IP4" else codes "IP6"

-- a line with its end, in front of the rest
abbrev pub line : Bytes → Bytes → Bytes
line s rest = s ++ (b'\r' ∷ b'\n' ∷ rest)

abbrev pub line_if : Bool → Bytes → Bytes → Bytes
line_if b s rest = if b then line s rest else rest

pub data SdpError : Type 0 where
  bad_connection bad_address bad_media bad_port no_media port_range no_connection : SdpError
  unspecified : SdpError

-- The variables of the loop of `ParseAnswer`; `port`, `bandwidth_kbps` and `setup` are those of the
-- answer that is built up.
pub record State : Type 0 where
  pub session_addr : Addr
  pub media_addr : Addr
  pub in_media : Bool
  pub found : Bool
  pub port : ℤ
  pub bandwidth_kbps : ℤ
  pub setup : Bytes

abbrev pub initial : State
initial = record {
  session_addr = invalid;
  media_addr = invalid;
  in_media = false;
  found = false;
  port = pos 0;
  bandwidth_kbps = pos 0;
  setup = [];
}

-- `case 'm'`
media_line : List Bytes → State → Result SdpError State
unfolding bytes_eq
media_line (f₀ ∷ f₁ ∷ f₂ ∷ f₃ ∷ fs) s =
    if not (bytes_eq f₀ media_type)
      || (not (bytes_eq f₂ media_proto) || not (bytes_eq f₃ media_format))
    then ok (record s { in_media = false })
    else elim (atoi f₁) [
      | none ↦ err bad_port
      | some n ↦ ok (record s { in_media = true; found = true; port = n })
    ]
media_line _ s = err bad_media

-- `case 'b'`
bandwidth_line : Bytes → State → State
unfolding cut_prefix
bandwidth_line val s =
    if s.in_media
    then elim (cut_prefix (codes "AS:") val) [
      | none ↦ s
      | some n ↦ elim (atoi n) [ none ↦ s | some k ↦ record s { bandwidth_kbps = k } ]
    ]
    else s

-- `case 'a'`
attribute_line : Bytes → State → State
unfolding cut_prefix
attribute_line val s =
    if s.in_media
    then elim (cut_prefix (codes "udp-setup:") val) [ none ↦ s | some t ↦ record s { setup = t } ]
    else s

module _ (text : NetipText) where
  open text use {parse_addr, addr_string}

  -- `Offer.Marshal`
  unfoldable pub marshal : Offer → Bytes
  unfolding addr_type itoa
  marshal o =
      let type = addr_type o.addr in
      let addr = addr_string o.addr in
      line (codes "v=0") (
        line
          (codes "o=- "
            ++ (itoa o.session_id
                ++ (b' ' ∷ (itoa o.session_ver ++ (codes " IN " ++ (type ++ (b' ' ∷ addr)))))))
          (line (codes "s=-") (
            line (codes "c=IN " ++ (type ++ (b' ' ∷ addr))) (
              line (codes "t=0 0") (
                line
                  (codes "m="
                    ++ (media_type
                        ++ (b' '
                            ∷ (itoa o.port ++ (b' ' ∷ (media_proto ++ (b' ' ∷ media_format)))))))
                  (line_if (ltb 0 o.bandwidth_kbps) (codes "b=AS:" ++ itoa o.bandwidth_kbps)
                    (line_if (not (bytes_eq o.setup [])) (codes "a=udp-setup:" ++ o.setup) [])))))))

  -- `parseConnection`, on the fields of the line
  connection : List Bytes → Result SdpError Addr
  unfolding cut unmap
  connection (f₀ ∷ f₁ ∷ f₂ ∷ fs) = elim (parse_addr (cut b'/' f₂).0) [
    | none ↦ err bad_address
    | some a ↦ ok (unmap a)
  ]
  connection _ = err bad_connection

  parse_connection : Bytes → Result SdpError Addr
  unfolding connection fields
  parse_connection val = connection (fields val)

  -- `case 'c'`
  connection_line : Bytes → State → Result SdpError State
  unfolding parse_connection
  connection_line val s = do
    addr ← parse_connection val
    ok (if s.in_media then record s { media_addr = addr } else record s { session_addr = addr })

  -- the `switch key` of the loop
  parse_line : ℕ → Bytes → State → Result SdpError State
  unfolding connection_line media_line bandwidth_line attribute_line fields
  parse_line key val s =
      if key == b'c'
      then connection_line val s
      else if key == b'm'
      then media_line (fields val) s
      else if key == b'b'
      then ok (bandwidth_line val s)
      else if key == b'a'
      then ok (attribute_line val s)
      else ok s

  -- one round, on a line without its end; a line that is no `k=…` is passed over
  unfoldable pub parse_body : Bytes → State → Result SdpError State
  unfolding parse_line trim_space
  parse_body (key ∷ eq ∷ rest) s =
      if not (eq == b'=') then ok s else parse_line key (trim_space rest) s
  parse_body _ s = ok s

  unfoldable pub lines_loop : List Bytes → State → Result SdpError State
  unfolding parse_body trim_right
  lines_loop [] s = ok s
  lines_loop (l ∷ ls) s = do s' ← parse_body (trim_right (λ c. c == b'\r') l) s; lines_loop ls s'

  -- the checks behind the loop
  finish : State → Result SdpError Answer
  unfolding is_unspecified
  finish s =
      if not s.found
      then err no_media
      else if int_leb s.port (pos 0) || not (int_leb s.port (pos 65535))
      then err port_range
      else let addr = if is_valid s.media_addr then s.media_addr else s.session_addr in
        if not (is_valid addr)
        then err no_connection
        else if is_unspecified addr
        then err unspecified
        else ok (record {
          addr = addr;
          port = s.port;
          bandwidth_kbps = s.bandwidth_kbps;
          setup = s.setup;
        })

  unfoldable pub parse_answer : Bytes → Result SdpError Answer
  unfolding lines_loop finish split
  parse_answer body = do s ← lines_loop (split b'\n' body) initial; finish s

-- `Answer.AddrPort`; `uint16(a.Port)` of a port that `ParseAnswer` has let through
unfoldable pub addr_port : Answer → AddrPort
addr_port a = record { addr = a.addr; port = to_nat a.port % 2 ^ 16 }
