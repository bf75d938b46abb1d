-- ===== src/Lease/Hexish.antt =====
-- `decodeHexish` of internal/lease/lease.go, with `hex.DecodeString` of Go's library.
pub mod Print
use ngntun.Base.{
  ℕ, zero, suc, ◌+◌, ◌-◌, ◌*◌, Bool, true, false, ◌&&◌, not, List, [], ◌∷◌, ◌++◌, Option, none,
  some, leb, ◌==◌, if◌then◌else◌, Bytes, codes, length, bytes_eq, Result, ok, err, ◌>>=◌, or_err,
}
use ngntun.Text.Find.{contains}
use ngntun.Text.Space.{trim, trim_space}
use ngntun.Text.Split.{split}

pub data HexError : Type 0 where
  empty bad_byte bad_text : HexError

pub hex_digit : ℕ → Option ℕ
hex_digit c =
    if leb b'0' c && leb c b'9'
    then some (c - b'0')
    else if leb b'a' c && leb c b'f'
    then some (c - b'a' + 10)
    else if leb b'A' c && leb c b'F'
    then some (c - b'A' + 10)
    else none

hex_pair : Option ℕ → Option ℕ → Option Bytes → Option Bytes
hex_pair (some h) (some l) (some b) = some ((h * 16 + l) ∷ b)
hex_pair _ _ _ = none

-- `hex.DecodeString`: an odd length and any other digit are errors.
pub hex_decode : Bytes → Option Bytes
unfolding hex_digit hex_pair
hex_decode [] = some []
hex_decode (c ∷ []) = none
hex_decode (c ∷ d ∷ s) = hex_pair (hex_digit c) (hex_digit d) (hex_decode s)

-- the byte of one part between colons
part_byte : Bytes → Result HexError Bytes
unfolding hex_decode
part_byte p =
    let p' = if length p == 1 then b'0' ∷ p else p in
    if not (length p' == 2) then err bad_byte else or_err (hex_decode p') bad_byte

parts_loop : List Bytes → Result HexError Bytes
unfolding part_byte trim_space bytes_eq
parts_loop [] = ok []
parts_loop (q ∷ ps) =
    let p = trim_space q in
    let rest = parts_loop ps in
    if bytes_eq p [] then rest else do v ← part_byte p; out ← rest; ok (v ++ out)

-- `strings.ReplaceAll(s, " ", "")`
without_blanks : Bytes → Bytes
without_blanks [] = []
without_blanks (c ∷ s) = if c == b' ' then without_blanks s else c ∷ without_blanks s

colons_or_plain : Bytes → Result HexError Bytes
unfolding parts_loop without_blanks contains split bytes_eq hex_decode
colons_or_plain s =
    if bytes_eq s []
    then err empty
    else if contains s (codes ":")
    then parts_loop (split b':' s)
    else or_err (hex_decode (without_blanks s)) bad_text

unfoldable pub decode_hexish : Bytes → Result HexError Bytes
unfolding colons_or_plain trim trim_space
decode_hexish s = colons_or_plain (trim (λ c. c == b'"') (trim_space s))
