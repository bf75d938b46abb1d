-- ===== src/Cli/Values.antt =====
-- The values of options that cmd/ngntun/main.go reads itself: `parseBandwidth`, `parseMediaRoute` and
-- `newLogger`.
pub mod Bandwidth
use ngntun.Base.Int.{ℤ, pos, negsuc, to_int64}
use ngntun.Base.{
  ℕ, ◌*◌, ◌%◌, ◌^◌, Bool, true, false, ◌||◌, List, [], ◌∷◌, Option, none, some, ◌==◌, if◌then◌else◌,
  Bytes, codes, bytes_eq,
}
use ngntun.Text.Case.{to_lower}
use ngntun.Text.Decimal.{atoi}
use ngntun.Text.Space.{trim_space}

-- the text before a last byte `c`, if it ends in one
unfoldable pub cut_last : ℕ → Bytes → Option Bytes
cut_last c [] = none
cut_last c (d ∷ []) = if d == c then some [] else none
cut_last c (d ∷ e ∷ s) =
    let rest = cut_last c (e ∷ s) in elim rest [ none ↦ none | some t ↦ some (d ∷ t) ]

-- the number with its factor; the product wraps around at 64 bits
unfoldable pub scaled : ℕ → Bytes → Option ℤ
unfolding atoi to_int64
scaled mult s = elim (atoi s) [
  | none ↦ none
  | some (negsuc n) ↦ none
  | some (pos n) ↦ if n == 0 then none else some (to_int64 (n * mult % 2 ^ 64))
]

-- the number in kbit/s, with its unit
unfoldable pub bandwidth_of : Bytes → Option ℤ
unfolding cut_last scaled
bandwidth_of s = elim (cut_last b'k' s) [
  | some t ↦ scaled 1 t
  | none ↦ elim (cut_last b'm' s) [ some t ↦ scaled 1000 t | none ↦ scaled 1 s ]
]

-- `parseBandwidth`
unfoldable pub parse_bandwidth : Bytes → Option ℤ
unfolding trim_space to_lower bandwidth_of bytes_eq
parse_bandwidth text =
    let s = trim_space (to_lower text) in if bytes_eq s [] then some (pos 64) else bandwidth_of s

-- `parseMediaRoute`
unfoldable pub parse_media_route : Bytes → Option Bool
unfolding trim_space to_lower bytes_eq
parse_media_route text =
    let s = to_lower (trim_space text) in
    if bytes_eq s (codes "auto") || bytes_eq s []
    then some true
    else if bytes_eq s (codes "off")
    then some false
    else none

-- `--register-transport`: whether it is IPv6
unfoldable pub parse_register_transport : Bytes → Option Bool
unfolding to_lower bytes_eq
parse_register_transport text =
    let s = to_lower text in
    if bytes_eq s (codes "ipv4") || bytes_eq s (codes "4")
    then some false
    else if bytes_eq s (codes "ipv6") || bytes_eq s (codes "6")
    then some true
    else none

pub data Level : Type 0 where
  trace debug info warn error : Level

pub data Format : Type 0 where
  plain_text json : Format

parse_level : Bytes → Option Level
unfolding bytes_eq
parse_level s =
    if bytes_eq s (codes "trace")
    then some trace
    else if bytes_eq s (codes "debug")
    then some debug
    else if bytes_eq s (codes "info")
    then some info
    else if bytes_eq s (codes "warn") || bytes_eq s (codes "warning")
    then some warn
    else if bytes_eq s (codes "error")
    then some error
    else none

parse_format : Bytes → Option Format
unfolding bytes_eq
parse_format s =
    if bytes_eq s (codes "text")
    then some plain_text
    else if bytes_eq s (codes "json")
    then some json
    else none

-- `newLogger`
unfoldable pub new_logger : Bytes → Bytes → Option (Level × Format)
unfolding parse_level parse_format to_lower
new_logger level format = elim (parse_level (to_lower level)) [
  | none ↦ none
  | some l ↦ elim (parse_format (to_lower format)) [ none ↦ none | some f ↦ some (l, f) ]
]
