-- ===== src/Sip/Expires.antt =====
-- The lifetimes that internal/sip reads from headers: `parseSessionExpires` of dialog.go and
-- `registeredExpires` of ua.go, with the interval of internal/session/session.go that follows from
-- the latter. A `time.Duration` is an int64 of nanoseconds, and a product with `time.Second` wraps.
pub mod Bounds
use ngntun.Base.Int.{ℤ, pos, negsuc, int_ltb, to_int64}
use ngntun.Base.{
  ℕ, zero, suc, ◌+◌, ◌-◌, ◌==◌, ◌*◌, ◌/◌, Bool, List, [], ◌∷◌, Option, none, some, if◌then◌else◌,
  Bytes, codes,
}
use ngntun.Sip.Header.{get, values}
use ngntun.Sip.Message.{Message}
use ngntun.Sip.Param.{param}
use ngntun.Text.Case.{to_lower}
use ngntun.Text.Decimal.{atoi}
use ngntun.Text.Space.{trim_space}
use ngntun.Text.Split.{cut}

abbrev pub second : ℕ
second = 1000000000

-- `time.Duration(n) * time.Second`
unfoldable pub seconds : ℕ → ℤ
unfolding to_int64
seconds n = to_int64 (n * second)

-- `n, err := strconv.Atoi(s); err == nil && n > 0`
unfoldable pub positive : Bytes → Option ℕ
unfolding atoi
positive s = elim (atoi s) [
  | some (pos (suc n)) ↦ some (suc n)
  | some (pos zero) ↦ none
  | some (negsuc n) ↦ none
  | none ↦ none
]

unfoldable pub seconds_or : ℤ → Option ℕ → ℤ
unfolding seconds
seconds_or fallback none = fallback
seconds_or fallback (some n) = seconds n

read_session_expires : Bytes → ℤ → ℤ × Bytes
unfolding seconds_or positive cut trim_space param to_lower
read_session_expires [] fallback = (fallback, [])
read_session_expires (c ∷ v) fallback = (
  seconds_or fallback (positive (trim_space (cut b';' (c ∷ v)).0)),
  to_lower (param (c ∷ v) (codes "refresher")),
)

-- `parseSessionExpires`
unfoldable pub parse_session_expires : Message → ℤ → ℤ × Bytes
unfolding read_session_expires get
parse_session_expires m fallback =
    read_session_expires (get m.headers (codes "Session-Expires")) fallback

-- the loop over the Contact headers; `Atoi` refuses the empty text too
unfoldable pub contact_expires : List Bytes → Option ℕ
unfolding positive param
contact_expires [] = none
contact_expires (c ∷ cs) = elim (positive (param c (codes "expires"))) [
  | some n ↦ some n
  | none ↦ contact_expires cs
]

-- `registeredExpires`
unfoldable pub registered_expires : Message → ℤ → ℤ
unfolding positive contact_expires seconds_or get values trim_space
registered_expires resp fallback =
    elim (positive (trim_space (get resp.headers (codes "Expires")))) [
      | some n ↦ seconds_or fallback (some n)
      | none ↦ seconds_or fallback (contact_expires (values resp.headers (codes "Contact")))
    ]

abbrev half : ℤ → ℤ
half (pos n) = pos (n / 2)
half (negsuc n) = negsuc n

-- the interval of `refreshRegistration`, at least a minute; the half of a negative duration is
-- below a minute whatever it is
unfoldable pub refresh_interval : ℤ → ℤ
refresh_interval expires =
    let interval = half expires in
    if int_ltb interval (pos (60 * second)) then pos (60 * second) else interval

-- `int(d.Seconds())`
abbrev pub whole_seconds : ℤ → ℤ
whole_seconds (pos n) = pos (n / second)
whole_seconds (negsuc n) = if (n + 1) / second == 0 then pos 0 else negsuc ((n + 1) / second - 1)
