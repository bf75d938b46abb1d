-- ===== src/Text/Decimal.antt =====
-- `strconv.Itoa`, `strconv.Atoi` and `strconv.ParseUint` in base 10.
use ngntun.Base.{
  ℕ, zero, suc, ◌+◌, ◌-◌, ◌*◌, ◌/◌, ◌%◌, ◌^◌, ◌<◌, ◌≤◌, Bool, true, false, ◌&&◌, [], ◌∷◌, Option,
  none, some, ◌≡◌, ◌≢◌, refl, ltb, leb, ◌==◌, if◌then◌else◌, Bytes, All, arith, Bool-cases, inl,
  inr, ltb→lt, le→leb, ◌∙◌, ap,
}
use ngntun.Base.Int.{ℤ, pos, negsuc}

-- The decimal digits of a number, in front of `out`. A number below the fuel gets all its digits.
digits_onto : ℕ → ℕ → Bytes → Bytes
digits_onto zero n out = out
digits_onto (suc f) n out = elim (ltb n 10) [
  | true ↦ (b'0' + n) ∷ out
  | false ↦ digits_onto f (n / 10) ((b'0' + n % 10) ∷ out)
]

unfoldable pub itoa : ℕ → Bytes
unfolding digits_onto
itoa n = digits_onto (suc n) n []

-- An `int`, with its sign.
unfoldable pub format_int : ℤ → Bytes
unfolding itoa
format_int (pos n) = itoa n
format_int (negsuc n) = b'-' ∷ itoa (suc n)

unfoldable pub is_digit : ℕ → Bool
is_digit c = leb b'0' c && leb c b'9'

-- The number that digits spell behind `n`; `none` at any other byte.
pub scan : Bytes → ℕ → Option ℕ
unfolding is_digit
scan [] n = some n
scan (c ∷ s) n = let rest = scan s (n * 10 + (c - b'0')) in if is_digit c then rest else none

below : ℕ → Option ℕ → Option ℕ
below m none = none
below m (some n) = if ltb n m then some n else none

-- One or more digits, for a value below the bound; every other text is an error.
unfoldable pub parse_below : ℕ → Bytes → Option ℕ
unfolding scan below
parse_below m [] = none
parse_below m (c ∷ s) = below m (scan (c ∷ s) 0)

negate : Option ℕ → Option ℤ
negate none = none
negate (some zero) = some (pos 0)
negate (some (suc n)) = some (negsuc n)

as_pos : Option ℕ → Option ℤ
as_pos none = none
as_pos (some n) = some (pos n)

-- A sign may stand in front; the range is that of a 64-bit `int`.
unfoldable pub atoi : Bytes → Option ℤ
unfolding parse_below negate as_pos
atoi [] = none
atoi (c ∷ s) =
    if c == b'-'
    then negate (parse_below (2 ^ 63 + 1) s)
    else if c == b'+'
    then as_pos (parse_below (2 ^ 63) s)
    else as_pos (parse_below (2 ^ 63) (c ∷ s))

-- `strconv.ParseUint(s, 10, bits)` for the bound 2 ^ bits
abbrev pub parse_uint : ℕ → Bytes → Option ℕ
parse_uint m s = parse_below m s

is_digit-add : (d : ℕ) → d < 10 → is_digit (b'0' + d) ≡ true
unfolding is_digit
is_digit-add d h = rw (le→leb b'0' (b'0' + d) (omega arith)) (le→leb (b'0' + d) b'9' (omega arith))

scan_digit : (d n : ℕ) (s : Bytes) → d < 10 → scan ((b'0' + d) ∷ s) n ≡ scan s (n * 10 + d)
unfolding scan
scan_digit d n s h = rw (is_digit-add d h) (ap (λ k. scan s (n * 10 + k)) (omega arith))

-- Reading the digits of a number goes on with that number.
scan-digits_onto : (f n : ℕ) (out : Bytes) → n < f → scan (digits_onto f n out) 0 ≡ scan out n
unfolding digits_onto
scan-digits_onto zero n out h = absurd (omega arith)
scan-digits_onto (suc f) n out h = elim (Bool-cases (ltb n 10)) [
  | inl small ↦
      rw (small, digits_onto) (scan_digit n 0 out (ltb→lt n 10 small) ∙ ap (scan out) (omega arith))
  | inr big ↦
      rw (big, digits_onto)
        (scan-digits_onto f (n / 10) ((b'0' + n % 10) ∷ out) (ground arith)
          ∙ scan_digit (n % 10) (n / 10) out (omega arith)
          ∙ ap (scan out) (omega arith))
]

pub scan-itoa : (n : ℕ) → scan (itoa n) 0 ≡ some n
unfolding itoa scan
scan-itoa n = scan-digits_onto (suc n) n [] (omega arith)

abbrev pub IsDigit : ℕ → Type 0
IsDigit c = (b'0' ≤ c) × (c ≤ b'9')

digits_onto-IsDigit : (f n : ℕ) (out : Bytes) → All IsDigit out → All IsDigit (digits_onto f n out)
unfolding digits_onto
digits_onto-IsDigit zero n out h = h
digits_onto-IsDigit (suc f) n out h = elim (Bool-cases (ltb n 10)) [
  | inl small ↦
      rw (small, digits_onto)
        ((omega (arith, ltb→lt n 10 small), omega (arith, ltb→lt n 10 small)), h)
  | inr big ↦
      rw (big, digits_onto) (digits_onto-IsDigit f (n / 10) _ ((omega arith, omega arith), h))
]

pub itoa-IsDigit : (n : ℕ) → All IsDigit (itoa n)
unfolding itoa
itoa-IsDigit n = digits_onto-IsDigit (suc n) n [] tt

digits_onto-ne-nil : (f n : ℕ) (out : Bytes) → out ≢ [] → digits_onto f n out ≢ []
unfolding digits_onto
digits_onto-ne-nil zero n out h = h
digits_onto-ne-nil (suc f) n out h = elim (Bool-cases (ltb n 10)) [
  | inl small ↦ rw (small, digits_onto) (λ e. cc)
  | inr big ↦ rw (big, digits_onto) (digits_onto-ne-nil f (n / 10) _ (λ e. cc))
]

pub itoa-ne-nil : (n : ℕ) → itoa n ≢ []
unfolding itoa digits_onto
itoa-ne-nil n = elim (Bool-cases (ltb n 10)) [
  | inl small ↦ rw (small, digits_onto) (λ e. cc)
  | inr big ↦ rw (big, digits_onto) (digits_onto-ne-nil n (n / 10) _ (λ e. cc))
]

parse_below-scan : (m : ℕ) (s : Bytes) → s ≢ [] → parse_below m s ≡ below m (scan s 0)
unfolding parse_below
parse_below-scan m [] h = absurd (h refl)
parse_below-scan m (c ∷ s) h = refl

-- A number below the bound is read back from its decimal print.
pub parse_below-itoa : (m n : ℕ) → n < m → parse_below m (itoa n) ≡ some n
unfolding below
parse_below-itoa m n h =
    parse_below-scan m (itoa n) (itoa-ne-nil n) ∙ ap (below m) (scan-itoa n) ∙ ground arith

atoi_digit : (c : ℕ) (s : Bytes) → IsDigit c → atoi (c ∷ s) ≡ as_pos (parse_below (2 ^ 63) (c ∷ s))
unfolding atoi
atoi_digit c s h = elim (Bool-cases (c == b'-')) [
  | inl e ↦ absurd (ground arith)
  | inr n ↦ elim (Bool-cases (c == b'+')) [ inl e ↦ absurd (ground arith) | inr m ↦ rw n (rw m) ]
]

atoi-digits : (s : Bytes) → s ≢ [] → All IsDigit s → atoi s ≡ as_pos (parse_below (2 ^ 63) s)
atoi-digits [] ne h = absurd (ne refl)
atoi-digits (c ∷ s) ne h = atoi_digit c s h.0

-- An `int` that is not negative is read back from its decimal print.
pub atoi-itoa : (n : ℕ) → n < 2 ^ 63 → atoi (itoa n) ≡ some (pos n)
unfolding as_pos
atoi-itoa n h =
    atoi-digits (itoa n) (itoa-ne-nil n) (itoa-IsDigit n)
    ∙ ap as_pos (parse_below-itoa (2 ^ 63) n h)
