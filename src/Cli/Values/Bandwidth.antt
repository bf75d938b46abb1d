-- ===== src/Cli/Values/Bandwidth.antt =====
-- What `parseBandwidth` of cmd/ngntun/main.go makes of a number with its unit.
use ngntun.Base.Int.{pos, negsuc, to_int64}
use ngntun.Base.{
  ℕ, ◌*◌, ◌^◌, ◌<◌, false, [], ◌∷◌, ◌++◌, append-nil, none, some, ◌==◌, ◌≡◌, ◌≢◌, refl, ap, ◌∙◌,
  Bytes, codes, bytes_eq, arith, All, All-append, All-imp,
}
use ngntun.Cli.Values.{cut_last, scaled, bandwidth_of, parse_bandwidth}
use ngntun.Text.Case.{to_lower, lower_byte}
use ngntun.Text.Decimal.{itoa, atoi, is_digit, IsDigit, itoa-IsDigit, itoa-ne-nil, atoi-itoa}
use ngntun.Text.Space.{trim_space, is_space, All-trim}

-- the units that can stand behind a number
pub data BandwidthUnit : Type 0 where
  unwritten lower_k upper_k lower_m upper_m : BandwidthUnit

abbrev pub unit_text : BandwidthUnit → Bytes
unit_text unwritten = []
unit_text lower_k = b'k' ∷ []
unit_text upper_k = b'K' ∷ []
unit_text lower_m = b'm' ∷ []
unit_text upper_m = b'M' ∷ []

abbrev pub factor : BandwidthUnit → ℕ
factor lower_m = 1000
factor upper_m = 1000
factor _ = 1

to_lower-digits : (s t : Bytes) → All IsDigit s → to_lower (s ++ t) ≡ s ++ to_lower t
unfolding to_lower lower_byte is_digit
to_lower-digits [] t h = refl
to_lower-digits (c ∷ s) t h = let rest = to_lower-digits s t h.1 in let digit = h.0 in grind arith

cut_last-append : (c : ℕ) (s : Bytes) → cut_last c (s ++ c ∷ []) ≡ some s
unfolding cut_last
cut_last-append c [] = ground arith
cut_last-append c (d ∷ []) = ground arith
cut_last-append c (d ∷ (e ∷ s)) = rw (cut_last-append c (e ∷ s)) refl

cut_last-other : (c : ℕ) (s : Bytes) → All (λ d. (d == c) ≡ false) s → cut_last c s ≡ none
unfolding cut_last
cut_last-other c [] h = refl
cut_last-other c (d ∷ []) h = rw h.0 refl
cut_last-other c (d ∷ (e ∷ s)) h = rw (cut_last-other c (e ∷ s) h.1) refl

scaled-itoa :
    (mult n : ℕ)
    → 0 < n
    → n < 2 ^ 63
    → n * mult < 2 ^ 63
    → scaled mult (itoa n) ≡ some (pos (n * mult))
unfolding scaled to_int64
scaled-itoa mult n positive small bound =
    let found = atoi-itoa n small in rw (found, scaled) (ground arith)

digit-clear : (c : ℕ) → IsDigit c → is_space c ≡ false
unfolding is_space
digit-clear c h = ground (arith, h.0, h.1)

digit-other : (c d : ℕ) → b'9' < c → IsDigit d → (d == c) ≡ false
digit-other c d h k = ground (arith, k.1)

trim_space-digits :
    (s t : Bytes) → All IsDigit s → All (λ c. is_space c ≡ false) t → trim_space (s ++ t) ≡ s ++ t
unfolding trim_space
trim_space-digits s t h k =
    All-trim is_space (s ++ t)
      (All-append (λ c. is_space c ≡ false) s t (All-imp IsDigit _ s digit-clear h) k)

-- a number with no last byte `c`
no_last :
    (c n : ℕ) (t : Bytes)
    → b'9' < c
    → All (λ d. (d == c) ≡ false) t
    → cut_last c (itoa n ++ t) ≡ none
no_last c n t h k =
    let digits =
      All-imp IsDigit (λ d. (d == c) ≡ false) (itoa n) (λ d. digit-other c d h) (itoa-IsDigit n) in
    cut_last-other c (itoa n ++ t) (All-append (λ d. (d == c) ≡ false) (itoa n) t digits k)

bandwidth_of-k : (s : Bytes) {t : Bytes} → cut_last b'k' s ≡ some t → bandwidth_of s ≡ scaled 1 t
unfolding bandwidth_of
bandwidth_of-k s e = rw (e, bandwidth_of) refl

bandwidth_of-m :
    (s : Bytes) {t : Bytes}
    → cut_last b'k' s ≡ none
    → cut_last b'm' s ≡ some t
    → bandwidth_of s ≡ scaled 1000 t
unfolding bandwidth_of
bandwidth_of-m s e f = rw (e, f, bandwidth_of) refl

bandwidth_of-none :
    (s : Bytes) → cut_last b'k' s ≡ none → cut_last b'm' s ≡ none → bandwidth_of s ≡ scaled 1 s
unfolding bandwidth_of
bandwidth_of-none s e f = rw (e, f, bandwidth_of) refl

-- the number behind its unit in lower case
bandwidth_of-itoa :
    (u : BandwidthUnit) (n : ℕ)
    → 0 < n
    → n * factor u < 2 ^ 63
    → bandwidth_of (itoa n ++ to_lower (unit_text u)) ≡ some (pos (n * factor u))
unfolding to_lower lower_byte
bandwidth_of-itoa unwritten n h k =
    bandwidth_of-none (itoa n ++ []) (no_last b'k' n [] (omega arith) tt)
      (no_last b'm' n [] (omega arith) tt)
    ∙ ap (scaled 1) (append-nil (itoa n))
    ∙ scaled-itoa 1 n h (omega arith) k
bandwidth_of-itoa lower_k n h k =
    bandwidth_of-k _ (cut_last-append b'k' (itoa n)) ∙ scaled-itoa 1 n h (omega arith) k
bandwidth_of-itoa upper_k n h k =
    bandwidth_of-k _ (cut_last-append b'k' (itoa n)) ∙ scaled-itoa 1 n h (omega arith) k
bandwidth_of-itoa lower_m n h k =
    bandwidth_of-m _ (no_last b'k' n (b'm' ∷ []) (omega arith) (refl, tt))
      (cut_last-append b'm' (itoa n))
    ∙ scaled-itoa 1000 n h (omega arith) k
bandwidth_of-itoa upper_m n h k =
    bandwidth_of-m _ (no_last b'k' n (b'm' ∷ []) (omega arith) (refl, tt))
      (cut_last-append b'm' (itoa n))
    ∙ scaled-itoa 1000 n h (omega arith) k

unit-clear : (u : BandwidthUnit) → All (λ c. is_space c ≡ false) (to_lower (unit_text u))
unfolding to_lower lower_byte is_space
unit-clear unwritten = tt
unit-clear lower_k = (refl, tt)
unit-clear upper_k = (refl, tt)
unit-clear lower_m = (refl, tt)
unit-clear upper_m = (refl, tt)

parse_bandwidth-trimmed :
    (text s : Bytes)
    → trim_space (to_lower text) ≡ s
    → s ≢ []
    → parse_bandwidth text ≡ bandwidth_of s
unfolding parse_bandwidth bytes_eq
parse_bandwidth-trimmed text [] e ne = absurd (ne refl)
parse_bandwidth-trimmed text (c ∷ s) e ne = rw (e, parse_bandwidth) refl

itoa-append-ne-nil : (n : ℕ) (t : Bytes) → itoa n ++ t ≢ []
itoa-append-ne-nil n t = starts (itoa n) (itoa-ne-nil n)
  where
    starts : (s : Bytes) → s ≢ [] → s ++ t ≢ []
    starts [] ne = absurd (ne refl)
    starts (c ∷ s) ne = λ e. cc

-- A number that is not 0, in decimal, with any of the units `k` and `m` in either case, or with none,
-- is read as the number of kbit/s that it names, as long as that is an int64.
pub parse_bandwidth-itoa :
    (u : BandwidthUnit) (n : ℕ)
    → 0 < n
    → n * factor u < 2 ^ 63
    → parse_bandwidth (itoa n ++ unit_text u) ≡ some (pos (n * factor u))
parse_bandwidth-itoa u n h k =
    let digits = itoa-IsDigit n in
    parse_bandwidth-trimmed (itoa n ++ unit_text u) (itoa n ++ to_lower (unit_text u))
      (ap trim_space (to_lower-digits (itoa n) (unit_text u) digits)
        ∙ trim_space-digits (itoa n) (to_lower (unit_text u)) digits (unit-clear u))
      (itoa-append-ne-nil n (to_lower (unit_text u)))
    ∙ bandwidth_of-itoa u n h k

-- From 2 ^ 63 on the product wraps around: this many Mbit/s are a negative number of kbit/s.
parse_bandwidth_wrap :
    parse_bandwidth (codes "9223372036854776m") ≡ some (negsuc 9223372036854775615)
unfolding parse_bandwidth bandwidth_of cut_last scaled atoi to_int64 trim_space to_lower lower_byte
    is_space bytes_eq
parse_bandwidth_wrap = refl
