-- ===== src/Lease/Hexish/Print.antt =====
-- `decodeHexish` of internal/lease/lease.go reads back what a DHCP client prints.
use ngntun.Base.{
  ℕ, ◌+◌, ◌-◌, ◌/◌, ◌%◌, ◌<◌, ◌≤◌, true, false, List, [], ◌∷◌, ◌++◌, some, ◌≡◌, ◌≢◌, refl, ap, ◌∙◌,
  ltb, ◌==◌, if◌then◌else◌, Bytes, codes, bytes_eq, ok, All, All-append, All-imp, IsByte, arith,
}
use ngntun.Lease.Hexish.{
  hex_digit, hex_pair, hex_decode, part_byte, parts_loop, without_blanks, colons_or_plain,
  decode_hexish,
}
use ngntun.Text.Find.{contains, contains_byte, contains-Lacks}
use ngntun.Text.Space.{is_space, trim, trim_space, All-trim}
use ngntun.Text.Split.{split, join, split-append, split-Lacks}

-- a hexadecimal digit, in lower case
pub hex_char : ℕ → ℕ
hex_char n = if ltb n 10 then b'0' + n else b'a' + (n - 10)

-- two digits for each byte
pub print_byte : ℕ → Bytes
unfolding hex_char
print_byte b = hex_char (b / 16) ∷ hex_char (b % 16) ∷ []

pub print_all : List ℕ → Bytes
unfolding print_byte
print_all [] = []
print_all (b ∷ bs) = print_byte b ++ print_all bs

-- A part between colons may leave out a leading zero.
pub data Prints : Bytes → ℕ → Type 0 where
  full : (b : ℕ) → b < 256 → Prints (print_byte b) b
  short : (b : ℕ) → b < 16 → Prints (hex_char b ∷ []) b

pub data AllPrint : List Bytes → List ℕ → Type 0 where
  nil : AllPrint [] []
  cons :
      {p : Bytes} {b : ℕ} {ps : List Bytes} {bs : List ℕ}
      → Prints p b
      → AllPrint ps bs
      → AllPrint (p ∷ ps) (b ∷ bs)

hex_digit-hex_char : (n : ℕ) → n < 16 → hex_digit (hex_char n) ≡ some n
unfolding hex_digit hex_char
hex_digit-hex_char n h = ground arith

-- neither a blank nor a quote nor a colon
abbrev IsPlain : ℕ → Type 0
IsPlain c = (b'0' ≤ c) × (c ≤ b'f') × (c ≢ b':')

hex_char-IsPlain : (n : ℕ) → n < 16 → IsPlain (hex_char n)
unfolding hex_char
hex_char-IsPlain n h = (ground arith, ground arith, λ e. ground arith)

print_all-IsPlain : (bs : List ℕ) → All IsByte bs → All IsPlain (print_all bs)
unfolding print_all
print_all-IsPlain [] h = tt
print_all-IsPlain (b ∷ bs) (hb, h) = (
  hex_char-IsPlain (b / 16) (omega arith),
  (hex_char-IsPlain (b % 16) (omega arith), print_all-IsPlain bs h),
)

hex_decode-print_all : (bs : List ℕ) → All IsByte bs → hex_decode (print_all bs) ≡ some bs
unfolding hex_decode print_all hex_pair
hex_decode-print_all [] h = refl
hex_decode-print_all (b ∷ bs) (hb, h) = rw (hex_digit-hex_char (b / 16) (omega arith)) (
    rw (hex_digit-hex_char (b % 16) (omega arith))
      (rw (hex_decode-print_all bs h) (ap (λ n. some (n ∷ bs)) (omega arith))))

unquoted :
    (c : ℕ) → IsPlain c → (is_space c ≡ false) × ((c == b'"') ≡ false) × ((c == b' ') ≡ false)
unfolding is_space
unquoted c h = (ground arith, ground arith, ground arith)

-- neither a blank nor a quote
abbrev IsDense : ℕ → Type 0
IsDense c = (b'0' ≤ c) × (c ≤ b'f')

trims : (s : Bytes) → All IsDense s → trim (λ c. c == b'"') (trim_space s) ≡ s
unfolding trim_space is_space
trims s h =
    rw (All-trim is_space s (All-imp IsDense _ s (λ c d. ground arith) h))
      (All-trim (λ c. c == b'"') s (All-imp IsDense _ s (λ c d. ground arith) h))

without_blanks-Clear : (s : Bytes) → All IsDense s → without_blanks s ≡ s
unfolding without_blanks
without_blanks-Clear [] h = refl
without_blanks-Clear (c ∷ s) h = ground (arith, without_blanks-Clear s h.1)

nonempty : (s : Bytes) → s ≢ [] → bytes_eq s [] ≡ false
unfolding bytes_eq
nonempty [] h = absurd (h refl)
nonempty (c ∷ s) h = refl

-- Bytes that are printed as two hexadecimal digits each, with nothing between them, are read back.
pub decode_hexish-print_all :
    (b : ℕ) (bs : List ℕ) → All IsByte (b ∷ bs) → decode_hexish (print_all (b ∷ bs)) ≡ ok (b ∷ bs)
unfolding decode_hexish colons_or_plain
decode_hexish-print_all b bs h =
    let s = print_all (b ∷ bs) in
    let plain = print_all-IsPlain (b ∷ bs) h in
    let dense = All-imp IsPlain IsDense s (λ c p. (p.0, p.1)) plain in
    rw (trims s dense) (
      rw (nonempty s (unfold print_all in (λ e. cc))) (
        rw (contains-Lacks b':' s (All-imp IsPlain _ s (λ c p. ground arith) plain))
          (rw (without_blanks-Clear s dense) (rw (hex_decode-print_all (b ∷ bs) h)))))

Prints-IsPlain : {p : Bytes} {b : ℕ} → Prints p b → All IsPlain p
unfolding print_byte
Prints-IsPlain (full b h) =
    (hex_char-IsPlain (b / 16) (omega arith), (hex_char-IsPlain (b % 16) (omega arith), tt))
Prints-IsPlain (short b h) = (hex_char-IsPlain b h, tt)

hex_digit_zero : hex_digit b'0' ≡ some 0
unfolding hex_digit
hex_digit_zero = refl

part_byte-Prints : {p : Bytes} {b : ℕ} → Prints p b → part_byte p ≡ ok (b ∷ [])
unfolding part_byte print_byte hex_decode hex_pair
part_byte-Prints (full b h) =
    rw (hex_digit-hex_char (b / 16) (omega arith))
      (rw (hex_digit-hex_char (b % 16) (omega arith)) (ap (λ n. ok (n ∷ [])) (omega arith)))
part_byte-Prints (short b h) =
    rw hex_digit_zero (rw (hex_digit-hex_char b h) (ap (λ n. ok (n ∷ [])) (omega arith)))

Prints-ne-nil : {p : Bytes} {b : ℕ} → Prints p b → p ≢ []
unfolding print_byte
Prints-ne-nil (full b h) e = cc
Prints-ne-nil (short b h) e = cc

parts_loop-AllPrint : {ps : List Bytes} {bs : List ℕ} → AllPrint ps bs → parts_loop ps ≡ ok bs
unfolding parts_loop trim_space is_space
parts_loop-AllPrint nil = refl
parts_loop-AllPrint (cons {p} {b} {ps} {bs} h rest) =
    let clear = All-imp IsPlain _ p (λ c k. ground arith) (Prints-IsPlain h) in
    rw (All-trim is_space p clear)
      (rw (nonempty p (Prints-ne-nil h)) (rw (part_byte-Prints h) (rw (parts_loop-AllPrint rest))))

split-AllPrint :
    {p : Bytes} {b : ℕ} {ps : List Bytes} {bs : List ℕ}
    → Prints p b
    → AllPrint ps bs
    → split b':' (join (codes ":") (p ∷ ps)) ≡ p ∷ ps
unfolding join
split-AllPrint {p} h nil =
    split-Lacks b':' p (All-imp IsPlain _ p (λ c k. ground arith) (Prints-IsPlain h))
split-AllPrint {p} h (cons {p = q} {ps = ps} k rest) =
    split-append b':' p (join (codes ":") (q ∷ ps))
      (All-imp IsPlain _ p (λ c k. ground arith) (Prints-IsPlain h))
    ∙ ap (◌∷◌ p) (split-AllPrint k rest)

join-IsDense :
    {p : Bytes} {b : ℕ} {ps : List Bytes} {bs : List ℕ}
    → Prints p b
    → AllPrint ps bs
    → All IsDense (join (codes ":") (p ∷ ps))
unfolding join
join-IsDense {p} h nil = All-imp IsPlain IsDense p (λ c k. (k.0, k.1)) (Prints-IsPlain h)
join-IsDense {p} h (cons {p = q} {ps = ps} k rest) =
    All-append IsDense p (b':' ∷ join (codes ":") (q ∷ ps))
      (All-imp IsPlain IsDense p (λ c k. (k.0, k.1)) (Prints-IsPlain h))
      ((omega arith, omega arith), join-IsDense k rest)

join-ne-nil : (p q : Bytes) (ps : List Bytes) → p ≢ [] → join (codes ":") (p ∷ q ∷ ps) ≢ []
unfolding join
join-ne-nil [] q ps h e = absurd (h refl)
join-ne-nil (c ∷ p) q ps h e = cc

contains_colon :
    (p q : Bytes) (ps : List Bytes) → contains (join (codes ":") (p ∷ q ∷ ps)) (codes ":") ≡ true
unfolding join
contains_colon p q ps = contains_byte b':' p (join (codes ":") (q ∷ ps))

-- Two or more bytes that are printed with colons between them are read back, also where a leading
-- zero is left out.
pub decode_hexish-join :
    {p q : Bytes} {b c : ℕ} {ps : List Bytes} {bs : List ℕ}
    → Prints p b
    → Prints q c
    → AllPrint ps bs
    → decode_hexish (join (codes ":") (p ∷ q ∷ ps)) ≡ ok (b ∷ c ∷ bs)
unfolding decode_hexish colons_or_plain
decode_hexish-join {p} {q} {b} {c} {ps} h k rest =
    let s = join (codes ":") (p ∷ q ∷ ps) in
    rw (trims s (join-IsDense h (cons k rest))) (
      rw (nonempty s (join-ne-nil p q ps (Prints-ne-nil h))) (
        rw (contains_colon p q ps)
          (rw (split-AllPrint h (cons k rest)) (parts_loop-AllPrint (cons h (cons k rest))))))
