-- ===== src/Sip/Message/Checked.antt =====
-- A test for headers of internal/sip/message.go that are read back.
use ngntun.Base.{
  ℕ, Bool, true, false, not, ◌&&◌, ◌||◌, ◌==◌, reverse, bytes_eq_refl, [], ◌∷◌, ◌≡◌, Bytes,
  bytes_eq, arith, All, All-imp,
}
use ngntun.Sip.Header.{Header, Headers}
use ngntun.Sip.Message.HeaderLines.{IsSendable}
use ngntun.Sip.Message.Lines.{IsInline}
use ngntun.Text.Space.{is_space, StartsClear}
use ngntun.Sip.Message.Sendable.{IsValue, name-IsSendable}

unfoldable pub all_not : (ℕ → Bool) → Bytes → Bool
all_not p [] = true
all_not p (c ∷ s) = not (p c) && all_not p s

unfoldable pub starts_not : (ℕ → Bool) → Bytes → Bool
starts_not p [] = true
starts_not p (c ∷ s) = not (p c)

ends_line : ℕ → Bool
ends_line c = c == b'\r' || c == b'\n'

unfoldable pub is_value : Bytes → Bool
unfolding all_not starts_not ends_line is_space
is_value v = all_not ends_line v && (starts_not is_space v && starts_not is_space (reverse v))

unfoldable pub is_sendable : Header → Bool
unfolding all_not is_value is_space bytes_eq
is_sendable hd =
    not (bytes_eq hd.name [])
    && (all_not is_space hd.name && (all_not (λ c. c == b':') hd.name && is_value hd.value))

unfoldable pub all_sendable : Headers → Bool
unfolding is_sendable
all_sendable [] = true
all_sendable (hd ∷ h) = is_sendable hd && all_sendable h

both_true : (a b : Bool) → (a && b) ≡ true → (a ≡ true) × (b ≡ true)
both_true a b e = ground arith

all_not-All : (p : ℕ → Bool) (s : Bytes) → all_not p s ≡ true → All (λ c. p c ≡ false) s
unfolding all_not
all_not-All p [] e = tt
all_not-All p (c ∷ s) e =
    let (here, rest) = both_true (not (p c)) (all_not p s) e in
    (ground (arith, here), all_not-All p s rest)

starts_not-StartsClear : (p : ℕ → Bool) (s : Bytes) → starts_not p s ≡ true → StartsClear p s
unfolding starts_not
starts_not-StartsClear p [] e = tt
starts_not-StartsClear p (c ∷ s) e = ground (arith, e)

ends_line-IsInline : (c : ℕ) → ends_line c ≡ false → IsInline c
unfolding ends_line
ends_line-IsInline c e = (λ z. ground (arith, e, z), λ z. ground (arith, e, z))

pub is_value-IsValue : (v : Bytes) → is_value v ≡ true → IsValue v
unfolding is_value
is_value-IsValue v e =
    let (a, bc) = both_true _ _ e in
    let (b, c) = both_true _ _ bc in
    record {
      inline = All-imp _ IsInline v ends_line-IsInline (all_not-All ends_line v a);
      starts = starts_not-StartsClear is_space v b;
      ends = starts_not-StartsClear is_space (reverse v) c;
    }

is_sendable-IsSendable : (hd : Header) → is_sendable hd ≡ true → IsSendable hd
unfolding is_sendable
is_sendable-IsSendable hd e =
    let (a, bcd) = both_true (not (bytes_eq hd.name [])) _ e in
    let (b, cd) = both_true _ _ bcd in
    let (c, d) = both_true _ _ cd in
    name-IsSendable hd.name hd.value
      (
        λ z. cc (rw (z, bytes_eq_refl []) at a),
        all_not-All is_space hd.name b,
        all_not-All (λ c. c == b':') hd.name c,
      )
      (is_value-IsValue hd.value d)

pub all_sendable-IsSendable : (h : Headers) → all_sendable h ≡ true → All IsSendable h
unfolding all_sendable
all_sendable-IsSendable [] e = tt
all_sendable-IsSendable (hd ∷ h) e =
    let (here, rest) = both_true _ _ e in
    (is_sendable-IsSendable hd here, all_sendable-IsSendable h rest)
