-- ===== src/Text/Case.antt =====
-- `strings.ToLower`, `strings.ToUpper` and `strings.EqualFold` on ASCII text.
use ngntun.Base.{
  ℕ, ◌+◌, ◌-◌, Bool, ◌&&◌, ◌≡◌, leb, if◌then◌else◌, Bytes, bytes_eq, arith, [], ◌∷◌, refl,
}

unfoldable pub lower_byte : ℕ → ℕ
lower_byte c = if leb b'A' c && leb c b'Z' then c + 32 else c

unfoldable pub upper_byte : ℕ → ℕ
upper_byte c = if leb b'a' c && leb c b'z' then c - 32 else c

unfoldable pub to_lower : Bytes → Bytes
unfolding lower_byte
to_lower [] = []
to_lower (c ∷ s) = lower_byte c ∷ to_lower s

unfoldable pub to_upper : Bytes → Bytes
unfolding upper_byte
to_upper [] = []
to_upper (c ∷ s) = upper_byte c ∷ to_upper s

unfoldable pub equal_fold : Bytes → Bytes → Bool
unfolding to_lower bytes_eq
equal_fold a b = bytes_eq (to_lower a) (to_lower b)

lower_byte-lower_byte : (c : ℕ) → lower_byte (lower_byte c) ≡ lower_byte c
unfolding lower_byte
lower_byte-lower_byte c = ground arith

pub to_lower-to_lower : (s : Bytes) → to_lower (to_lower s) ≡ to_lower s
unfolding to_lower
to_lower-to_lower [] = refl
to_lower-to_lower (c ∷ s) = cc (lower_byte-lower_byte c, to_lower-to_lower s)

upper_byte-upper_byte : (c : ℕ) → upper_byte (upper_byte c) ≡ upper_byte c
unfolding upper_byte
upper_byte-upper_byte c = ground arith

pub to_upper-to_upper : (s : Bytes) → to_upper (to_upper s) ≡ to_upper s
unfolding to_upper
to_upper-to_upper [] = refl
to_upper-to_upper (c ∷ s) = cc (upper_byte-upper_byte c, to_upper-to_upper s)
