-- ===== src/Text/Space.antt =====
-- `strings.TrimSpace`, `strings.TrimRight` and `strings.Trim` with a set of one byte.
use ngntun.Base.{
  ℕ, Bool, true, false, ◌&&◌, ◌||◌, [], ◌∷◌, ◌++◌, reverse, reverse-append, reverse-reverse, ◌≡◌,
  refl, sym, ◌≢◌, leb, ◌==◌, if◌then◌else◌, Bytes, ◌∙◌, ap, All, All-reverse,
}

unfoldable pub is_space : ℕ → Bool
is_space c = leb 9 c && leb c 13 || c == b' '

unfoldable pub trim_left : (ℕ → Bool) → Bytes → Bytes
trim_left p [] = []
trim_left p (c ∷ s) = if p c then trim_left p s else c ∷ s

unfoldable pub trim_right : (ℕ → Bool) → Bytes → Bytes
unfolding trim_left
trim_right p s = reverse (trim_left p (reverse s))

unfoldable pub trim : (ℕ → Bool) → Bytes → Bytes
unfolding trim_left trim_right
trim p s = trim_right p (trim_left p s)

unfoldable pub trim_space : Bytes → Bytes
unfolding trim is_space
trim_space = trim is_space

-- A text whose first byte, if any, is not in the set; and one whose last byte is not.
abbrev pub StartsClear : (ℕ → Bool) → Bytes → Type 0
StartsClear p [] = Unit
StartsClear p (c ∷ s) = p c ≡ false

abbrev pub EndsClear : (ℕ → Bool) → Bytes → Type 0
EndsClear p s = StartsClear p (reverse s)

pub trim_left_clear : (p : ℕ → Bool) (s : Bytes) → StartsClear p s → trim_left p s ≡ s
unfolding trim_left
trim_left_clear p [] h = refl
trim_left_clear p (c ∷ s) h = rw h

pub trim_right_clear : (p : ℕ → Bool) (s : Bytes) → EndsClear p s → trim_right p s ≡ s
unfolding trim_right
trim_right_clear p s h = ap reverse (trim_left_clear p (reverse s) h) ∙ reverse-reverse s

pub trim_clear : (p : ℕ → Bool) (s : Bytes) → StartsClear p s → EndsClear p s → trim p s ≡ s
unfolding trim
trim_clear p s h k = ap (trim_right p) (trim_left_clear p s h) ∙ trim_right_clear p s k

-- A trailing byte of the set goes.
pub trim_right-concat :
    (p : ℕ → Bool) (s : Bytes) (c : ℕ) → p c ≡ true → trim_right p (s ++ c ∷ []) ≡ trim_right p s
unfolding trim_right trim_left
trim_right-concat p s c h = rw (reverse-append s (c ∷ [])) (rw h)

-- A leading byte of the set goes.
pub trim_left_cons :
    (p : ℕ → Bool) (c : ℕ) (s : Bytes) → p c ≡ true → trim_left p (c ∷ s) ≡ trim_left p s
unfolding trim_left
trim_left_cons p c s h = rw h

-- A text with no byte of the set is kept.
pub All-trim : (p : ℕ → Bool) (s : Bytes) → All (λ c. p c ≡ false) s → trim p s ≡ s
All-trim p s h = trim_clear p s (first s h) (first (reverse s) (All-reverse _ s h))
  where
    first : (t : Bytes) → All (λ c. p c ≡ false) t → StartsClear p t
    first [] k = tt
    first (c ∷ t) k = k.0

-- A text that ends in a word is clear at its end.
pub EndsClear-append :
    (p : ℕ → Bool) (s w : Bytes) → w ≢ [] → All (λ c. p c ≡ false) w → EndsClear p (s ++ w)
EndsClear-append p s w ne h = rw (reverse-append s w) (
    first (reverse w) (reverse s) (λ e. ne (sym (reverse-reverse w) ∙ ap reverse e))
      (All-reverse _ w h))
  where
    first : (t u : Bytes) → t ≢ [] → All (λ c. p c ≡ false) t → StartsClear p (t ++ u)
    first [] u e k = absurd (e refl)
    first (c ∷ t) u e k = k.0
