-- ===== src/Text/Find.antt =====
-- `strings.HasPrefix`, `strings.TrimPrefix`, `strings.CutPrefix`, `strings.Index` and
-- `strings.Contains`.
use ngntun.Base.{
  ℕ, Bool, true, false, [], ◌∷◌, ◌++◌, Option, none, some, ◌≡◌, refl, ◌==◌, if◌then◌else◌, Bytes,
  arith, ==_refl,
}
use ngntun.Text.Split.{Lacks}

-- The text behind a prefix, if it is there.
unfoldable pub cut_prefix : Bytes → Bytes → Option Bytes
cut_prefix [] s = some s
cut_prefix (p ∷ ps) [] = none
cut_prefix (p ∷ ps) (c ∷ s) = if p == c then cut_prefix ps s else none

unfoldable pub has_prefix : Bytes → Bytes → Bool
unfolding cut_prefix
has_prefix p s = elim (cut_prefix p s) [ none ↦ false | some _ ↦ true ]

unfoldable pub trim_prefix : Bytes → Bytes → Bytes
unfolding cut_prefix
trim_prefix p s = elim (cut_prefix p s) [ none ↦ s | some t ↦ t ]

-- The text before the first occurrence of `sub`, and the text behind it: `s[:i]` and
-- `s[i+len(sub):]` for `i` the index that `strings.Index` finds.
unfoldable pub cut_at : Bytes → Bytes → Option (Bytes × Bytes)
unfolding cut_prefix
cut_at sub [] = elim (cut_prefix sub []) [ none ↦ none | some t ↦ some ([], t) ]
cut_at sub (c ∷ s) =
    let later = cut_at sub s in
    elim (cut_prefix sub (c ∷ s)) [
      | some t ↦ some ([], t)
      | none ↦ elim later [ none ↦ none | some (b, t) ↦ some (c ∷ b, t) ]
    ]

unfoldable pub contains : Bytes → Bytes → Bool
unfolding cut_at
contains s sub = elim (cut_at sub s) [ none ↦ false | some _ ↦ true ]

pub cut_prefix-append : (p s : Bytes) → cut_prefix p (p ++ s) ≡ some s
unfolding cut_prefix
cut_prefix-append [] s = refl
cut_prefix-append (c ∷ p) s = rw (==_refl c) (cut_prefix-append p s)

-- What is cut off is what stood there.
pub cut_prefix_sound : (p s : Bytes) {t : Bytes} → cut_prefix p s ≡ some t → s ≡ p ++ t
unfolding cut_prefix
cut_prefix_sound [] s h = ground arith
cut_prefix_sound (p ∷ ps) [] h = cc
cut_prefix_sound (p ∷ ps) (c ∷ s) {t} h = ground (arith, cut_prefix_sound ps s {t = t})

-- `strings.Contains` with one byte, where it stands, and where it does not.
pub contains_byte : (sep : ℕ) (p s : Bytes) → contains (p ++ (sep ∷ s)) (sep ∷ []) ≡ true
unfolding contains cut_at
contains_byte sep [] s = ground arith
contains_byte sep (c ∷ p) s = ground (arith, contains_byte sep p s)

pub contains-Lacks : (sep : ℕ) (s : Bytes) → Lacks sep s → contains s (sep ∷ []) ≡ false
unfolding contains cut_at
contains-Lacks sep [] h = refl
contains-Lacks sep (c ∷ s) h = ground (arith, contains-Lacks sep s h.1)
