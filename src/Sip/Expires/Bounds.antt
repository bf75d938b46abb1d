-- ===== src/Sip/Expires/Bounds.antt =====
-- The range of the lifetimes that internal/sip reads, and of the interval between registrations.
use ngntun.Base.Int.{ℤ, pos, negsuc, int_ltb, to_int64}
use ngntun.Base.{
  ℕ, ◌*◌, ◌/◌, ◌≤◌, true, ◌≡◌, ◌⊎◌, refl, arith, List, ◌∷◌, ◌++◌, Option, none, some, All, Bytes,
  codes,
}
use ngntun.Sip.Header.{get, values}
use ngntun.Sip.Param.{param}
use ngntun.Text.Space.{trim_space}
use ngntun.Sip.Expires.{second, seconds, positive}
use ngntun.Sip.Message.{Message}

-- Up to 9223372036 seconds a lifetime is exact.
pub seconds-small : (n : ℕ) → n ≤ 9223372036 → seconds n ≡ pos (n * second)
unfolding seconds to_int64
seconds-small n h = ground arith

-- The next second wraps to a negative lifetime.
seconds_wrap : seconds 9223372037 ≡ negsuc 9223372036709551615
unfolding seconds to_int64
seconds_wrap = refl

-- A minute for a lifetime below two minutes, and half of it for any other.
abbrev pub IsInterval : ℤ → ℕ → Type 0
IsInterval e i =
    ((int_ltb e (pos (120 * second)) ≡ true) × (i ≡ 60 * second))
    ⊎ ((d : ℕ) × (e ≡ pos d) × (120 * second ≤ d) × (i ≡ d / 2))

-- Where the lifetime of a registration comes from: from Expires if that is a positive number, from
-- the first Contact whose parameter `expires` is one if not, and else it is the one that was asked for.
pub data Lifetime (resp : Message) (fallback : ℤ) : ℤ → Type 0 where
  of_header :
      (n : ℕ)
      → positive (trim_space (get resp.headers (codes "Expires"))) ≡ some n
      → Lifetime resp fallback (to_int64 (n * second))
  of_contact :
      (before after : List Bytes) (c : Bytes) (n : ℕ)
      → positive (trim_space (get resp.headers (codes "Expires"))) ≡ none
      → values resp.headers (codes "Contact") ≡ before ++ c ∷ after
      → All (λ (b : Bytes). positive (param b (codes "expires")) ≡ none) before
      → positive (param c (codes "expires")) ≡ some n
      → Lifetime resp fallback (to_int64 (n * second))
  asked_for :
      positive (trim_space (get resp.headers (codes "Expires"))) ≡ none
      → All
          (λ (b : Bytes). positive (param b (codes "expires")) ≡ none)
          (values resp.headers (codes "Contact"))
      → Lifetime resp fallback fallback

-- What the loop over the Contact headers finds.
abbrev FirstOf : List Bytes → Option ℕ → Type 0
FirstOf cs none = All (λ (b : Bytes). positive (param b (codes "expires")) ≡ none) cs
FirstOf cs (some n) =
    (before : List Bytes) × (c : Bytes) × (after : List Bytes) × (cs ≡ before ++ c ∷ after)
    × All (λ (b : Bytes). positive (param b (codes "expires")) ≡ none) before
    × (positive (param c (codes "expires")) ≡ some n)
