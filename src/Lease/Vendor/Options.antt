-- ===== src/Lease/Vendor/Options.antt =====
-- `DecodeVendorOpts` of internal/lease/lease.go against the wire format of the sub-options.
use ngntun.Base.{
  ℕ, zero, suc, ◌+◌, ◌*◌, ◌/◌, ◌%◌, ◌^◌, ◌<◌, ◌≤◌, List, [], ◌∷◌, ◌++◌, ◌≡◌, inl, inr, refl, ap,
  ◌∙◌, ltb, Bytes, length, take, drop, Result, ok, ◌>>=◌, bind-eq-ok, arith, All, All-drop, IsByte,
  Bool-cases, length-append, take-length-append, drop-length-append, fun_ext, append-take-drop,
  length-take,
}
use ngntun.Lease.Vendor.{VendorOpts, VendorError, store, options_loop, empty_opts, decode_options}

-- A sub-option: its code and its value.
pub record SubOption : Type 0 where
  pub code : ℕ
  pub val : Bytes

abbrev pub IsSubOption : SubOption → Type 0
IsSubOption o = (o.code < 2 ^ 16) × (length o.val < 2 ^ 16)

-- { code(2) len(2) value(len) } ..., in network byte order
abbrev pub wire : List SubOption → Bytes
wire [] = []
wire (o ∷ os) =
    (o.code / 256)
    ∷ (o.code % 256)
    ∷ (length o.val / 256)
    ∷ (length o.val % 256)
    ∷ (o.val ++ wire os)

-- The sub-options are stored one after the other.
pub store_all : List SubOption → VendorOpts → Result VendorError VendorOpts
store_all [] vo = ok vo
store_all (o ∷ os) vo = do vo' ← store o.code o.val vo; store_all os vo'

split_16 : (n : ℕ) → n < 2 ^ 16 → n / 256 * 256 + n % 256 ≡ n
split_16 n h = omega arith

-- one round of the loop, on a whole sub-option
options_loop_option :
    (f : ℕ) (o : SubOption) (b : Bytes) (vo : VendorOpts)
    → IsSubOption o
    → options_loop
        (suc f)
        ((o.code / 256)
          ∷ (o.code % 256)
          ∷ (length o.val / 256)
          ∷ (length o.val % 256)
          ∷ (o.val ++ b))
        vo
      ≡ (store o.code o.val vo >>= options_loop f b)
unfolding options_loop
options_loop_option f o b vo h = rw (split_16 o.code h.0) (
    rw (split_16 (length o.val) h.1) (
      rw (take-length-append o.val b)
        (rw (drop-length-append o.val b) (ground (arith, length-append o.val b)))))

options_loop-wire :
    (os : List SubOption) (f : ℕ) (vo : VendorOpts)
    → length (wire os) < f
    → All IsSubOption os
    → options_loop f (wire os) vo ≡ store_all os vo
unfolding store_all
options_loop-wire os zero vo fuel h = absurd (omega arith)
options_loop-wire [] (suc f) vo fuel h = unfold options_loop in refl
options_loop-wire (o ∷ os) (suc f) vo fuel (ho, h) =
    options_loop_option f o (wire os) vo ho
    ∙ ap (λ k. store o.code o.val vo >>= k)
        (fun_ext λ vo'. options_loop-wire os f vo' (omega (arith, length-append o.val (wire os))) h)

-- the enterprise number in front of the sub-options, in network byte order
abbrev pub wire_opts : ℕ → List SubOption → Bytes
wire_opts n os = (n / 2 ^ 24) ∷ (n / 2 ^ 16 % 256) ∷ (n / 2 ^ 8 % 256) ∷ (n % 256) ∷ wire os

-- Every sequence of sub-options whose codes and lengths fit 16 bits, in wire format behind a 32-bit
-- enterprise number, is decoded by storing them one after the other over empty options.
pub decode_options-wire :
    (n : ℕ) (os : List SubOption)
    → n < 2 ^ 32
    → All IsSubOption os
    → decode_options (wire_opts n os) ≡ store_all os (empty_opts n)
unfolding decode_options
decode_options-wire n os hn h =
    options_loop-wire os (suc (length (wire os))) _ (omega arith) h
    ∙ ap (λ m. store_all os (empty_opts m)) (omega arith)

-- What stands in the bytes that the loop has taken in.
abbrev Spells : Bytes → VendorOpts → VendorOpts → Type 0
Spells b vo vo' =
    (os : List SubOption) × (b ≡ wire os) × All IsSubOption os × (store_all os vo ≡ ok vo')

options_loop_cons :
    (f c₁ c₀ l₁ l₀ : ℕ) (b : Bytes) (vo : VendorOpts) {r : VendorOpts}
    → options_loop (suc f) (c₁ ∷ c₀ ∷ l₁ ∷ l₀ ∷ b) vo ≡ ok r
    → (l₁ * 256 + l₀ ≤ length b)
      × ((store (c₁ * 256 + c₀) (take (l₁ * 256 + l₀) b) vo
            >>= options_loop f (drop (l₁ * 256 + l₀) b))
          ≡ ok r)
unfolding options_loop
options_loop_cons f c₁ c₀ l₁ l₀ b vo h = elim (Bool-cases (ltb (length b) (l₁ * 256 + l₀))) [
  | inl short ↦ cc (rw short at h)
  | inr long ↦ (ground arith, rw long at h)
]

option_append :
    (c₁ c₀ l₁ l₀ : ℕ) (b ws : Bytes)
    → IsByte c₀
    → IsByte l₀
    → length (take (l₁ * 256 + l₀) b) ≡ l₁ * 256 + l₀
    → drop (l₁ * 256 + l₀) b ≡ ws
    → ◌≡◌ {A = Bytes} (c₁ ∷ c₀ ∷ l₁ ∷ l₀ ∷ b) (
        ((c₁ * 256 + c₀) / 256)
        ∷ ((c₁ * 256 + c₀) % 256)
        ∷ (length (take (l₁ * 256 + l₀) b) / 256)
        ∷ (length (take (l₁ * 256 + l₀) b) % 256)
        ∷ (take (l₁ * 256 + l₀) b ++ ws))
option_append c₁ c₀ l₁ l₀ b ws h₀ k₀ len split =
    rw (len, ← split, append-take-drop (l₁ * 256 + l₀) b)
      (cc (high c₁ c₀ h₀, low c₁ c₀ h₀, high l₁ l₀ k₀, low l₁ l₀ k₀))
  where
    high : (a c : ℕ) → IsByte c → (a * 256 + c) / 256 ≡ a
    high a c h = omega arith

    low : (a c : ℕ) → IsByte c → (a * 256 + c) % 256 ≡ c
    low a c h = omega arith

options_loop_sound :
    (f : ℕ) (b : Bytes) (vo : VendorOpts) {r : VendorOpts}
    → All IsByte b
    → options_loop f b vo ≡ ok r
    → Spells b vo r
unfolding store_all
options_loop_sound zero b vo hb h = unfold options_loop in cc
options_loop_sound (suc f) [] vo hb h = ([], refl, tt, unfold options_loop in h)
options_loop_sound (suc f) (c₁ ∷ []) vo hb h = unfold options_loop in cc
options_loop_sound (suc f) (c₁ ∷ c₀ ∷ []) vo hb h = unfold options_loop in cc
options_loop_sound (suc f) (c₁ ∷ c₀ ∷ l₁ ∷ []) vo hb h = unfold options_loop in cc
options_loop_sound (suc f) (c₁ ∷ c₀ ∷ l₁ ∷ l₀ ∷ b) vo {r} (h₁, (h₀, (k₁, (k₀, hb)))) h =
    let len = l₁ * 256 + l₀ in
    let (fits, later) = options_loop_cons f c₁ c₀ l₁ l₀ b vo h in
    let (vo', stored, go) = bind-eq-ok (store (c₁ * 256 + c₀) (take len b) vo) _ later in
    let (os, split, hos, all_stored) =
      options_loop_sound f (drop len b) vo' (All-drop IsByte len b hb) go in
    let size = length-take len b fits in
    (
      record { code = c₁ * 256 + c₀; val = take len b } ∷ os,
      option_append c₁ c₀ l₁ l₀ b (wire os) h₀ k₀ size split,
      ((omega arith, omega (arith, size)), hos),
      rw stored all_stored,
    )

-- Bytes are decoded only if they are a 32-bit enterprise number and a sequence of whole
-- sub-options in wire format, and the result is what storing these one after the other gives:
-- nothing is read past the end, skipped or left over.
pub decode_options_sound :
    (b : Bytes) {vo : VendorOpts}
    → All IsByte b
    → decode_options b ≡ ok vo
    → (n : ℕ) × (os : List SubOption) × (b ≡ wire_opts n os)
      × (n < 2 ^ 32)
      × All IsSubOption os
      × (store_all os (empty_opts n) ≡ ok vo)
unfolding decode_options
decode_options_sound [] hb h = cc
decode_options_sound (b₃ ∷ []) hb h = cc
decode_options_sound (b₃ ∷ b₂ ∷ []) hb h = cc
decode_options_sound (b₃ ∷ b₂ ∷ b₁ ∷ []) hb h = cc
decode_options_sound (b₃ ∷ b₂ ∷ b₁ ∷ b₀ ∷ b) (h₃, (h₂, (h₁, (h₀, hb)))) h =
    let (os, split, hos, stored) = options_loop_sound (suc (length b)) b _ hb h in
    (
      ((b₃ * 256 + b₂) * 256 + b₁) * 256 + b₀,
      os,
      cc (
        split,
        byte_3 b₃ b₂ b₁ b₀ h₂ h₁ h₀,
        byte_2 b₃ b₂ b₁ b₀ h₂ h₁ h₀,
        byte_1 b₃ b₂ b₁ b₀ h₁ h₀,
        byte_0 b₃ b₂ b₁ b₀ h₀,
      ),
      omega arith,
      hos,
      stored,
    )
  where
    byte_3 :
        (x y z w : ℕ)
        → IsByte y
        → IsByte z
        → IsByte w
        → (((x * 256 + y) * 256 + z) * 256 + w) / 2 ^ 24 ≡ x
    byte_3 x y z w hy hz hw = omega arith

    byte_2 :
        (x y z w : ℕ)
        → IsByte y
        → IsByte z
        → IsByte w
        → (((x * 256 + y) * 256 + z) * 256 + w) / 2 ^ 16 % 256 ≡ y
    byte_2 x y z w hy hz hw = omega arith

    byte_1 :
        (x y z w : ℕ)
        → IsByte z
        → IsByte w
        → (((x * 256 + y) * 256 + z) * 256 + w) / 2 ^ 8 % 256 ≡ z
    byte_1 x y z w hz hw = omega arith

    byte_0 : (x y z w : ℕ) → IsByte w → (((x * 256 + y) * 256 + z) * 256 + w) % 256 ≡ w
    byte_0 x y z w hw = omega arith
