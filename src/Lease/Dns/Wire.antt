-- ===== src/Lease/Dns/Wire.antt =====
-- `decodeDNSName` of internal/lease/lease.go against the wire format of domain names.
use Prim.Native.Nat.{bit_and}
use ngntun.Base.{
  ℕ, zero, suc, ◌≤◌, ◌<◌, Bool, true, false, if◌then◌else◌, ◌||◌, not, List, [], ◌∷◌, ◌++◌,
  append_assoc, append-nil, ◌≡◌, ◌≢◌, ◌⊎◌, inl, inr, refl, sym, ap, ◌∙◌, ltb, ◌==◌, Bytes, codes,
  length, take, drop, All, All-drop, IsByte, append-take-drop, length-take, bind-eq-ok, Result, ok,
  err, ◌>>=◌, arith, Bool-cases, ltb→lt, length-append, take-length-append, drop-length-append,
  length-drop,
}
use ngntun.Text.Split.{join}
use ngntun.Lease.Dns.{DnsError, out_of_fuel, labels_loop, dotted, decode_dns_name, IsLabel, wire}

-- a test that every length octet from `n` down satisfies
holds_under : (ℕ → Bool) → ℕ → Bool
holds_under test zero = true
holds_under test (suc n) = let others = holds_under test n in if test n then others else false

holds_under-lt :
    (test : ℕ → Bool) (n : ℕ) {octet : ℕ}
    → octet < n
    → holds_under test n ≡ true
    → test octet ≡ true
unfolding holds_under
holds_under-lt test zero {octet} below h = absurd (omega arith)
holds_under-lt test (suc n) {octet} below h = ground (arith, holds_under-lt test n {octet = octet})

flag_table : holds_under (λ n. bit_and n 0xc0 == 0) 64 ≡ true
unfolding holds_under
flag_table = refl

flag_table_256 : holds_under (λ n. not (bit_and n 0xc0 == 0) || ltb n 64) 256 ≡ true
unfolding holds_under
flag_table_256 = refl

short_of_plain : (n : ℕ) → IsByte n → (bit_and n 0xc0 == 0) ≡ true → n < 64
short_of_plain n h plain =
    let found = holds_under-lt (λ n. not (bit_and n 0xc0 == 0) || ltb n 64) 256 h flag_table_256 in
    ltb→lt n 64 (rw plain at found)

plain_length : (n : ℕ) → n < 64 → (bit_and n 0xc0 == 0) ≡ true
plain_length n h = holds_under-lt (λ n. bit_and n 0xc0 == 0) 64 h flag_table

-- a label that is whole is read, and the loop goes on behind it
labels_loop_label :
    (f : ℕ) (l b : Bytes) (labels : List Bytes)
    → IsLabel l
    → labels_loop (suc f) (length l ∷ (l ++ b)) labels ≡ labels_loop f b (labels ++ l ∷ [])
unfolding labels_loop
labels_loop_label f l b labels h =
    rw (plain_length (length l) h.1) (
      rw (take-length-append l b) (rw (drop-length-append l b) (ground (arith, length-append l b))))

-- what may stand behind the labels: nothing, or a zero and any bytes
abbrev pub IsEnd : Bytes → Type 0
IsEnd [] = Unit
IsEnd (n ∷ b) = n ≡ 0

labels_loop-wire :
    (ls : List Bytes) (f : ℕ) (end : Bytes) (labels : List Bytes)
    → length (wire ls ++ end) < f
    → All IsLabel ls
    → IsEnd end
    → labels_loop f (wire ls ++ end) labels ≡ ok (labels ++ ls)
labels_loop-wire ls zero end labels fuel h e = absurd (omega arith)
labels_loop-wire [] (suc f) [] labels fuel h e = unfold labels_loop in rw append-nil
labels_loop-wire [] (suc f) (n ∷ b) labels fuel h e =
    unfold labels_loop in rw (append-nil labels) (ground arith)
labels_loop-wire (l ∷ ls) (suc f) end labels fuel (hl, h) e = rw (append_assoc l (wire ls) end) (
    labels_loop_label f l (wire ls ++ end) labels hl
    ∙ labels_loop-wire ls f end (labels ++ l ∷ [])
        (omega (
          arith,
          length-append (l ++ wire ls) end,
          length-append l (wire ls),
          length-append (wire ls) end,
        ))
        h e
    ∙ ap ok (append_assoc labels (l ∷ []) ls))

-- Every sequence of labels of 1 to 63 bytes in wire format, ended by a zero byte or by the end of
-- the bytes, is decoded to the labels with dots between them.
pub decode_dns_name-wire :
    (l : Bytes) (ls : List Bytes) (end : Bytes)
    → All IsLabel (l ∷ ls)
    → IsEnd end
    → decode_dns_name (wire (l ∷ ls) ++ end) ≡ ok (join (codes ".") (l ∷ ls))
unfolding decode_dns_name
decode_dns_name-wire l ls end h e =
    rw (labels_loop-wire (l ∷ ls) (suc (length (wire (l ∷ ls) ++ end))) end [] (omega arith) h e)

-- What stands in the bytes that the loop has taken in.
abbrev Spells : Bytes → List Bytes → List Bytes → Type 0
Spells b labels r =
    (ls : List Bytes) × (end : Bytes) × (b ≡ wire ls ++ end)
    × All IsLabel ls
    × IsEnd end
    × (r ≡ labels ++ ls)

labels_loop_cons :
    (f n : ℕ) (b : Bytes) (labels : List Bytes) {r : List Bytes}
    → labels_loop (suc f) (n ∷ b) labels ≡ ok r
    → ((n ≡ 0) × (r ≡ labels))
      ⊎ (((bit_and n 0xc0 == 0) ≡ true)
          × (0 < n)
          × (n ≤ length b)
          × (labels_loop f (drop n b) (labels ++ take n b ∷ []) ≡ ok r))
unfolding labels_loop
labels_loop_cons f n b labels h = elim (Bool-cases (n == 0)) [
  | inl z ↦ inl (ground arith)
  | inr nz ↦ inr (ground arith, ground arith, ground arith, ground arith)
]

label_append :
    (n : ℕ) (b ws end : Bytes)
    → length (take n b) ≡ n
    → drop n b ≡ ws ++ end
    → n ∷ b ≡ (length (take n b) ∷ (take n b ++ ws)) ++ end
label_append n b ws end len split = rw len (
    ap (◌∷◌ n) (
      sym (append-take-drop n b)
      ∙ ap (◌++◌ (take n b)) split
      ∙ sym (append_assoc (take n b) ws end)))

dotted_sound :
    (ls : List Bytes) {name : Bytes}
    → dotted ls ≡ ok name
    → (ls ≢ []) × (name ≡ join (codes ".") ls)
unfolding dotted
dotted_sound [] h = cc
dotted_sound (l ∷ ls) h = (λ e. cc, ground arith)

labels_loop_sound :
    (f : ℕ) (b : Bytes) (labels : List Bytes) {r : List Bytes}
    → All IsByte b
    → labels_loop f b labels ≡ ok r
    → Spells b labels r
labels_loop_sound zero b labels hb h = unfold labels_loop in cc
labels_loop_sound (suc f) [] labels hb h =
    ([], [], refl, tt, tt, unfold labels_loop in ground (arith, append-nil labels))
labels_loop_sound (suc f) (n ∷ b) labels {r} (hn, hb) h = elim (labels_loop_cons f n b labels h) [
  | inl (z, e) ↦ ([], n ∷ b, refl, tt, z, e ∙ sym (append-nil labels))
  | inr (plain, some_bytes, fits, go) ↦
      let (ls, end, split, hls, hend, e) =
        labels_loop_sound f (drop n b) (labels ++ take n b ∷ []) (All-drop IsByte n b hb) go in
      let len = length-take n b fits in
      (
        take n b ∷ ls,
        end,
        label_append n b (wire ls) end len split,
        ((omega (arith, len), omega (arith, len, short_of_plain n hn plain)), hls),
        hend,
        e ∙ append_assoc labels (take n b ∷ []) ls,
      )
]

-- Whatever is decoded is a non-empty sequence of labels of 1 to 63 bytes with dots between them,
-- which stands at the front of the bytes in wire format; behind it is nothing, or a zero byte.
pub decode_dns_name_sound :
    (b : Bytes) {name : Bytes}
    → All IsByte b
    → decode_dns_name b ≡ ok name
    → (ls : List Bytes) × (end : Bytes) × (b ≡ wire ls ++ end)
      × (ls ≢ [])
      × All IsLabel ls
      × IsEnd end
      × (name ≡ join (codes ".") ls)
unfolding decode_dns_name
decode_dns_name_sound b {name} hb h =
    let (labels, read, print) = bind-eq-ok (labels_loop (suc (length b)) b []) dotted h in
    let (ls, end, split, hls, hend, e) = labels_loop_sound (suc (length b)) b [] hb read in
    let dots = dotted_sound ls (ap dotted (sym e) ∙ print) in
    (ls, end, split, dots.0, hls, hend, dots.1)

-- The fuel is enough.
labels_loop-ne-out_of_fuel :
    (f : ℕ) (b : Bytes) (labels : List Bytes)
    → length b < f
    → labels_loop f b labels ≢ err out_of_fuel
unfolding labels_loop
labels_loop-ne-out_of_fuel zero b labels h = absurd (omega arith)
labels_loop-ne-out_of_fuel (suc f) [] labels h = (λ e. cc)
labels_loop-ne-out_of_fuel (suc f) (n ∷ b) labels h =
    ground
      (arith, length-drop n b, labels_loop-ne-out_of_fuel f (drop n b) (labels ++ take n b ∷ []))

-- The decoder always ends: it never asks for more rounds than the bytes that it is given.
pub decode_dns_name_total : (b : Bytes) → decode_dns_name b ≢ err out_of_fuel
unfolding decode_dns_name dotted
decode_dns_name_total b = go (labels_loop (suc (length b)) b []) refl
  where
    go :
        (r : Result DnsError (List Bytes))
        → labels_loop (suc (length b)) b [] ≡ r
        → (r >>= dotted) ≢ err out_of_fuel
    go (ok []) e q = cc
    go (ok (l ∷ ls)) e q = cc
    go (err out_of_fuel) e q = labels_loop-ne-out_of_fuel (suc (length b)) b [] (omega arith) e
    go (err _) e q = cc
