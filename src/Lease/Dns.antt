-- ===== src/Lease/Dns.antt =====
-- `decodeDNSName` of internal/lease/lease.go. The loop's index is the unread rest of the bytes.
pub mod Wire
use Prim.Native.Nat.{bit_and}
use ngntun.Base.{
  ℕ, zero, suc, ◌+◌, ◌≤◌, ◌<◌, Bool, true, false, ◌&&◌, ◌||◌, not, List, [], ◌∷◌, ◌++◌,
  append_assoc, append-nil, ◌≡◌, ◌≢◌, ◌⊎◌, inl, inr, refl, sym, ap, ◌∙◌, ltb, ◌==◌, if◌then◌else◌,
  Bytes, codes, length, take, drop, All, All-drop, IsByte, append-take-drop, length-take,
  bind-eq-ok, Result, ok, err, ◌>>=◌, arith, Bool-cases, ltb→lt, lt→ltb, length-append,
  take-length-append, drop-length-append, length-drop,
}
use ngntun.Text.Split.{join}

pub data DnsError : Type 0 where
  compressed truncated no_labels out_of_fuel : DnsError

-- A call's fuel is one more than the bytes that are left.
labels_loop : ℕ → Bytes → List Bytes → Result DnsError (List Bytes)
labels_loop zero b labels = err out_of_fuel
labels_loop (suc f) [] labels = ok labels
labels_loop (suc f) (n ∷ b) labels =
    let rest = labels_loop f (drop n b) (labels ++ take n b ∷ []) in
    if n == 0
    then ok labels
    else if not (bit_and n 0xc0 == 0)
    then err compressed
    else if ltb (length b) n
    then err truncated
    else rest

dotted : List Bytes → Result DnsError Bytes
unfolding join
dotted [] = err no_labels
dotted (l ∷ ls) = ok (join (codes ".") (l ∷ ls))

unfoldable pub decode_dns_name : Bytes → Result DnsError Bytes
unfolding labels_loop dotted
decode_dns_name b = do labels ← labels_loop (suc (length b)) b []; dotted labels

-- A label of the wire format: 1 to 63 bytes.
abbrev pub IsLabel : Bytes → Type 0
IsLabel l = (0 < length l) × (length l < 64)

-- The wire format of labels, without the final zero.
abbrev pub wire : List Bytes → Bytes
wire [] = []
wire (l ∷ ls) = length l ∷ (l ++ wire ls)
