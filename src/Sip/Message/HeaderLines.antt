-- ===== src/Sip/Message/HeaderLines.antt =====
-- The headers that `Marshal` of internal/sip/message.go writes, as `ParseMessage` reads them.
use ngntun.Base.Int.{pos}
use ngntun.Base.{
  ℕ, ◌<◌, ◌^◌, Bool, true, false, leb, List, [], ◌∷◌, ◌++◌, append_assoc, append-nil, map, some,
  ◌≡◌, ◌≢◌, refl, sym, ap, ◌∙◌, Bytes, codes, bytes_eq, arith, All, All-append, All-imp, Bool-cases,
  inl, inr, length, take, take-length-append, ok,
}
use ngntun.Sip.Header.Laws.{get-set}
use ngntun.Sip.Header.{Header, Headers, canon, add, get, set, set_loop, same_name}
use ngntun.Sip.Message.{crlf, header_lines}
use ngntun.Sip.Message.Lines.{IsInline, IsLine, ended}
use ngntun.Sip.Message.Parse.{headers_loop, sized, is_blank}
use ngntun.Text.Decimal.{itoa, atoi, atoi-itoa, itoa-IsDigit, itoa-ne-nil, IsDigit}
use ngntun.Text.Space.{
  trim_space, trim_clear, is_space, All-trim, trim_left_cons, trim, StartsClear, EndsClear,
  EndsClear-append, trim_right,
}
use ngntun.Text.Split.{cut, cut-append, Lacks}

-- a header that is read back: its name is one word with no colon, and its value has no blank at an end
pub record IsSendable (hd : Header) : Type 0 where
  pub name_some : hd.name ≢ []
  pub name_word : All (λ c. is_space c ≡ false) hd.name
  pub name_lacks : Lacks b':' hd.name
  pub value_inline : All IsInline hd.value
  pub value_starts : StartsClear is_space hd.value
  pub value_ends : EndsClear is_space hd.value

abbrev pub line_of : Header → Bytes
line_of hd = hd.name ++ (codes ": " ++ hd.value)

pub header_lines-ended :
    (h : Headers) (rest : Bytes) → header_lines h rest ≡ ended (map line_of h) rest
unfolding header_lines
header_lines-ended [] rest = refl
header_lines-ended (hd ∷ h) rest =
    ap (λ (x : Bytes). hd.name ++ (codes ": " ++ (hd.value ++ crlf x))) (header_lines-ended h rest)
    ∙ sym (append_assoc hd.name (codes ": " ++ hd.value) (crlf (ended (map line_of h) rest)))

trim_space-value :
    (v : Bytes) → StartsClear is_space v → EndsClear is_space v → trim_space (b' ' ∷ v) ≡ v
unfolding trim_space trim
trim_space-value v s e =
    ap (trim_right is_space) (trim_left_cons is_space b' ' v refl) ∙ trim_clear is_space v s e

headers_loop-step :
    (l : Bytes) (ls : List Bytes) (acc : Headers) {n v : Bytes}
    → cut b':' l ≡ (n, v, true)
    → headers_loop (l ∷ ls) acc ≡ headers_loop ls (add acc (trim_space n) (trim_space v))
unfolding headers_loop
headers_loop-step l ls acc e = rw (e, headers_loop) refl

pub headers_loop-lines :
    (h acc : Headers) → All IsSendable h → headers_loop (map line_of h) acc ≡ ok (acc ++ h)
unfolding headers_loop add trim_space
headers_loop-lines [] acc k = ap ok (sym (append-nil acc))
headers_loop-lines (hd ∷ h) acc (k, ks) =
    headers_loop-step (line_of hd) (map line_of h) acc
      (cut-append b':' hd.name (b' ' ∷ hd.value) k.name_lacks)
    ∙ ap (λ (n : Bytes). headers_loop (map line_of h) (add acc n (trim_space (b' ' ∷ hd.value))))
        (All-trim is_space hd.name k.name_word)
    ∙ ap (λ (v : Bytes). headers_loop (map line_of h) (add acc hd.name v))
        (trim_space-value hd.value k.value_starts k.value_ends)
    ∙ headers_loop-lines h (acc ++ hd ∷ []) ks
    ∙ ap ok (append_assoc acc (hd ∷ []) h)

digit-clear : (c : ℕ) → IsDigit c → is_space c ≡ false
unfolding is_space
digit-clear c h = ground (arith, h.0, h.1)

pub itoa-clear : (n : ℕ) → All (λ c. is_space c ≡ false) (itoa n)
itoa-clear n = All-imp IsDigit _ (itoa n) digit-clear (itoa-IsDigit n)

nonempty : (s : Bytes) → s ≢ [] → bytes_eq s [] ≡ false
unfolding bytes_eq
nonempty [] ne = absurd (ne refl)
nonempty (c ∷ s) ne = refl

sized-read :
    (v body : Bytes) (n : ℕ)
    → v ≢ []
    → trim_space v ≡ v
    → atoi v ≡ some (pos n)
    → leb n (length body) ≡ true
    → sized v body ≡ take n body
unfolding sized
sized-read v body n ne t e fits = rw (nonempty v ne, t, e, fits, sized) refl

take_all : (s : Bytes) → take (length s) s ≡ s
take_all s = ap (take (length s)) (sym (append-nil s)) ∙ take-length-append s []

pub sized-itoa : (body : Bytes) → length body < 2 ^ 63 → sized (itoa (length body)) body ≡ body
unfolding trim_space
sized-itoa body k =
    sized-read (itoa (length body)) body (length body) (itoa-ne-nil (length body))
      (All-trim is_space (itoa (length body)) (itoa-clear (length body)))
      (atoi-itoa (length body) k) (ground arith)
    ∙ take_all body

-- the header that `Marshal` sets
abbrev pub length_header : Bytes → Header
length_header body = record { name = codes "Content-Length"; value = itoa (length body) }

pub All-set_loop :
    (P : Header → Type 0) (replaced : Bool) (h : Headers) (name value : Bytes)
    → P (record { name = name; value = value })
    → All P h
    → All P (set_loop replaced h name value)
unfolding set_loop
All-set_loop P true [] name value p k = tt
All-set_loop P false [] name value p k = (p, tt)
All-set_loop P replaced (hd ∷ h) name value p (q, k) = elim (Bool-cases (same_name name hd)) [
  | inr other ↦ rw (set_loop, other) (q, All-set_loop P replaced h name value p k)
  | inl same ↦
      let rest = All-set_loop P true h name value p k in
      elim (Bool-cases replaced) [
        | inl again ↦ rw (set_loop, same, again) rest
        | inr first ↦ rw (set_loop, same, first) (p, rest)
      ]
]

pub starts-clear : (t : Bytes) → All (λ c. is_space c ≡ false) t → StartsClear is_space t
starts-clear [] k = tt
starts-clear (c ∷ t) k = k.0

pub length_header-IsSendable : (body : Bytes) → IsSendable (length_header body)
unfolding is_space
length_header-IsSendable body =
    let clear = itoa-clear (length body) in
    record {
      name_some = λ e. cc;
      name_word = ground arith;
      name_lacks = ground arith;
      value_inline =
          All-imp IsDigit _ (itoa (length body)) (λ c k. (λ e. omega arith, λ e. omega arith))
            (itoa-IsDigit (length body));
      value_starts = starts-clear (itoa (length body)) clear;
      value_ends =
          EndsClear-append is_space [] (itoa (length body)) (itoa-ne-nil (length body)) clear;
    }

-- the headers that `Marshal` writes
abbrev pub sent_headers : Headers → Bytes → Headers
sent_headers h body = set h (codes "Content-Length") (itoa (length body))

pub sent_headers-IsSendable :
    (h : Headers) (body : Bytes) → All IsSendable h → All IsSendable (sent_headers h body)
unfolding set
sent_headers-IsSendable h body k =
    All-set_loop IsSendable false h _ _ (length_header-IsSendable body) k

pub get-sent_headers :
    (h : Headers) (body : Bytes)
    → get (sent_headers h body) (codes "Content-Length") ≡ itoa (length body)
unfolding canon bytes_eq
get-sent_headers h body =
    get-set h (codes "Content-Length") (itoa (length body)) (codes "Content-Length")

clear-IsInline : (c : ℕ) → is_space c ≡ false → IsInline c
unfolding is_space
clear-IsInline c k = (λ e. ground (arith, k, e), λ e. ground (arith, k, e))

clear-blank : (c : ℕ) → is_space c ≡ false → is_blank c ≡ false
unfolding is_space is_blank
clear-blank c k = ground (arith, k)

pub word-IsInline : (w : Bytes) → All (λ c. is_space c ≡ false) w → All IsInline w
word-IsInline w k = All-imp _ IsInline w clear-IsInline k

-- a word with more behind it
pub word-IsLine :
    (w t : Bytes) → w ≢ [] → All (λ c. is_space c ≡ false) w → All IsInline t → IsLine (w ++ t)
word-IsLine [] t ne k h = absurd (ne refl)
word-IsLine (c ∷ w) t ne k h =
    (clear-blank c k.0, All-append IsInline (c ∷ w) t (word-IsInline (c ∷ w) k) h)

header-IsLine : (hd : Header) → IsSendable hd → IsLine (line_of hd)
header-IsLine hd k =
    word-IsLine hd.name (codes ": " ++ hd.value) k.name_some k.name_word
      ((λ e. omega arith, λ e. omega arith), ((λ e. omega arith, λ e. omega arith), k.value_inline))

pub headers-IsLine : (h : Headers) → All IsSendable h → All IsLine (map line_of h)
headers-IsLine [] k = tt
headers-IsLine (hd ∷ h) k = (header-IsLine hd k.0, headers-IsLine h k.1)
