-- ===== src/Sip/Message/Lines.antt =====
-- The lines that `Marshal` of internal/sip/message.go writes, as `ParseMessage` divides them.
use ngntun.Base.{
  ℕ, Bool, false, List, [], ◌∷◌, ◌++◌, append_assoc, append-nil, reverse, some, none, ◌==◌, ◌≡◌,
  ◌≢◌, refl, sym, ap, ◌∙◌, Bytes, codes, arith, All, All-append, All-imp, All-reverse, Bool-cases,
  inl, inr,
}
use ngntun.Sip.Message.{crlf}
use ngntun.Sip.Message.Parse.{divide, is_blank, unfold_line, unfold_loop, unfold_lines}
use ngntun.Text.Find.{cut_at, cut_prefix}
use ngntun.Text.Space.{trim_right, trim_right_clear, trim_right-concat, StartsClear}
use ngntun.Text.Split.{split, split-append, split-Lacks, Lacks}

-- a byte that is no end of a line
abbrev pub IsInline : ℕ → Type 0
IsInline c = (c ≢ b'\r') × (c ≢ b'\n')

-- A line with its first byte, which is no blank.
abbrev pub IsLine : Bytes → Type 0
IsLine [] = ⊥
IsLine (c ∷ s) = (is_blank c ≡ false) × All IsInline (c ∷ s)

-- lines with their ends, and what follows
abbrev pub ended : List Bytes → Bytes → Bytes
ended [] rest = rest
ended (l ∷ ls) rest = l ++ crlf (ended ls rest)

-- lines with ends between them
abbrev pub between : Bytes → List Bytes → Bytes
between l [] = l
between l (l' ∷ ls) = l ++ crlf (between l' ls)

-- the empty line between head and body
abbrev gap : Bytes
gap = codes "\r\n\r\n"

cut_at-skip :
    (sub : Bytes) (c : ℕ) (s : Bytes) {b t : Bytes}
    → cut_prefix sub (c ∷ s) ≡ none
    → cut_at sub s ≡ some (b, t)
    → cut_at sub (c ∷ s) ≡ some (c ∷ b, t)
unfolding cut_at
cut_at-skip sub c s f e = rw (f, e, cut_at) refl

cut_prefix-other : (c : ℕ) (s : Bytes) → c ≢ b'\r' → cut_prefix gap (c ∷ s) ≡ none
unfolding cut_prefix
cut_prefix-other c s h = elim (Bool-cases (b'\r' == c)) [
  | inl same ↦ ground (arith, same)
  | inr other ↦ rw (other, cut_prefix) refl
]

cut_prefix-crlf : (c : ℕ) (s : Bytes) → c ≢ b'\r' → cut_prefix gap (crlf (c ∷ s)) ≡ none
unfolding cut_prefix
cut_prefix-crlf c s h = elim (Bool-cases (b'\r' == c)) [
  | inl same ↦ ground (arith, same)
  | inr other ↦ rw (other, cut_prefix) refl
]

cut_at-line :
    (l s : Bytes) {b t : Bytes}
    → All IsInline l
    → cut_at gap s ≡ some (b, t)
    → cut_at gap (l ++ s) ≡ some (l ++ b, t)
cut_at-line [] s h e = e
cut_at-line (c ∷ l) s h e =
    cut_at-skip gap c (l ++ s) (cut_prefix-other c (l ++ s) h.0.0) (cut_at-line l s h.1 e)

-- an end of a line that no other follows
cut_at-crlf :
    (c : ℕ) (s : Bytes) {b t : Bytes}
    → c ≢ b'\r'
    → cut_at gap (c ∷ s) ≡ some (b, t)
    → cut_at gap (crlf (c ∷ s)) ≡ some (crlf b, t)
cut_at-crlf c s h e =
    cut_at-skip gap b'\r' (b'\n' ∷ c ∷ s) (cut_prefix-crlf c s h)
      (cut_at-skip gap b'\n' (c ∷ s) (cut_prefix-other b'\n' (c ∷ s) (omega arith)) e)

IsLine-All : (l : Bytes) → IsLine l → All IsInline l
IsLine-All [] h = absurd h
IsLine-All (c ∷ s) h = h.1

cut_at-gap : (body : Bytes) → cut_at gap (crlf (crlf body)) ≡ some ([], body)
unfolding cut_at cut_prefix
cut_at-gap [] = refl
cut_at-gap (c ∷ s) = refl

-- the lines end where the gap is
cut_at-ended :
    (l : Bytes) (ls : List Bytes) (body : Bytes)
    → All IsLine (l ∷ ls)
    → cut_at gap (ended (l ∷ ls) (crlf body)) ≡ some (between l ls, body)
cut_at-ended l [] body h =
    cut_at-line l (crlf (crlf body)) (IsLine-All l h.0) (cut_at-gap body)
    ∙ ap (λ (b : Bytes). some (b, body)) (append-nil l)
cut_at-ended l ([] ∷ ls) body h = absurd h.1.0
cut_at-ended l ((c ∷ s) ∷ ls) body h =
    cut_at-line l _ (IsLine-All l h.0)
      (cut_at-crlf c _ h.1.0.1.0.0 (cut_at-ended (c ∷ s) ls body h.1))

pub divide-ended :
    (l : Bytes) (ls : List Bytes) (body : Bytes)
    → All IsLine (l ∷ ls)
    → divide (ended (l ∷ ls) (crlf body)) ≡ (between l ls, body)
unfolding divide
divide-ended l ls body h = rw (cut_at-ended l ls body h, divide) refl

-- one raw line of `unfold`
unfold_line-IsLine : (l : Bytes) (out : List Bytes) → IsLine l → unfold_line l out ≡ out ++ l ∷ []
unfolding unfold_line
unfold_line-IsLine [] out h = absurd h
unfold_line-IsLine (c ∷ s) [] h = refl
unfold_line-IsLine (c ∷ s) (o ∷ out) h = rw h.0 refl

abbrev is_cr : ℕ → Bool
is_cr c = c == b'\r'

inline-cr : (l : Bytes) → All IsInline l → All (λ c. is_cr c ≡ false) l
inline-cr l h = All-imp IsInline _ l (λ c k. ground (arith, k.0)) h

inline-lf : (l : Bytes) → All IsInline l → Lacks b'\n' l
inline-lf l h = All-imp IsInline _ l (λ c k. ground (arith, k.1)) h

trim_right-line : (l : Bytes) → All IsInline l → trim_right is_cr l ≡ l
trim_right-line l h = trim_right_clear is_cr l (first (reverse l) (All-reverse _ l (inline-cr l h)))
  where
    first : (t : Bytes) → All (λ c. is_cr c ≡ false) t → StartsClear is_cr t
    first [] k = tt
    first (c ∷ t) k = k.0

trim_right-line_cr : (l : Bytes) → All IsInline l → trim_right is_cr (l ++ b'\r' ∷ []) ≡ l
trim_right-line_cr l h = trim_right-concat is_cr l b'\r' refl ∙ trim_right-line l h

crlf-append : (l s : Bytes) → l ++ crlf s ≡ (l ++ b'\r' ∷ []) ++ (b'\n' ∷ s)
crlf-append l s = sym (append_assoc l (b'\r' ∷ []) (b'\n' ∷ s))

unfold_loop-between :
    (l : Bytes) (ls out : List Bytes)
    → All IsLine (l ∷ ls)
    → unfold_loop (split b'\n' (between l ls)) out ≡ out ++ (l ∷ ls)
unfolding unfold_loop
unfold_loop-between l [] out h =
    let clean = IsLine-All l h.0 in
    ap (λ (ps : List Bytes). unfold_loop ps out) (split-Lacks b'\n' l (inline-lf l clean))
    ∙ ap (λ (x : Bytes). unfold_line x out) (trim_right-line l clean)
    ∙ unfold_line-IsLine l out h.0
unfold_loop-between l (l' ∷ ls) out h =
    let clean = IsLine-All l h.0 in
    let lacks =
      All-append (λ c. (c == b'\n') ≡ false) l (b'\r' ∷ []) (inline-lf l clean) (refl, tt) in
    let more = split b'\n' (between l' ls) in
    ap (λ (x : Bytes). unfold_loop (split b'\n' x) out) (crlf-append l (between l' ls))
    ∙ ap (λ (ps : List Bytes). unfold_loop ps out)
        (split-append b'\n' (l ++ b'\r' ∷ []) (between l' ls) lacks)
    ∙ ap (λ (x : Bytes). unfold_loop more (unfold_line x out)) (trim_right-line_cr l clean)
    ∙ ap (unfold_loop more) (unfold_line-IsLine l out h.0)
    ∙ unfold_loop-between l' ls (out ++ l ∷ []) h.1
    ∙ append_assoc out (l ∷ []) (l' ∷ ls)

pub unfold_lines-between :
    (l : Bytes) (ls : List Bytes) → All IsLine (l ∷ ls) → unfold_lines (between l ls) ≡ l ∷ ls
unfolding unfold_lines
unfold_lines-between l ls h = unfold_loop-between l ls [] h
