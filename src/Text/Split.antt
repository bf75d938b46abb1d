-- ===== src/Text/Split.antt =====
-- `strings.Cut` and `strings.Split` at one byte, and `strings.FieldsFunc`.
use ngntun.Base.{
  ℕ, Bool, true, false, List, [], ◌∷◌, ◌++◌, append_assoc, append-nil, ◌≡◌, ◌≢◌, refl, sym, ap, ◌∙◌,
  ◌==◌, if◌then◌else◌, Bytes, All, arith,
}
use ngntun.Text.Space.{is_space}

-- The text before the first separator, the text behind it, and whether there is one.
unfoldable pub cut : ℕ → Bytes → Bytes × Bytes × Bool
cut sep [] = ([], [], false)
cut sep (c ∷ s) = let r = cut sep s in if c == sep then ([], s, true) else (c ∷ r.0, r.1, r.2)

cons_head : ℕ → List Bytes → List Bytes
cons_head c [] = (c ∷ []) ∷ []
cons_head c (p ∷ ps) = (c ∷ p) ∷ ps

-- The parts between the separators; at least one.
unfoldable pub split : ℕ → Bytes → List Bytes
unfolding cons_head
split sep [] = [] ∷ []
split sep (c ∷ s) = let ps = split sep s in if c == sep then [] ∷ ps else cons_head c ps

flush : Bytes → List Bytes → List Bytes
flush [] ps = ps
flush (c ∷ s) ps = (c ∷ s) ∷ ps

fields_onto : (ℕ → Bool) → Bytes → Bytes → List Bytes
unfolding flush
fields_onto p cur [] = flush cur []
fields_onto p cur (c ∷ s) =
    let rest = fields_onto p (if p c then [] else cur ++ c ∷ []) s in
    if p c then flush cur rest else rest

-- The runs of bytes that do not satisfy the test.
unfoldable pub fields_func : (ℕ → Bool) → Bytes → List Bytes
unfolding fields_onto
fields_func p s = fields_onto p [] s

unfoldable pub fields : Bytes → List Bytes
unfolding fields_func is_space
fields = fields_func is_space

-- `strings.Join`
unfoldable pub join : Bytes → List Bytes → Bytes
join sep [] = []
join sep (p ∷ []) = p
join sep (p ∷ q ∷ ps) = p ++ (sep ++ join sep (q ∷ ps))

abbrev pub Lacks : ℕ → Bytes → Type 0
Lacks b = All (λ c. (c == b) ≡ false)

abbrev pub Clear : (ℕ → Bool) → Bytes → Type 0
Clear p = All (λ c. p c ≡ false)

pub cut-append : (sep : ℕ) (p s : Bytes) → Lacks sep p → cut sep (p ++ (sep ∷ s)) ≡ (p, s, true)
unfolding cut
cut-append sep [] s h = ground arith
cut-append sep (c ∷ p) s h = rw h.0 (rw (cut-append sep p s h.1))

pub cut-Lacks : (sep : ℕ) (s : Bytes) → Lacks sep s → cut sep s ≡ (s, [], false)
unfolding cut
cut-Lacks sep [] h = refl
cut-Lacks sep (c ∷ s) h = rw h.0 (rw (cut-Lacks sep s h.1))

pub split-Lacks : (sep : ℕ) (s : Bytes) → Lacks sep s → split sep s ≡ s ∷ []
unfolding split
split-Lacks sep [] h = refl
split-Lacks sep (c ∷ s) h = rw h.0 (rw (split-Lacks sep s h.1))

pub split-append :
    (sep : ℕ) (p s : Bytes) → Lacks sep p → split sep (p ++ (sep ∷ s)) ≡ p ∷ split sep s
unfolding split
split-append sep [] s h = ground arith
split-append sep (c ∷ p) s h = rw h.0 (rw (split-append sep p s h.1))

fields_onto-Clear :
    (p : ℕ → Bool) (cur w rest : Bytes)
    → Clear p w
    → fields_onto p cur (w ++ rest) ≡ fields_onto p (cur ++ w) rest
unfolding fields_onto
fields_onto-Clear p cur [] rest h = rw append-nil
fields_onto-Clear p cur (c ∷ w) rest h =
    rw h.0 (fields_onto-Clear p (cur ++ c ∷ []) w rest h.1 ∙ rw append_assoc)

-- A word in front of a separating byte is the first field.
pub fields_func_cons :
    (p : ℕ → Bool) (w : Bytes) (c : ℕ) (rest : Bytes)
    → w ≢ []
    → Clear p w
    → p c ≡ true
    → fields_func p (w ++ (c ∷ rest)) ≡ w ∷ fields_func p rest
unfolding fields_func
fields_func_cons p [] c rest ne h k = absurd (ne refl)
fields_func_cons p (x ∷ w) c rest ne h k =
    fields_onto-Clear p [] (x ∷ w) (c ∷ rest) h ∙ unfold fields_onto in rw k

-- A text that is one word is its only field.
pub fields_func_one : (p : ℕ → Bool) (w : Bytes) → w ≢ [] → Clear p w → fields_func p w ≡ w ∷ []
unfolding fields_func
fields_func_one p [] ne h = absurd (ne refl)
fields_func_one p (x ∷ w) ne h =
    ap (fields_onto p []) (sym (append-nil (x ∷ w)))
    ∙ fields_onto-Clear p [] (x ∷ w) [] h
    ∙ unfold fields_onto in refl
