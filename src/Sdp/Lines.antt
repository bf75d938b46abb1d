-- ===== src/Sdp/Lines.antt =====
-- What one line of an offer does to the loop of `ParseAnswer` of internal/sdp/sdp.go.
use ngntun.Base.Int.{pos}
use ngntun.Base.{
  ℕ, ◌<◌, ◌≤◌, ◌^◌, true, false, [], ◌∷◌, ◌++◌, append_assoc, some, ◌≡◌, ◌≢◌, refl, ap, ◌∙◌, ◌==◌,
  Bytes, codes, ok, All, All-append, All-imp, arith, Bool-cases, inl, inr, subst,
}
use ngntun.Netip.{Addr, NetipText, is4, unmap}
use ngntun.Sdp.{
  State, media_type, media_proto, media_format, addr_type, line, connection, parse_connection,
  connection_line, media_line, bandwidth_line, attribute_line, parse_line, parse_body, lines_loop,
}
use ngntun.Text.Decimal.{itoa, itoa-ne-nil, itoa-IsDigit, IsDigit, atoi-itoa}
use ngntun.Text.Space.{
  is_space, trim_right, trim_right-concat, trim_right_clear, trim_space, trim_clear, StartsClear,
  EndsClear-append,
}
use ngntun.Text.Split.{
  cut-Lacks, split, split-append, fields, fields_func, fields_func_cons, fields_func_one, Lacks,
  Clear,
}

-- a byte that is no line end
abbrev pub IsText : ℕ → Type 0
IsText c = b' ' ≤ c

-- a byte of a word
abbrev pub IsWord : ℕ → Type 0
IsWord c = b' ' < c

pub Word-Clear : (w : Bytes) → All IsWord w → Clear is_space w
unfolding is_space
Word-Clear w h = All-imp IsWord _ w (λ c k. ground arith) h

pub Word-Text : (w : Bytes) → All IsWord w → All IsText w
Word-Text w h = All-imp IsWord IsText w (λ c k. omega arith) h

pub itoa-Word : (n : ℕ) → All IsWord (itoa n)
itoa-Word n = All-imp IsDigit IsWord (itoa n) (λ c k. omega arith) (itoa-IsDigit n)

trim_cr : (s : Bytes) → All IsText s → trim_right (λ c. c == b'\r') s ≡ s
unfolding trim_right
trim_cr [] h = refl
trim_cr (c ∷ s) h =
    trim_right_clear _ (c ∷ s)
      (EndsClear-append _ [] (c ∷ s) (λ e. cc) (All-imp IsText _ (c ∷ s) (λ c k. ground arith) h))

trim_words :
    (s w : Bytes)
    → StartsClear is_space s
    → s ≢ []
    → w ≢ []
    → All IsWord w
    → trim_space (s ++ w) ≡ s ++ w
unfolding trim_space
trim_words [] w h ns ne k = absurd (ns refl)
trim_words (c ∷ s) w h ns ne k =
    trim_clear is_space (c ∷ (s ++ w)) h (EndsClear-append is_space (c ∷ s) w ne (Word-Clear w k))

-- the same where the last word stands behind other text
trim_last :
    (s u v w : Bytes)
    → StartsClear is_space s
    → s ≢ []
    → w ≢ []
    → All IsWord w
    → trim_space (s ++ (u ++ (v ++ w))) ≡ s ++ (u ++ (v ++ w))
trim_last [] u v w h ns ne k = absurd (ns refl)
trim_last (c ∷ s) u v w h ns ne k =
    let regroup = append_assoc (c ∷ s) (u ++ v) w ∙ ap (◌++◌ (c ∷ s)) (append_assoc u v w) in
    subst (λ (z : Bytes). trim_space z ≡ z) regroup
      (trim_words (c ∷ (s ++ (u ++ v))) w h (λ e. cc) ne k)

pub addr_type-Word : (a : Addr) → (addr_type a ≢ []) × All IsWord (addr_type a)
unfolding addr_type
addr_type-Word a = elim (Bool-cases (is4 a)) [
  | inl four ↦ rw four ((λ e. cc), omega arith)
  | inr six ↦ rw six ((λ e. cc), omega arith)
]

three_fields :
    (a b c : Bytes)
    → a ≢ []
    → All IsWord a
    → b ≢ []
    → All IsWord b
    → c ≢ []
    → All IsWord c
    → fields (a ++ (b' ' ∷ (b ++ (b' ' ∷ c)))) ≡ a ∷ b ∷ c ∷ []
unfolding fields
three_fields a b c na ha nb hb nc hc =
    fields_func_cons is_space a b' ' _ na (Word-Clear a ha) blank
    ∙ ap (◌∷◌ a) (
        fields_func_cons is_space b b' ' c nb (Word-Clear b hb) blank
        ∙ ap (◌∷◌ b) (fields_func_one is_space c nc (Word-Clear c hc)))
  where
    blank : is_space b' ' ≡ true
    blank = unfold is_space in refl

media_fields :
    (n : ℕ)
    → fields (codes "application " ++ (itoa n ++ codes " udp octet-stream"))
      ≡ media_type ∷ itoa n ∷ media_proto ∷ media_format ∷ []
unfolding fields
media_fields n =
    fields_func_cons is_space media_type b' ' (itoa n ++ codes " udp octet-stream") (λ e. cc)
      (Word-Clear media_type (omega arith)) blank
    ∙ ap (◌∷◌ media_type) (
        fields_func_cons is_space (itoa n) b' ' (codes "udp octet-stream") (itoa-ne-nil n)
          (Word-Clear (itoa n) (itoa-Word n)) blank
        ∙ ap (◌∷◌ (itoa n)) (unfold fields_func is_space in refl))
  where
    blank : is_space b' ' ≡ true
    blank = unfold is_space in refl

media_line-eq :
    (n : ℕ) (s : State)
    → n < 2 ^ 16
    → media_line (media_type ∷ itoa n ∷ media_proto ∷ media_format ∷ []) s
      ≡ ok (record s { in_media = true; found = true; port = pos n })
unfolding media_line
media_line-eq n s h = rw (atoi-itoa n (omega arith))

module _ (text : NetipText) where
  -- A written line is read as one line without its end.
  pub lines_loop-line :
      (body rest : Bytes) (s s' : State)
      → All IsText body
      → parse_body text body s ≡ ok s'
      → lines_loop text (split b'\n' (line body rest)) s ≡ lines_loop text (split b'\n' rest) s'
  unfolding lines_loop
  lines_loop-line body rest s s' h read =
      let first =
        All-append _ body (b'\r' ∷ []) (All-imp IsText _ body (λ c k. ground arith) h) (refl, tt) in
      rw (← append_assoc body (b'\r' ∷ []) (b'\n' ∷ rest)) (
        rw (split-append b'\n' (body ++ b'\r' ∷ []) rest first) (
          rw (trim_right-concat (λ c. c == b'\r') body b'\r' refl) (rw (trim_cr body h) (rw read))))

  pub lines_loop_end : (s : State) → lines_loop text (split b'\n' []) s ≡ ok s
  unfolding lines_loop parse_body
  lines_loop_end s = unfold trim_right split in refl

  connection-eq :
      (x y t : Bytes) (a : Addr)
      → text.parse_addr t ≡ some a
      → Lacks b'/' t
      → unmap a ≡ a
      → connection text (x ∷ y ∷ t ∷ []) ≡ ok a
  unfolding connection
  connection-eq x y t a read clear same =
      rw (cut-Lacks b'/' t clear, connection) (rw read (rw same refl))

  pub read_connection :
      (a : Addr) (s : State)
      → text.parse_addr (text.addr_string a) ≡ some a
      → text.addr_string a ≢ []
      → All (λ c. IsWord c × (c ≢ b'/')) (text.addr_string a)
      → unmap a ≡ a
      → s.in_media ≡ false
      → parse_body text (codes "c=IN " ++ (addr_type a ++ (b' ' ∷ text.addr_string a))) s
        ≡ ok (record s { session_addr = a })
  unfolding parse_body parse_line connection_line parse_connection
  read_connection a s read ne word same outside =
      let t = text.addr_string a in
      let type = addr_type-Word a in
      let w = All-imp (λ c. IsWord c × (c ≢ b'/')) IsWord t (λ c k. k.0) word in
      let clear : Lacks b'/' t =
        All-imp (λ c. IsWord c × (c ≢ b'/')) _ t (λ c k. ground arith) word in
      rw (trim_last (codes "IN ") (addr_type a) (codes " ") t refl (λ e. cc) ne w) (
        rw (three_fields (codes "IN") (addr_type a) t (λ e. cc) (omega arith) type.0 type.1 ne w)
          (rw (connection-eq (codes "IN") (addr_type a) t a read clear same) (rw outside refl)))

  pub read_media :
      (n : ℕ) (s : State)
      → n < 2 ^ 16
      → parse_body text
          (codes "m="
            ++ (media_type ++ (b' ' ∷ (itoa n ++ (b' ' ∷ (media_proto ++ (b' ' ∷ media_format)))))))
          s
        ≡ ok (record s { in_media = true; found = true; port = pos n })
  unfolding parse_body parse_line
  read_media n s h =
      rw
        (trim_last (codes "application ") (itoa n) (codes " udp ") media_format refl (λ e. cc)
          (λ e. cc) (omega arith))
        (rw (media_fields n) (media_line-eq n s h))

  pub read_bandwidth :
      (n : ℕ) (s : State)
      → n < 2 ^ 63
      → s.in_media ≡ true
      → parse_body text (codes "b=AS:" ++ itoa n) s ≡ ok (record s { bandwidth_kbps = pos n })
  unfolding parse_body parse_line bandwidth_line
  read_bandwidth n s h inside =
      rw (trim_words (codes "AS:") (itoa n) refl (λ e. cc) (itoa-ne-nil n) (itoa-Word n))
        (rw (atoi-itoa n h) (rw inside refl))

  pub read_setup :
      (t : Bytes) (s : State)
      → t ≢ []
      → All IsWord t
      → s.in_media ≡ true
      → parse_body text (codes "a=udp-setup:" ++ t) s ≡ ok (record s { setup = t })
  unfolding parse_body parse_line attribute_line
  read_setup t s ne w inside =
      rw (trim_words (codes "udp-setup:") t refl (λ e. cc) ne w) (rw inside refl)

  -- A line of another kind is passed over.
  pub read_other :
      (key : ℕ) (rest : Bytes) (s : State)
      → (key == b'c') ≡ false
      → (key == b'm') ≡ false
      → (key == b'b') ≡ false
      → (key == b'a') ≡ false
      → parse_body text (key ∷ b'=' ∷ rest) s ≡ ok s
  unfolding parse_body parse_line
  read_other key rest s c m b a = rw c (rw m (rw b (rw a refl)))
