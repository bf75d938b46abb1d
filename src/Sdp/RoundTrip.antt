-- ===== src/Sdp/RoundTrip.antt =====
-- `ParseAnswer` of internal/sdp/sdp.go reads what `Offer.Marshal` writes.
use ngntun.Base.Int.{pos}
use ngntun.Base.{
  ℕ, ◌<◌, ◌^◌, true, false, not, [], ◌∷◌, ◌++◌, some, ◌≡◌, ◌≢◌, refl, ◌∙◌, ltb, Bytes, codes,
  bytes_eq, ok, All, All-append, All-imp, arith, Bool-cases, inl, inr,
}
use ngntun.Netip.{NetipText, is_valid, is_unspecified, unmap}
use ngntun.Sdp.{
  Offer, State, initial, addr_type, line_if, marshal, lines_loop, finish, parse_answer,
}
use ngntun.Text.Decimal.{itoa}
use ngntun.Text.Split.{split}
use ngntun.Sdp.Lines.{
  IsText, IsWord, Word-Text, itoa-Word, addr_type-Word, lines_loop-line, lines_loop_end,
  read_connection, read_media, read_bandwidth, read_setup, read_other,
}

module _ (text : NetipText) where
  -- An offer that can be sent: its address is valid, is not an IPv4 address mapped into IPv6, and is
  -- printed as a word that is read back; the numbers are in range; the setup is one word or empty.
  pub record IsSendable (o : Offer) : Type 0 where
    pub addr_read : text.parse_addr (text.addr_string o.addr) ≡ some o.addr
    pub addr_ne_nil : text.addr_string o.addr ≢ []
    pub addr_word : All (λ c. IsWord c × (c ≢ b'/')) (text.addr_string o.addr)
    pub addr_valid : is_valid o.addr ≡ true
    pub addr_unmapped : unmap o.addr ≡ o.addr
    pub addr_specified : is_unspecified o.addr ≡ false
    pub port_pos : 0 < o.port
    pub port_lt : o.port < 2 ^ 16
    pub bandwidth_lt : o.bandwidth_kbps < 2 ^ 63
    pub setup_word : All IsWord o.setup

  abbrev after_media : Offer → State
  after_media o = record initial {
    session_addr = o.addr;
    in_media = true;
    found = true;
    port = pos o.port;
  }

  -- the last line, which is left out for an empty setup
  read_setup_if :
      (t : Bytes) (s : State)
      → All IsWord t
      → s.in_media ≡ true
      → s.setup ≡ []
      → lines_loop text
          (split b'\n' (line_if (not (bytes_eq t [])) (codes "a=udp-setup:" ++ t) []))
          s
        ≡ ok (record s { setup = t })
  unfolding bytes_eq
  read_setup_if [] s w inside empty = lines_loop_end text s ∙ ground arith
  read_setup_if (c ∷ t) s w inside empty =
      lines_loop-line text (codes "a=udp-setup:" ++ (c ∷ t)) [] s (record s { setup = c ∷ t })
        (All-append IsText (codes "a=udp-setup:") (c ∷ t) (omega arith) (Word-Text (c ∷ t) w))
        (read_setup text (c ∷ t) s (λ e. cc) w inside)
      ∙ lines_loop_end text _

  -- the bandwidth line, which is left out at 0, and the rest
  read_tail :
      (n : ℕ) (t : Bytes) (s : State)
      → n < 2 ^ 63
      → All IsWord t
      → s.in_media ≡ true
      → s.setup ≡ []
      → s.bandwidth_kbps ≡ pos 0
      → lines_loop text
          (split b'\n' (
            line_if
              (ltb 0 n)
              (codes "b=AS:" ++ itoa n)
              (line_if (not (bytes_eq t [])) (codes "a=udp-setup:" ++ t) [])))
          s
        ≡ ok (record s { bandwidth_kbps = pos n; setup = t })
  read_tail n t s h w inside empty zero_bw = elim (Bool-cases (ltb 0 n)) [
    | inr z ↦
        let at_zero : n ≡ 0 = ground arith in rw z (read_setup_if t s w inside empty ∙ ground arith)
    | inl more ↦ rw more (
        lines_loop-line text (codes "b=AS:" ++ itoa n) _ s (record s { bandwidth_kbps = pos n })
          (All-append IsText (codes "b=AS:") (itoa n) (omega arith)
            (Word-Text (itoa n) (itoa-Word n)))
          (read_bandwidth text n s h inside)
        ∙ read_setup_if t (record s { bandwidth_kbps = pos n }) w inside empty)
  ]

  finish-eq :
      (o : Offer)
      → IsSendable o
      → finish text
          (record (after_media o) { bandwidth_kbps = pos o.bandwidth_kbps; setup = o.setup })
        ≡ ok (record {
          addr = o.addr;
          port = pos o.port;
          bandwidth_kbps = pos o.bandwidth_kbps;
          setup = o.setup;
        })
  unfolding finish
  finish-eq o h = ground (arith, h.addr_specified, h.addr_valid)

  addr_Text : (o : Offer) → IsSendable o → All IsText (text.addr_string o.addr)
  addr_Text o h = All-imp (λ c. IsWord c × (c ≢ b'/')) IsText _ (λ c k. omega arith) h.addr_word

  abbrev type_addr : Offer → Bytes
  type_addr o = addr_type o.addr ++ (b' ' ∷ text.addr_string o.addr)

  abbrev origin : Offer → Bytes
  origin o = itoa o.session_id ++ (b' ' ∷ (itoa o.session_ver ++ (codes " IN " ++ type_addr o)))

  type_addr-Text : (o : Offer) → IsSendable o → All IsText (type_addr o)
  type_addr-Text o h =
      All-append IsText (addr_type o.addr) (b' ' ∷ text.addr_string o.addr)
        (Word-Text _ (addr_type-Word o.addr).1) (omega arith, addr_Text o h)

  origin-Text : (o : Offer) → IsSendable o → All IsText (origin o)
  origin-Text o h =
      All-append IsText (itoa o.session_id)
        (b' ' ∷ (itoa o.session_ver ++ (codes " IN " ++ type_addr o)))
        (Word-Text _ (itoa-Word o.session_id))
        (
          omega arith,
          All-append IsText (itoa o.session_ver) (codes " IN " ++ type_addr o)
              (Word-Text _ (itoa-Word o.session_ver))
              (All-append IsText (codes " IN ") (type_addr o) (omega arith) (type_addr-Text o h)),
        )

  media-Text :
      (n : ℕ) → All IsText (codes "m=application " ++ (itoa n ++ codes " udp octet-stream"))
  media-Text n =
      All-append IsText (codes "m=application ") (itoa n ++ codes " udp octet-stream") (omega arith)
        (All-append IsText (itoa n) (codes " udp octet-stream") (Word-Text _ (itoa-Word n))
          (omega arith))

  lines_loop-marshal :
      (o : Offer)
      → IsSendable o
      → lines_loop text (split b'\n' (marshal text o)) initial
        ≡ ok (record (after_media o) { bandwidth_kbps = pos o.bandwidth_kbps; setup = o.setup })
  unfolding marshal
  lines_loop-marshal o h =
      let with_addr = record initial { session_addr = o.addr } in
      lines_loop-line text (codes "v=0") _ initial initial (omega arith)
        (read_other text b'v' (codes "0") initial refl refl refl refl)
      ∙ lines_loop-line text (codes "o=- " ++ origin o) _ initial initial
          (All-append IsText (codes "o=- ") (origin o) (omega arith) (origin-Text o h))
          (read_other text b'o' (codes "- " ++ origin o) initial refl refl refl refl)
      ∙ lines_loop-line text (codes "s=-") _ initial initial (omega arith)
          (read_other text b's' (codes "-") initial refl refl refl refl)
      ∙ lines_loop-line text (codes "c=IN " ++ type_addr o) _ initial with_addr
          (All-append IsText (codes "c=IN ") (type_addr o) (omega arith) (type_addr-Text o h))
          (read_connection text o.addr initial h.addr_read h.addr_ne_nil h.addr_word h.addr_unmapped
            refl)
      ∙ lines_loop-line text (codes "t=0 0") _ with_addr with_addr (omega arith)
          (read_other text b't' (codes "0 0") with_addr refl refl refl refl)
      ∙ lines_loop-line text (codes "m=application " ++ (itoa o.port ++ codes " udp octet-stream"))
          _ with_addr (after_media o) (media-Text o.port)
          (read_media text o.port with_addr h.port_lt)
      ∙ read_tail o.bandwidth_kbps o.setup (after_media o) h.bandwidth_lt h.setup_word refl refl
          refl

  -- What is written is read back: the answer that is parsed from a marshalled offer has the offer's
  -- address, port, bandwidth and setup.
  pub parse_answer-marshal :
      (o : Offer)
      → IsSendable o
      → parse_answer text (marshal text o)
        ≡ ok (record {
          addr = o.addr;
          port = pos o.port;
          bandwidth_kbps = pos o.bandwidth_kbps;
          setup = o.setup;
        })
  unfolding parse_answer
  parse_answer-marshal o h = rw (lines_loop-marshal o h) (finish-eq o h)
