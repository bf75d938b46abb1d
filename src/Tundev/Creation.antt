-- ===== src/Tundev/Creation.antt =====
-- What `Create` of internal/tundev leaves open, and the name that the kernel is given.
use ngntun.Base.{
  ℕ, zero, suc, ◌-◌, ◌<◌, ◌==◌, Bool, true, false, ◌||◌, List, [], ◌∷◌, ◌++◌, ◌≡◌, ◌≢◌, refl, sym,
  ap, ◌∙◌, Bytes, arith, All, Bool-cases, inl, inr, bytes_eq, bytes_eq_iff, leb, length,
  length-append, take, ok, err, if◌then◌else◌,
}
use ngntun.Tundev.{
  Answers, Call, Created, CreateError, Errno, Ifreq, closed, create, ebusy, name_field, none_set,
  opened, other, tunsetiff, zeros,
}

-- Whether the device file is open behind the calls.
pub is_open : Bool → List Call → Bool
is_open b [] = b
is_open b (opened works ∷ cs) = is_open (works || b) cs
is_open b (tunsetiff r ∷ cs) = is_open b cs
is_open b (closed ∷ cs) = is_open false cs

-- the requests among the calls
pub requests : List Call → List Ifreq
requests [] = []
requests (tunsetiff r ∷ cs) = r ∷ requests cs
requests (_ ∷ cs) = requests cs

-- A field as the kernel reads it: up to the first zero byte.
pub c_string : Bytes → Bytes
c_string [] = []
c_string (c ∷ s) = let rest = c_string s in if c == 0 then [] else c ∷ rest

c_string-zeros : (n : ℕ) → c_string (zeros n) ≡ []
unfolding c_string zeros
c_string-zeros zero = refl
c_string-zeros (suc n) = refl

c_string-append :
    (name : Bytes) (n : ℕ) → All (λ c. (c == 0) ≡ false) name → c_string (name ++ zeros n) ≡ name
unfolding c_string
c_string-append [] n k = c_string-zeros n
c_string-append (c ∷ s) n (k, ks) = rw k (ap (◌∷◌ c) (c_string-append s n ks))

length-zeros : (n : ℕ) → length (zeros n) ≡ n
unfolding zeros
length-zeros zero = refl
length-zeros (suc n) = omega (arith, length-zeros n)

take_fits : (size : ℕ) (name : Bytes) → length name < size → take size name ≡ name
take_fits zero name h = absurd (omega arith)
take_fits (suc n) [] h = refl
take_fits (suc n) (c ∷ s) h = ap (◌∷◌ c) (take_fits n s (omega arith))

name_field-fits :
    (size : ℕ) (name : Bytes)
    → length name < size
    → name_field size name ≡ name ++ zeros (size - length name)
unfolding name_field
name_field-fits size name h =
    ap (λ (t : Bytes). t ++ zeros (size - length name)) (take_fits size name h)

length-name_field :
    (size : ℕ) (name : Bytes) → length name < size → length (name_field size name) ≡ size
length-name_field size name h =
    ap (length {0}) (name_field-fits size name h)
    ∙ omega
        (arith, length-append name (zeros (size - length name)), length-zeros (size - length name))

-- What `Create` has done.
pub record Creates (size : ℕ) (name : Bytes) (c : Created) : Type 0 where
  pub made :
      {device : Bytes}
      → c.result ≡ ok device
      → (device ≡ name) × (name ≢ []) × (length name < size) × (is_open false c.calls ≡ true)
  pub failed : {e : CreateError} → c.result ≡ err e → is_open false c.calls ≡ false
  -- Every request has a field of the full size, from which the name is read.
  pub named :
      All (λ c. (c == 0) ≡ false) name
      → All
          (λ (r : Ifreq).
            (length r.name ≡ size) × (c_string r.name ≡ name) × (r.tun ≡ true) × (r.no_pi ≡ true))
          (requests c.calls)

fails :
    (size : ℕ) (name : Bytes) {e : CreateError} (cs : List Call)
    → is_open false cs ≡ false
    → requests cs ≡ []
    → Creates size name (record { calls = cs; result = err e })
fails size name cs h k = record { made = λ z. cc; failed = λ z. h; named = λ z. rw k tt }

asked :
    (size : ℕ) (x : Errno) (name : Bytes)
    → bytes_eq name [] ≡ false
    → leb size (length name) ≡ false
    → Creates size name (create size (record { opens = true; ioctl = x }) name)
unfolding create is_open requests
asked size x name q q' =
    let fits : length name < size = ground (arith, q') in
    let some_name : name ≢ [] = λ e. ground (arith, q, bytes_eq_iff name [], e) in
    let field = length-name_field size name fits in
    let read = λ (k : All (λ c. (c == 0) ≡ false) name).
      ap c_string (name_field-fits size name fits) ∙ c_string-append name (size - length name) k in
    elim x as (λ y. Creates size name (create size (record { opens = true; ioctl = y }) name)) [
      | none_set ↦
          rw (q, q', create)
            (record {
              made = λ e. (sym (cc e), some_name, fits, refl);
              failed = λ e. cc;
              named = λ k. ((field, read k, refl, refl), tt);
            })
      | ebusy ↦
          rw (q, q', create)
            (record {
              made = λ e. cc;
              failed = λ e. refl;
              named = λ k. ((field, read k, refl, refl), tt);
            })
      | other ↦
          rw (q, q', create)
            (record {
              made = λ e. cc;
              failed = λ e. refl;
              named = λ k. ((field, read k, refl, refl), tt);
            })
    ]

created :
    (size : ℕ) (opens : Bool) (x : Errno) (name : Bytes)
    → Creates size name (create size (record { opens = opens; ioctl = x }) name)
unfolding create is_open requests
created size opens x name = elim (Bool-cases (bytes_eq name [])) [
  | inl q ↦ rw (q, create) (fails size name [] refl refl)
  | inr q ↦ elim (Bool-cases (leb size (length name))) [
    | inl q' ↦ rw (q, q', create) (fails size name [] refl refl)
    | inr q' ↦
        elim opens
          as (λ b. Creates size name (create size (record { opens = b; ioctl = x }) name)) [
            | true ↦ asked size x name q q'
            | false ↦ rw (q, q', create) (fails size name (opened false ∷ []) refl refl)
          ]
  ]
]

-- A device is created only for a name that is there and shorter than the field; the file stays open
-- exactly behind a success, and the kernel is asked for a tun device of that name, with no packet
-- information, in a field of the full size.
pub create-Creates :
    (size : ℕ) (a : Answers) (name : Bytes) → Creates size name (create size a name)
create-Creates size a name = created size a.opens a.ioctl name
