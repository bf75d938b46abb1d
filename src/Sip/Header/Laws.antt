-- ===== src/Sip/Header/Laws.antt =====
-- The headers of internal/sip/message.go as a map from names to lists of values.
use ngntun.Base.{
  Bool, true, false, List, [], ◌∷◌, ◌++◌, ◌≡◌, ◌⊎◌, inl, inr, refl, sym, ap, ◌∙◌, if◌then◌else◌,
  Bytes, bytes_eq, bytes_eq_iff, arith, Bool-cases,
}
use ngntun.Sip.Header.{Header, Headers, canon, same_name, get, values, add, set_loop, set, del}

-- Do two names stand for the same header?
abbrev pub alike : Bytes → Bytes → Bool
alike m n = bytes_eq (canon m) (canon n)

abbrev pub first_or_nil : List Bytes → Bytes
first_or_nil [] = []
first_or_nil (v ∷ vs) = v

pub get-values : (h : Headers) (name : Bytes) → get h name ≡ first_or_nil (values h name)
unfolding get values
get-values [] name = refl
get-values (hd ∷ h) name = ground (arith, get-values h name)

same_name-alike : (m n : Bytes) (hd : Header) → same_name m hd ≡ true → same_name n hd ≡ alike m n
unfolding same_name
same_name-alike m n hd e = rw ((bytes_eq_iff (canon hd.name) (canon m)).0 e)

-- Names that are alike are the same name of every header.
same_name_congr : (m n : Bytes) (hd : Header) → alike m n ≡ true → same_name m hd ≡ same_name n hd
unfolding same_name
same_name_congr m n hd e = rw ((bytes_eq_iff (canon m) (canon n)).0 e)

-- A header of another name is of no name like it.
alike_split :
    (m n : Bytes) (hd : Header)
    → same_name m hd ≡ false
    → (alike m n ≡ false) ⊎ ((alike m n ≡ true) × (same_name n hd ≡ false))
alike_split m n hd e = elim (Bool-cases (alike m n)) [
  | inl same ↦ inr (same, sym (same_name_congr m n hd same) ∙ e)
  | inr other ↦ inl other
]

same_name_new :
    (name value other : Bytes)
    → same_name other (record { name = name; value = value }) ≡ alike name other
unfolding same_name
same_name_new name value other = refl

abbrev updated : Bool → Headers → Bytes → Bytes → Bytes → List Bytes
updated replaced h name value other =
    if alike name other then (if replaced then [] else value ∷ []) else values h other

values-set_loop :
    (replaced : Bool) (h : Headers) (name value other : Bytes)
    → values (set_loop replaced h name value) other ≡ updated replaced h name value other
unfolding values set_loop
values-set_loop true [] name value other = ground arith
values-set_loop false [] name value other = ground (arith, same_name_new name value other)
values-set_loop true (hd ∷ h) name value other = elim (Bool-cases (same_name name hd)) [
  | inl e ↦
      rw e
        (ground (arith, same_name-alike name other hd e, values-set_loop true h name value other))
  | inr e ↦
      rw e (ground (arith, alike_split name other hd e, values-set_loop true h name value other))
]
values-set_loop false (hd ∷ h) name value other = elim (Bool-cases (same_name name hd)) [
  | inl e ↦ rw e (
      ground (
        arith,
        same_name_new name value other,
        same_name-alike name other hd e,
        values-set_loop true h name value other,
      ))
  | inr e ↦
      rw e (ground (arith, alike_split name other hd e, values-set_loop false h name value other))
]

-- `Set` leaves exactly one header of the name, with the new value, and all values of other names.
pub values-set :
    (h : Headers) (name value other : Bytes)
    → values (set h name value) other ≡ (if alike name other then value ∷ [] else values h other)
unfolding set
values-set h name value other = values-set_loop false h name value other

-- `Del` leaves no header of the name, and all values of other names.
pub values-del :
    (h : Headers) (name other : Bytes)
    → values (del h name) other ≡ (if alike name other then [] else values h other)
unfolding del values
values-del [] name other = ground arith
values-del (hd ∷ h) name other = elim (Bool-cases (same_name name hd)) [
  | inl e ↦ rw e (ground (arith, same_name-alike name other hd e, values-del h name other))
  | inr e ↦ rw e (ground (arith, alike_split name other hd e, values-del h name other))
]

-- `Add` puts the value behind those of the same name.
pub values-add :
    (h : Headers) (name value other : Bytes)
    → values (add h name value) other
      ≡ values h other ++ (if alike name other then value ∷ [] else [])
unfolding add values
values-add [] name value other = ground (arith, same_name_new name value other)
values-add (hd ∷ h) name value other = ground (arith, values-add h name value other)

pub get-set :
    (h : Headers) (name value other : Bytes)
    → get (set h name value) other ≡ (if alike name other then value else get h other)
get-set h name value other =
    get-values (set h name value) other
    ∙ ap first_or_nil (values-set h name value other)
    ∙ ground (arith, get-values h other)
