-- ===== src/Sip/Ua/Tables.antt =====
-- Maps of internal/sip/ua.go as lists of pairs.
use ngntun.Base.{
  List, [], ◌∷◌, none, some, ◌≡◌, ◌≢◌, inl, inr, refl, ap, ◌∙◌, Bytes, bytes_eq, bytes_eq_iff,
  bytes_eq_refl, All, arith, Bool-cases, subst,
}
use ngntun.Sip.Ua.{lookup, remove, put}

module _ {A : Type 0} where
  pub lookup-remove : (key : Bytes) (m : List (Bytes × A)) → lookup key (remove key m) ≡ none
  unfolding lookup remove
  lookup-remove key [] = refl
  lookup-remove key ((k, x) ∷ m) = ground (arith, lookup-remove key m)

  pub lookup-put : (key : Bytes) (x : A) (m : List (Bytes × A)) → lookup key (put key x m) ≡ some x
  unfolding lookup
  lookup-put key x m = rw (bytes_eq_refl key) refl

  pub lookup-remove_other :
      (key other : Bytes) (m : List (Bytes × A))
      → key ≢ other
      → lookup other (remove key m) ≡ lookup other m
  unfolding lookup remove
  lookup-remove_other key other [] ne = refl
  lookup-remove_other key other ((k, x) ∷ m) ne =
      ground (arith, lookup-remove_other key other m ne, bytes_eq_iff k key, bytes_eq_iff k other)

  pub All-remove :
      (P : Bytes × A → Type 0) (key : Bytes) (m : List (Bytes × A)) → All P m → All P (remove key m)
  unfolding remove
  All-remove P key [] h = tt
  All-remove P key ((k, x) ∷ m) h = elim (Bool-cases (bytes_eq k key)) [
    | inl same ↦ rw same (All-remove P key m h.1)
    | inr other ↦ rw other (h.0, All-remove P key m h.1)
  ]

  -- What is found satisfies what all pairs do.
  pub lookup-All :
      (P : Bytes × A → Type 0) (key : Bytes) (m : List (Bytes × A)) {x : A}
      → All P m
      → lookup key m ≡ some x
      → P (key, x)
  unfolding lookup
  lookup-All P key [] h e = cc
  lookup-All P key ((k, y) ∷ m) {x} h e = elim (Bool-cases (bytes_eq k key)) [
    | inl same ↦
        subst P (ap (λ (z : Bytes). (z, y)) ((bytes_eq_iff k key).0 same) ∙ cc (rw same at e)) h.0
    | inr other ↦ lookup-All P key m h.1 (rw other at e)
  ]
