-- ===== src/Sip/Response/Echo.antt =====
-- What a response of internal/sip/ua.go takes over from its request.
use ngntun.Base.Int.{ℤ}
use ngntun.Base.{
  List, [], ◌∷◌, ◌++◌, append-nil, append_assoc, ◌≡◌, ◌≢◌, ◌⊎◌, inl, inr, refl, sym, ap, ◌∙◌,
  if◌then◌else◌, Bytes, codes, bytes_eq, bytes_eq_iff, arith, Bool-cases,
}
use ngntun.Sip.Header.Laws.{alike, values-add, get-values, first_or_nil}
use ngntun.Sip.Header.{Headers, canon, add, get, values}
use ngntun.Sip.Message.{Message, call_id}
use ngntun.Sip.Param.{param}
use ngntun.Sip.Response.{copy_headers, tagged, response_to}

values-copy_headers :
    (name : Bytes) (vs : List Bytes) (h : Headers) (other : Bytes)
    → values (copy_headers name vs h) other
      ≡ values h other ++ (if alike name other then vs else [])
unfolding copy_headers
values-copy_headers name [] h other = elim (Bool-cases (alike name other)) [
  | inl same ↦ rw same (sym (append-nil (values h other)))
  | inr differs ↦ rw differs (sym (append-nil (values h other)))
]
values-copy_headers name (v ∷ vs) h other =
    values-copy_headers name vs (add h name v) other
    ∙ ap (λ (l : List Bytes). l ++ (if alike name other then vs else []))
        (values-add h name v other)
    ∙ elim (Bool-cases (alike name other)) [
      | inl same ↦ rw same (append_assoc (values h other) (v ∷ []) vs)
      | inr differs ↦ rw differs (append_assoc (values h other) [] [])
    ]

abbrev only : Bytes → Bytes → List Bytes → List Bytes
only name other vs = if alike name other then vs else []

-- the headers of a response by name
values-response_to :
    (req : Message) (status : ℤ) (reason tag other : Bytes)
    → values (response_to req status reason tag).headers other
      ≡ (((only (codes "Via") other (values req.headers (codes "Via"))
              ++ only (codes "From") other (get req.headers (codes "From") ∷ []))
            ++ only (codes "To") other (tagged (get req.headers (codes "To")) tag ∷ []))
          ++ only (codes "Call-ID") other (call_id req ∷ []))
        ++ only (codes "CSeq") other (get req.headers (codes "CSeq") ∷ [])
unfolding response_to
values-response_to req status reason tag other =
    rw values-add (rw values-add (rw values-add (rw values-add (rw values-copy_headers refl))))

-- What a response takes over from the request.
pub record Echoes (req resp : Message) (tag : Bytes) : Type 0 where
  pub via : values resp.headers (codes "Via") ≡ values req.headers (codes "Via")
  pub from : get resp.headers (codes "From") ≡ get req.headers (codes "From")
  pub call_id_is : call_id resp ≡ call_id req
  pub cseq_is : get resp.headers (codes "CSeq") ≡ get req.headers (codes "CSeq")
  pub to_kept :
      (param (get req.headers (codes "To")) (codes "tag") ≢ []) ⊎ (tag ≡ [])
      → get resp.headers (codes "To") ≡ get req.headers (codes "To")
  pub to_tagged :
      param (get req.headers (codes "To")) (codes "tag") ≡ []
      → tag ≢ []
      → get resp.headers (codes "To") ≡ get req.headers (codes "To") ++ (codes ";tag=" ++ tag)

get_of_values :
    (h : Headers) (name v : Bytes) (vs : List Bytes) → values h name ≡ v ∷ vs → get h name ≡ v
get_of_values h name v vs e = get-values h name ∙ ap first_or_nil e

get-To :
    (req : Message) (status : ℤ) (reason tag : Bytes)
    → get (response_to req status reason tag).headers (codes "To")
      ≡ tagged (get req.headers (codes "To")) tag
unfolding canon bytes_eq
get-To req status reason tag =
    get_of_values _ (codes "To") _ [] (values-response_to req status reason tag (codes "To"))

tagged_kept : (to tag : Bytes) → (param to (codes "tag") ≢ []) ⊎ (tag ≡ []) → tagged to tag ≡ to
unfolding tagged
tagged_kept to tag h = ground (arith, bytes_eq_iff (param to (codes "tag")) [], bytes_eq_iff tag [])

tagged_added :
    (to tag : Bytes)
    → param to (codes "tag") ≡ []
    → tag ≢ []
    → tagged to tag ≡ to ++ (codes ";tag=" ++ tag)
unfolding tagged
tagged_added to tag h k =
    ground (arith, bytes_eq_iff (param to (codes "tag")) [], bytes_eq_iff tag [])

-- A response repeats all Via headers of the request in their order, its From, Call-ID and CSeq, and
-- its To, which gets the own tag exactly if it has no tag and the own tag is not empty.
pub response_to-Echoes :
    (req : Message) (status : ℤ) (reason tag : Bytes)
    → Echoes req (response_to req status reason tag) tag
unfolding canon bytes_eq call_id
response_to-Echoes req status reason tag =
    let found = values-response_to req status reason tag in
    record {
      via = found (codes "Via") ∙ simp append-nil;
      from = get_of_values _ (codes "From") _ [] (found (codes "From"));
      call_id_is = get_of_values _ (codes "Call-ID") _ [] (found (codes "Call-ID"));
      cseq_is = get_of_values _ (codes "CSeq") _ [] (found (codes "CSeq"));
      to_kept = λ h. get-To req status reason tag ∙ tagged_kept _ tag h;
      to_tagged = λ h k. get-To req status reason tag ∙ tagged_added _ tag h k;
    }
