-- ===== src/Sip/Message/Sendable.antt =====
-- Values that `ParseMessage` of internal/sip/message.go reads back, and the headers that hold them.
use ngntun.Base.{
  false, List, [], ◌∷◌, ◌++◌, ◌≡◌, ◌≢◌, inl, inr, sym, Bytes, All, All-append, Bool-cases, subst,
}
use ngntun.Sip.Header.Laws.{get-values, first_or_nil}
use ngntun.Sip.Header.{Header, Headers, add, get, set, same_name, values}
use ngntun.Sip.Message.HeaderLines.{IsSendable, All-set_loop, starts-clear, word-IsInline}
use ngntun.Sip.Message.Lines.{IsInline}
use ngntun.Text.Space.{is_space, StartsClear, EndsClear, EndsClear-append}
use ngntun.Text.Split.{Lacks}

-- a value of a header that is read back
pub record IsValue (v : Bytes) : Type 0 where
  pub inline : All IsInline v
  pub starts : StartsClear is_space v
  pub ends : EndsClear is_space v

pub value-IsSendable : (hd : Header) → IsSendable hd → IsValue hd.value
value-IsSendable hd s = record {
  inline = s.value_inline;
  starts = s.value_starts;
  ends = s.value_ends;
}

pub nil-IsValue : IsValue []
nil-IsValue = record { inline = tt; starts = tt; ends = tt }

pub values-IsValue : (h : Headers) (name : Bytes) → All IsSendable h → All IsValue (values h name)
unfolding values
values-IsValue [] name k = tt
values-IsValue (hd ∷ h) name (s, k) = elim (Bool-cases (same_name name hd)) [
  | inl q ↦ rw (q, values) (value-IsSendable hd s, values-IsValue h name k)
  | inr q ↦ rw (q, values) (values-IsValue h name k)
]

first-IsValue : (vs : List Bytes) → All IsValue vs → IsValue (first_or_nil vs)
first-IsValue [] k = nil-IsValue
first-IsValue (v ∷ vs) k = k.0

pub get-IsValue : (h : Headers) (name : Bytes) → All IsSendable h → IsValue (get h name)
get-IsValue h name k =
    subst IsValue (sym (get-values h name)) (first-IsValue _ (values-IsValue h name k))

-- a name that is read back
abbrev pub IsName : Bytes → Type 0
IsName n = (n ≢ []) × All (λ c. is_space c ≡ false) n × Lacks b':' n

pub name-IsSendable :
    (name value : Bytes)
    → IsName name
    → IsValue value
    → IsSendable (record { name = name; value = value })
name-IsSendable name value (some, word, lacks) v = record {
  name_some = some;
  name_word = word;
  name_lacks = lacks;
  value_inline = v.inline;
  value_starts = v.starts;
  value_ends = v.ends;
}

pub add-IsSendable :
    (h : Headers) (name value : Bytes)
    → IsName name
    → IsValue value
    → All IsSendable h
    → All IsSendable (add h name value)
unfolding add
add-IsSendable h name value n v k = All-append IsSendable h _ k (name-IsSendable name value n v, tt)

pub set-IsSendable :
    (h : Headers) (name value : Bytes)
    → IsName name
    → IsValue value
    → All IsSendable h
    → All IsSendable (set h name value)
unfolding set
set-IsSendable h name value n v k =
    All-set_loop IsSendable false h name value (name-IsSendable name value n v) k

starts-append :
    (v w : Bytes)
    → StartsClear is_space v
    → All (λ c. is_space c ≡ false) w
    → StartsClear is_space (v ++ w)
starts-append [] w s k = starts-clear w k
starts-append (c ∷ v) w s k = s

-- a word, behind a value
pub append-IsValue :
    (v w : Bytes) → IsValue v → w ≢ [] → All (λ c. is_space c ≡ false) w → IsValue (v ++ w)
append-IsValue v w k ne clear = record {
  inline = All-append IsInline v w k.inline (word-IsInline w clear);
  starts = starts-append v w k.starts clear;
  ends = EndsClear-append is_space v w ne clear;
}
