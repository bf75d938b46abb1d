-- ===== src/Sip/Transaction/Delivery.antt =====
-- What the waiting side of internal/sip/transaction.go gets of the responses that come in.
use ngntun.Base.{
  ◌≤◌, Bool, true, false, List, [], ◌∷◌, ◌++◌, Option, none, some, ◌≡◌, inl, inr, refl, ap, sym,
  ◌∙◌, some_injective, ltb, if◌then◌else◌, length, length-append, All, arith, Bool-cases, subst,
  All-append,
}
use ngntun.Sip.Message.{Message, is_provisional}
use ngntun.Sip.Transaction.{ClientTx, TxError, new_tx, receive, fail}

-- One step in the life of a transaction: the receiving side, the loop, or the waiting side, which
-- takes a provisional response from its channel. The index lists the responses that came in.
pub data Life : List Message → ClientTx → Type 0 where
  begin : (invite : Bool) → Life [] (new_tx invite)
  received :
      {ms : List Message} {tx : ClientTx} (m : Message)
      → Life ms tx
      → Life (ms ++ m ∷ []) (receive m tx)
  failed : {ms : List Message} {tx : ClientTx} (e : TxError) → Life ms tx → Life ms (fail e tx)
  took :
      {ms : List Message} {tx : ClientTx} (m : Message) (rest : List Message)
      → tx.provisional ≡ m ∷ rest
      → Life ms tx
      → Life ms (record tx { provisional = rest })

-- the first response that is not provisional
pub first_final : List Message → Option Message
first_final [] = none
first_final (m ∷ ms) = if is_provisional m then first_final ms else some m

-- What all responses satisfy, the first final one does.
pub first_final-All :
    (P : Message → Type 0) (ms : List Message) {m : Message}
    → All P ms
    → first_final ms ≡ some m
    → P m × (is_provisional m ≡ false)
unfolding first_final
first_final-All P [] h e = cc
first_final-All P (x ∷ ms) {m} h e = elim (Bool-cases (is_provisional x)) [
  | inl prov ↦ first_final-All P ms h.1 (rw prov at e)
  | inr fin ↦
      let same : x ≡ m = some_injective (rw fin at e) in
      (subst P same h.0, ap is_provisional (sym same) ∙ fin)
]

abbrev or_else : Option Message → Option Message → Option Message
or_else (some m) o = some m
or_else none o = o

first_final-concat :
    (ms : List Message) (m : Message)
    → first_final (ms ++ m ∷ [])
      ≡ or_else (first_final ms) (if is_provisional m then none else some m)
unfolding first_final
first_final-concat [] m = refl
first_final-concat (x ∷ ms) m = ground (arith, first_final-concat ms m)

pub some_came : List Message → Bool
some_came [] = false
some_came (m ∷ ms) = true

some_came-concat : (ms : List Message) (m : Message) → some_came (ms ++ m ∷ []) ≡ true
unfolding some_came
some_came-concat [] m = refl
some_came-concat (x ∷ ms) m = refl

-- What the channels hold, for the responses that came in.
pub record Holds (ms : List Message) (tx : ClientTx) : Type 0 where
  pub final_is : tx.final ≡ first_final ms
  pub answered_is : tx.got_response ≡ some_came ms
  pub queue_fits : length tx.provisional ≤ 8
  pub queue_provisional : All (λ m. is_provisional m ≡ true) tx.provisional

-- the provisional channel behind `receive`
queue : Message → ClientTx → List Message
queue m tx =
    if is_provisional m
    then (if ltb (length tx.provisional) 8 then tx.provisional ++ m ∷ [] else tx.provisional)
    else tx.provisional

receive-queue : (m : Message) (tx : ClientTx) → queue m tx ≡ (receive m tx).provisional
unfolding receive queue
receive-queue m tx = ground arith

queue-All :
    (m : Message) (tx : ClientTx)
    → All (λ m. is_provisional m ≡ true) tx.provisional
    → All (λ m. is_provisional m ≡ true) (queue m tx)
unfolding queue
queue-All m tx h = elim (Bool-cases (is_provisional m)) [
  | inr fin ↦ rw (fin, queue) h
  | inl prov ↦ elim (Bool-cases (ltb (length tx.provisional) 8)) [
    | inl room ↦ rw (prov, queue) (rw room (All-append _ tx.provisional (m ∷ []) h (prov, tt)))
    | inr full ↦ rw (prov, queue) (rw full h)
  ]
]

receive-Holds :
    (ms : List Message) (tx : ClientTx) (m : Message)
    → Holds ms tx
    → Holds (ms ++ m ∷ []) (receive m tx)
unfolding receive
receive-Holds ms tx m h = elim (Bool-cases (is_provisional m)) [
  | inl prov ↦ record {
    final_is = ground (arith, h.final_is, first_final-concat ms m, prov);
    answered_is = ground (arith, some_came-concat ms m, prov);
    queue_fits = ground (arith, h.queue_fits, length-append tx.provisional (m ∷ []), prov);
    queue_provisional =
        subst (All (λ m. is_provisional m ≡ true)) (receive-queue m tx)
          (queue-All m tx h.queue_provisional);
  }
  | inr fin ↦ record {
    final_is = ground (arith, h.final_is, first_final-concat ms m, fin);
    answered_is = ground (arith, some_came-concat ms m, fin);
    queue_fits = ground (arith, h.queue_fits, fin);
    queue_provisional =
        subst (All (λ m. is_provisional m ≡ true)) (receive-queue m tx)
          (queue-All m tx h.queue_provisional);
  }
]

-- Whatever the interleaving of the receiving side, the resending loop and the waiting side, the
-- final channel holds exactly the first response that is not provisional, later ones never replace
-- it; the flag tells whether any response has come; and the provisional channel holds at most 8
-- responses, provisional ones only.
pub Life-Holds : {ms : List Message} {tx : ClientTx} → Life ms tx → Holds ms tx
unfolding fail
Life-Holds (begin invite) = record {
  final_is = unfold first_final in refl;
  answered_is = unfold some_came in refl;
  queue_fits = omega arith;
  queue_provisional = tt;
}
Life-Holds (received {ms} {tx} m l) = receive-Holds ms tx m (Life-Holds l)
Life-Holds (failed e l) =
    let h = Life-Holds l in
    record {
      final_is = h.final_is;
      answered_is = h.answered_is;
      queue_fits = h.queue_fits;
      queue_provisional = h.queue_provisional;
    }
Life-Holds (took {tx = tx} m rest q l) =
    let h = Life-Holds l in
    record {
      final_is = h.final_is;
      answered_is = h.answered_is;
      queue_fits = omega (arith, h.queue_fits, ap (length {0}) q);
      queue_provisional = (subst (All (λ m. is_provisional m ≡ true)) q h.queue_provisional).1;
    }
