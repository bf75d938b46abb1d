-- ===== src/Sip/Transaction.antt =====
-- `clientTx` of internal/sip/transaction.go: the channels of a client transaction, and the loop that
-- sends the request again. A buffered channel is the list of what it holds; a send with `default`
-- drops what does not fit. Times are milliseconds.
pub mod Delivery
pub mod Schedule
use ngntun.Base.{
  ℕ, zero, suc, ◌+◌, ◌*◌, Bool, true, false, not, ◌&&◌, ◌||◌, List, [], ◌∷◌, ◌++◌, Option, none,
  some, ltb, leb, ◌==◌, if◌then◌else◌, Bytes, codes, length,
}
use ngntun.Sip.Message.{Message, is_provisional}
use ngntun.Text.Case.{to_upper}

abbrev pub timer_t1 : ℕ
timer_t1 = 500

abbrev pub timer_t2 : ℕ
timer_t2 = 4000

abbrev pub timer_b : ℕ
timer_b = 32000

abbrev pub timer_f : ℕ
timer_f = 32000

-- `txKey`
unfoldable pub tx_key : Bytes → Bytes → Bytes
unfolding to_upper
tx_key branch method = branch ++ (b'|' ∷ to_upper method)

pub data TxError : Type 0 where
  timed_out send_failed : TxError

-- What the receiving side and the loop write, and `wait` reads.
pub record ClientTx : Type 0 where
  pub invite : Bool
  pub provisional : List Message
  pub final : Option Message
  pub errc : Option TxError
  pub got_response : Bool

abbrev pub new_tx : Bool → ClientTx
new_tx invite = record {
  invite = invite;
  provisional = [];
  final = none;
  errc = none;
  got_response = false;
}

-- a send on a channel of the given capacity, with `default`
abbrev offer {ℓ} : {A : Type ℓ} → ℕ → List A → A → List A
offer cap q m = if ltb (length q) cap then q ++ m ∷ [] else q

abbrev offer_one {ℓ} : {A : Type ℓ} → Option A → A → Option A
offer_one none m = some m
offer_one (some x) m = some x

-- `receive`
unfoldable pub receive : Message → ClientTx → ClientTx
unfolding is_provisional
receive m tx =
    if is_provisional m
    then record tx { provisional = offer 8 tx.provisional m; got_response = true }
    else record tx { final = offer_one tx.final m; got_response = true }

-- `fail`
unfoldable pub fail : TxError → ClientTx → ClientTx
fail e tx = record tx { errc = offer_one tx.errc e }

-- What wakes the loop: `close`, the deadline, or the retry timer, with the outcome of the send.
pub data Wake : Type 0 where
  stop deadline : Wake
  retry : (sent : Bool) → Wake

-- The loop returns, or goes on with the next interval, behind a send.
pub data Round : Type 0 where
  quit : ClientTx → Round
  again : (interval : ℕ) → ClientTx → Round

abbrev pub next_interval : Bool → ℕ → ℕ
next_interval invite interval =
    let doubled = interval * 2 in if not invite && ltb timer_t2 doubled then timer_t2 else doubled

-- one round of `retransmitLoop`
unfoldable pub retransmit : Wake → ℕ → ClientTx → Round
unfolding fail
retransmit stop interval tx = quit tx
retransmit deadline interval tx = quit (fail timed_out tx)
retransmit (retry sent) interval tx =
    if tx.invite && tx.got_response
    then quit tx
    else if not sent
    then quit (fail send_failed tx)
    else again (next_interval tx.invite interval) tx

-- When the retry timer fires next: before `close` or the deadline, or not at all.
abbrev pub timeout : Bool → ℕ
timeout invite = if invite then timer_b else timer_f

-- The times at which the loop sends the request again, for sends that succeed: the first response is
-- there from the time `answered` on, and `close` comes at the time `closed`. `none` is a loop that
-- has not ended within its fuel.
unfoldable pub schedule : ℕ → Bool → ℕ → ℕ → ℕ → ℕ → Option (List ℕ)
schedule zero invite answered closed interval now = none
schedule (suc f) invite answered closed interval now =
    let t = now + interval in
    let rest = schedule f invite answered closed (next_interval invite interval) t in
    if leb closed t || leb (timeout invite) t
    then some []
    else if invite && leb answered t
    then some []
    else elim rest [ none ↦ none | some ts ↦ some (t ∷ ts) ]
