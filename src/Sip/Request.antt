-- ===== src/Sip/Request.antt =====
-- A request of the user agent from its begin to its answer: `begin`, `wait` and `close` of
-- internal/sip/transaction.go over the table of internal/sip/ua.go.
pub mod Answer
use ngntun.Base.{
  Bool, true, false, List, [], ◌∷◌, Option, none, some, if◌then◌else◌, Bytes, bytes_eq, Result, ok,
  err,
}
use ngntun.Sip.Message.{Message, branch, cseq}
use ngntun.Sip.Response.{method_invite}
use ngntun.Sip.Transaction.{ClientTx, TxError, new_tx, tx_key}
use ngntun.Sip.Ua.{Ua, put, remove}

-- the key of the transaction of a request
abbrev pub key_of : Message → Bytes
key_of req = tx_key (branch req) (cseq req).1

-- `close`
unfoldable pub close_tx : Bytes → Ua → Ua
unfolding remove
close_tx key u = record u { txs = remove key u.txs }

-- `begin`: whether the send succeeds is an argument
unfoldable pub begin : Bool → Message → Ua → Option Bytes × Ua
unfolding close_tx bytes_eq
begin sent req u =
    let key = key_of req in
    let tx = new_tx (bytes_eq (cseq req).1 method_invite) in
    let u' = record u { txs = put key tx u.txs } in
    if sent then (some key, u') else (none, close_tx key u')

-- the cases of the `select` in `wait`
pub data Pick : Type 0 where
  final errc provisional context_done : Pick

pub data WaitError : Type 0 where
  failed : TxError → WaitError
  cancelled : WaitError

-- How a round of `wait` goes: it returns, passes a provisional response on, or the channel that was
-- picked is empty, which the `select` does not do.
pub data Round : Type 0 where
  returns : Result WaitError Message → Round
  passes_on : Message → ClientTx → Round
  blocked : Round

-- one round of `wait`
unfoldable pub wait_round : Pick → ClientTx → Round
wait_round final tx = elim tx.final [ some m ↦ returns (ok m) | none ↦ blocked ]
wait_round errc tx = elim tx.errc [ some e ↦ returns (err (failed e)) | none ↦ blocked ]
wait_round provisional tx = elim tx.provisional [
  | [] ↦ blocked
  | m ∷ ms ↦ passes_on m (record tx { provisional = ms })
]
wait_round context_done tx = returns (err cancelled)
