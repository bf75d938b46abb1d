-- ===== src/Sip/Request/Answer.antt =====
-- A request of internal/sip/transaction.go gets the response of its branch and method.
use ngntun.Base.{Bool, true, false, none, some, ◌≡◌, refl, ap, ◌∙◌, Bytes, bytes_eq, ok}
use ngntun.Sip.Message.{Message, cseq, is_provisional}
use ngntun.Sip.Request.{begin, close_tx, final, key_of, returns, wait_round}
use ngntun.Sip.Response.{method_invite}
use ngntun.Sip.Transaction.{new_tx, receive}
use ngntun.Sip.Ua.Tables.{lookup-put, lookup-remove}
use ngntun.Sip.Ua.{Ua, handle_response, lookup, put}

-- the transaction of a request, right behind its begin
begin-lookup :
    (req : Message) (u : Ua)
    → lookup (key_of req) (begin true req u).1.txs
      ≡ some (new_tx (bytes_eq (cseq req).1 method_invite))
unfolding begin
begin-lookup req u = lookup-put (key_of req) _ u.txs

-- A response with the branch and the method of a request that has just been sent is received by the
-- transaction of that request.
pub begin-handle_response :
    (req resp : Message) (u : Ua)
    → key_of resp ≡ key_of req
    → lookup (key_of resp) (handle_response resp (begin true req u).1).0.txs
      ≡ some (receive resp (new_tx (bytes_eq (cseq req).1 method_invite)))
unfolding handle_response
begin-handle_response req resp u e =
    let found = ap (λ (k : Bytes). lookup k (begin true req u).1.txs) e ∙ begin-lookup req u in
    rw (found, handle_response) (lookup-put (key_of resp) _ _)

-- The first response that is not provisional is what `wait` returns.
pub wait_round-receive :
    (invite : Bool) (m : Message)
    → is_provisional m ≡ false
    → wait_round final (receive m (new_tx invite)) ≡ returns (ok m)
unfolding wait_round receive
wait_round-receive invite m e = rw (e, receive, wait_round) refl

-- A request that cannot be sent leaves no transaction, and neither does one that is closed.
pub begin-unsent : (req : Message) (u : Ua) → lookup (key_of req) (begin false req u).1.txs ≡ none
unfolding begin close_tx
begin-unsent req u =
    lookup-remove (key_of req)
      (put (key_of req) (new_tx (bytes_eq (cseq req).1 method_invite)) u.txs)

pub close_tx-lookup : (key : Bytes) (u : Ua) → lookup key (close_tx key u).txs ≡ none
unfolding close_tx
close_tx-lookup key u = lookup-remove key u.txs
