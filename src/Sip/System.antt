-- ===== src/Sip/System.antt =====
-- All that happens to the tables of the user agent of internal/sip while its goroutines run: each
-- constructor of `Step` is what one of them does under the lock, so that a run is any sequence of
-- steps.
pub mod Runs
pub mod Sound
use ngntun.Base.{Bool, false, List, [], ◌∷◌, some, ◌≡◌, Bytes}
use ngntun.Netip.{AddrPort, NetipText}
use ngntun.Sip.Dialog.{Dialog, Reason, begin_bye, terminate}
use ngntun.Sip.Invite.{accept, finish_invite}
use ngntun.Sip.Message.{Message}
use ngntun.Sip.Request.{begin, close_tx, passes_on, wait_round, provisional}
use ngntun.Sip.Response.{Config, Transport}
use ngntun.Sip.Transaction.{ClientTx, TxError, fail}
use ngntun.Sip.Ua.{Ua, IncomingCall, lookup, put, remove, update_dialog, handle}

-- the tables that `New` makes
abbrev pub new_ua : Ua
new_ua = record { txs = []; dialogs = []; incoming = [] }

module _ (text : NetipText) (cfg : Config) (contact_user : Bytes) where
  pub data Step : Ua → Ua → Type 0 where
    -- a message comes in on one of the two sockets
    heard :
        (tag : Bytes) (m : Message) (src : AddrPort) (tr : Transport) (u : Ua)
        → Step u (handle text cfg contact_user tag m src tr u).0
    -- a request is sent, with its transaction
    began : (sent : Bool) (req : Message) (u : Ua) → Step u (begin sent req u).1
    -- its loop gives up
    gave_up :
        (key : Bytes) (tx : ClientTx) (e : TxError) (u : Ua)
        → lookup key u.txs ≡ some tx
        → Step u (record u { txs = put key (fail e tx) u.txs })
    -- its waiting side takes a provisional response
    passed :
        (key : Bytes) (tx tx' : ClientTx) (m : Message) (u : Ua)
        → lookup key u.txs ≡ some tx
        → wait_round provisional tx ≡ passes_on m tx'
        → Step u (record u { txs = put key tx' u.txs })
    closed : (key : Bytes) (u : Ua) → Step u (close_tx key u)
    -- an INVITE has its final response
    invited :
        (sent : Bool) (req resp : Message) (call_id local_tag local_uri remote_uri branch : Bytes)
        (u : Ua)
        → Step u
            (finish_invite text cfg contact_user sent req resp call_id local_tag local_uri
              remote_uri branch u).ua
    -- the session takes a call from the channel
    taken :
        (c : IncomingCall) (rest : List IncomingCall) (u : Ua)
        → u.incoming ≡ c ∷ rest
        → Step u (record u { incoming = rest })
    accepted :
        (sent : Bool) (c : IncomingCall) (local_tag sdp : Bytes) (u : Ua)
        → Step u (accept text cfg contact_user sent c local_tag sdp u).ua
    -- a BYE takes the next number of its dialog
    bye_begun :
        (key branch : Bytes) (d : Dialog) (u : Ua)
        → lookup key u.dialogs ≡ some d
        → Step u (update_dialog (begin_bye text cfg contact_user d branch).0 u)
    -- a dialog ends: behind a BYE, or with no ACK
    ended :
        (key : Bytes) (r : Reason) (d : Dialog) (u : Ua)
        → lookup key u.dialogs ≡ some d
        → Step u (update_dialog (terminate r d) u)
    -- the session reads the refresh channel of a dialog
    refreshed :
        (key : Bytes) (d : Dialog) (u : Ua)
        → lookup key u.dialogs ≡ some d
        → Step u (update_dialog (record d { refresh = false }) u)
    -- a dialog ends whose Call-ID another one has taken over
    displaced : (key : Bytes) (u : Ua) → Step u (record u { dialogs = remove key u.dialogs })

  pub data Reach (u : Ua) : Ua → Type 0 where
    here : Reach u u
    next : {v w : Ua} → Reach u v → Step v w → Reach u w
