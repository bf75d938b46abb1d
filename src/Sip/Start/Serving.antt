-- ===== src/Sip/Start/Serving.antt =====
-- What `Serve` of internal/sip/transport.go makes of the datagrams that come in.
use ngntun.Base.{
  Bool, true, false, List, [], ◌∷◌, ◌++◌, ◌≡◌, inl, inr, refl, ap, sym, subst, Bytes, Result-cases,
  ok, err,
}
use ngntun.Netip.{AddrPort, NetipText}
use ngntun.Sip.Message.Parse.{parse_message}
use ngntun.Sip.Message.{Message}
use ngntun.Sip.Response.{Config, Transport, Sent}
use ngntun.Sip.Start.{Read, datagram, failed, closing, Served, serve}
use ngntun.Sip.System.{Reach, here, next, heard}
use ngntun.Sip.Ua.{Ua, handle}

-- the messages among the datagrams before the close
pub messages : List Read → List (Bytes × Message × AddrPort)
messages [] = []
messages (closing ∷ rs) = []
messages (failed ∷ rs) = messages rs
messages (datagram tag raw src ∷ rs) = elim (parse_message raw) [
  | err e ↦ messages rs
  | ok m ↦ (tag, m, src) ∷ messages rs
]

-- whether the socket is closed among the reads
pub closes : List Read → Bool
closes [] = false
closes (closing ∷ rs) = true
closes (_ ∷ rs) = closes rs

module _ (text : NetipText) (cfg : Config) (contact_user : Bytes) (tr : Transport) where
  -- the messages one after the other
  pub handle_each : List (Bytes × Message × AddrPort) → Ua → Ua × List Sent
  handle_each [] u = (u, [])
  handle_each ((tag, m, src) ∷ ms) u =
      let (u', out) = handle text cfg contact_user tag m src tr u in
      let (v, later) = handle_each ms u' in (v, out ++ later)

  handle_each-Reach :
      (ms : List (Bytes × Message × AddrPort)) {u v : Ua}
      → Reach text cfg contact_user u v
      → Reach text cfg contact_user u (handle_each ms v).0
  unfolding handle_each
  handle_each-Reach [] r = r
  handle_each-Reach ((tag, m, src) ∷ ms) {u} {v} r =
      handle_each-Reach ms (next r (heard tag m src tr v))

  serve-handle_each :
      (rs : List Read) (u : Ua)
      → ((serve text cfg contact_user tr rs u).ua ≡ (handle_each (messages rs) u).0)
        × ((serve text cfg contact_user tr rs u).out ≡ (handle_each (messages rs) u).1)
        × ((serve text cfg contact_user tr rs u).returned ≡ closes rs)
  unfolding serve handle_each messages closes
  serve-handle_each [] u = (refl, refl, refl)
  serve-handle_each (closing ∷ rs) u = (refl, refl, refl)
  serve-handle_each (failed ∷ rs) u = serve-handle_each rs u
  serve-handle_each (datagram tag raw src ∷ rs) u = elim (Result-cases (parse_message raw)) [
    | inr (e, q) ↦ rw (q, serve, messages) (serve-handle_each rs u)
    | inl (m, q) ↦
        let (v, sent) = handle text cfg contact_user tag m src tr u in
        let (a, b, c) = serve-handle_each rs v in rw (q, serve, messages) (a, ap (◌++◌ sent) b, c)
  ]

  -- What the loop does with the reads of its socket.
  pub record Serves (rs : List Read) (u : Ua) (s : Served) : Type 0 where
    pub ua_is : s.ua ≡ (handle_each (messages rs) u).0
    pub out_is : s.out ≡ (handle_each (messages rs) u).1
    pub returned_is : s.returned ≡ closes rs
    pub reached : Reach text cfg contact_user u s.ua

  -- `Serve` handles exactly the datagrams that are messages, in the order in which they come and up
  -- to the close of the socket, passes over the others and over reads that fail, and returns exactly
  -- upon the close. All that it does to the user agent are steps of the system.
  pub serve-Serves : (rs : List Read) (u : Ua) → Serves rs u (serve text cfg contact_user tr rs u)
  serve-Serves rs u =
      let (a, b, c) = serve-handle_each rs u in
      record {
        ua_is = a;
        out_is = b;
        returned_is = c;
        reached =
            subst (Reach text cfg contact_user u) (sym a) (handle_each-Reach (messages rs) here);
      }
