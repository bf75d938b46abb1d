-- ===== src/Media/Source.antt =====
-- `acceptSource` of internal/media/media.go: which datagrams reach the tun device.
use ngntun.Base.{
  ℕ, true, false, List, [], ◌∷◌, ◌≡◌, ◌≢◌, ◌⊎◌, ◌↔◌, inl, inr, refl, sym, ◌∙◌, arith, All,
  All-append, Option-cases, Bool-cases, ap, ◌==◌,
}
use mathlib.Core.Path.{subst}
use ngntun.Media.Forwarder.{
  Forwarder, Config, Event, from_tun, from_network, Output, to_tun, to_network, accept_source, step,
  run,
}
use ngntun.Netip.{AddrPort, addr_eq_iff, unmap}

-- A source is accepted exactly if its address is the remote's, and its port is the remote's in the
-- strict mode; otherwise its port is the learned one, if one has been learned.
pub accept_source_iff :
    (src : AddrPort) (f : Forwarder)
    → ((accept_source src f).0 ≡ true) ↔ (
        (unmap src.addr ≡ unmap f.cfg.remote.addr)
        × (f.cfg.strict_peer_port ≡ true → src.port ≡ f.cfg.remote.port)
        × (f.cfg.strict_peer_port ≡ false → (f.learned_port ≡ 0) ⊎ (src.port ≡ f.learned_port)))
unfolding accept_source
accept_source_iff src f =
    let same = addr_eq_iff (unmap src.addr) (unmap f.cfg.remote.addr) in
    (
      λ h. (ground (arith, same), ground (arith, same), ground (arith, same)),
      λ h. ground (arith, same),
    )

-- What is written to tun comes from the remote's address, and satisfies `P` of its port.
abbrev pub FromPeer : Config → (ℕ → Type 0) → Output → Type 0
FromPeer cfg P (to_tun src p) = (unmap src.addr ≡ unmap cfg.remote.addr) × P src.port
FromPeer cfg P (to_network dst p) = dst ≡ cfg.remote

FromPeer-imp :
    (cfg : Config) (P Q : ℕ → Type 0) (out : List Output)
    → ((port : ℕ) → P port → Q port)
    → All (FromPeer cfg P) out
    → All (FromPeer cfg Q) out
FromPeer-imp cfg P Q [] g h = tt
FromPeer-imp cfg P Q (to_tun src p ∷ out) g h =
    ((h.0.0, g src.port h.0.1), FromPeer-imp cfg P Q out g h.1)
FromPeer-imp cfg P Q (to_network dst p ∷ out) g h = (h.0, FromPeer-imp cfg P Q out g h.1)

step-cfg : (e : Event) (f : Forwarder) → (step e f).next.cfg ≡ f.cfg
unfolding step
step-cfg (from_tun now p w) f = ground arith
step-cfg (from_network now src p w) f = ground arith
step-cfg _ f = refl

-- A learned port stays.
step-learned_port :
    (e : Event) (f : Forwarder) → f.learned_port ≢ 0 → (step e f).next.learned_port ≡ f.learned_port
unfolding step
step-learned_port (from_tun now p w) f h = ground arith
step-learned_port (from_network now src p w) f h = ground arith
step-learned_port _ f h = refl

step-FromPeer_strict :
    (e : Event) (f : Forwarder)
    → f.cfg.strict_peer_port ≡ true
    → All (FromPeer f.cfg (λ port. port ≡ f.cfg.remote.port)) (step e f).output
unfolding step
step-FromPeer_strict (from_network now src p w) f strict =
    ground (arith, addr_eq_iff (unmap src.addr) (unmap f.cfg.remote.addr))
step-FromPeer_strict (from_tun now p w) f strict = ground arith
step-FromPeer_strict _ f strict = tt

All-unit {ℓ} : {A : Type ℓ} (xs : List A) → All (λ _. Unit {0}) xs
All-unit [] = tt
All-unit (x ∷ xs) = (tt, All-unit xs)

-- A rule for runs: an invariant that each round keeps, and that gives `Q` of all it writes.
module _ (Inv : Forwarder → Type 0) (Q : Output → Type 0)
    (keep : (e : Event) (f : Forwarder)
      → Inv f
      → All Q (step e f).output × Inv (step e f).next) where
  run_rule :
      (es : List Event) (f : Forwarder) → Inv f → All Q (run es f).output × Inv (run es f).next
  unfolding run
  run_rule [] f h = (tt, h)
  run_rule (e ∷ es) f h =
      let now = keep e f h in
      let later = run_rule es (step e f).next now.1 in
      elim (Option-cases (step e f).exit) [
        | inl q ↦ rw (q, run) (All-append Q _ _ now.0 later.0, later.1)
        | inr (x, q) ↦ rw (q, run) now
      ]

-- In the strict mode all that a run writes to tun comes from the remote's address and port, and all
-- that it sends goes to the remote.
pub run-FromPeer_strict :
    (es : List Event) (f : Forwarder)
    → f.cfg.strict_peer_port ≡ true
    → All (FromPeer f.cfg (λ port. port ≡ f.cfg.remote.port)) (run es f).output
run-FromPeer_strict es f strict =
    (run_rule (λ g. g.cfg ≡ f.cfg) (FromPeer f.cfg (λ port. port ≡ f.cfg.remote.port))
      (λ e g same.
        let strict' = ap (λ (c : Config). c.strict_peer_port) same ∙ strict in
        (
          subst (λ c. All (FromPeer c (λ port. port ≡ c.remote.port)) (step e g).output) same
              (step-FromPeer_strict e g strict'),
          step-cfg e g ∙ same,
        ))
      es f refl).0

-- The port of a datagram that is written is the one that is learned behind the round.
step-FromPeer_next :
    (e : Event) (f : Forwarder)
    → f.cfg.strict_peer_port ≡ false
    → All (FromPeer f.cfg (λ port. port ≡ (step e f).next.learned_port)) (step e f).output
unfolding step
step-FromPeer_next (from_network now src p w) f strict =
    ground (arith, addr_eq_iff (unmap src.addr) (unmap f.cfg.remote.addr))
step-FromPeer_next (from_tun now p w) f strict = ground arith
step-FromPeer_next _ f strict = tt

run-learned_port :
    (es : List Event) (f : Forwarder)
    → f.learned_port ≢ 0
    → (run es f).next.learned_port ≡ f.learned_port
run-learned_port es f h =
    (run_rule (λ g. g.learned_port ≡ f.learned_port) (λ _. Unit {0})
      (λ e g same. (All-unit _, step-learned_port e g (λ z. h (sym same ∙ z)) ∙ same)) es f refl).1

abbrev pub OnePort : ℕ → ℕ → Type 0
OnePort p port = (port ≡ 0) ⊎ (port ≡ p)

learned_later :
    (es : List Event) (g : Forwarder) (port : ℕ)
    → port ≡ g.learned_port
    → OnePort (run es g).next.learned_port port
learned_later es g port e = elim (Bool-cases (g.learned_port == 0)) [
  | inl z ↦ inl (ground arith)
  | inr nz ↦ inr (e ∙ sym (run-learned_port es g (ground arith)))
]

-- Unless the strict mode is set, all that a run writes to tun comes from the remote's address and
-- from one port, the one that is learned at the end, or from port 0, which is never learned; and
-- all that it sends goes to the remote.
pub run-FromPeer :
    (es : List Event) (f : Forwarder)
    → f.cfg.strict_peer_port ≡ false
    → All (FromPeer f.cfg (OnePort (run es f).next.learned_port)) (run es f).output
unfolding run
run-FromPeer [] f strict = tt
run-FromPeer (e ∷ es) f strict =
    let r = step e f in
    let first = step-FromPeer_next e f strict in
    let cfg_same = step-cfg e f in
    let later =
      run-FromPeer es r.next (ap (λ (c : Config). c.strict_peer_port) cfg_same ∙ strict) in
    elim (Option-cases r.exit) [
      | inl q ↦
          rw (q, run)
            (All-append _ _ _
              (FromPeer-imp f.cfg (λ port. port ≡ r.next.learned_port) _ r.output
                (λ port. learned_later es r.next port) first)
              (subst
                (λ c.
                  All (FromPeer c (OnePort (run es r.next).next.learned_port))
                    (run es r.next).output)
                cfg_same later))
      | inr (x, q) ↦
          rw (q, run)
            (FromPeer-imp f.cfg (λ port. port ≡ r.next.learned_port) _ r.output (λ port e. inr e)
              first)
    ]
