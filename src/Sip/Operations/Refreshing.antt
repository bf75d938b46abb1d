-- ===== src/Sip/Operations/Refreshing.antt =====
-- The registration of internal/sip/ua.go that internal/session/session.go keeps up.
use ngntun.Base.{
  ℕ, ◌+◌, ◌%◌, ◌^◌, ◌<◌, Bool, true, false, List, [], ◌∷◌, ◌≡◌, refl, ◌∙◌, Bytes, arith, All,
}
use ngntun.Netip.{NetipText}
use ngntun.Sip.Operations.Completion.{OnlySteps, Reach-trans, register-Reach}
use ngntun.Sip.Operations.{Wake, tick, done, refresh_registration, register}
use ngntun.Sip.Outgoing.{Registration, begin_register}
use ngntun.Sip.Response.{Config}
use ngntun.Sip.System.{Reach, here}
use ngntun.Sip.Ua.{Ua}

-- the ticks before the end
pub ticks : List Wake → ℕ
ticks [] = 0
ticks (done ∷ ws) = 0
ticks (tick branch sent wait ∷ ws) = ticks ws + 1

pub is_done : List Wake → Bool
is_done [] = false
is_done (done ∷ ws) = true
is_done (tick branch sent wait ∷ ws) = is_done ws

module _ (text : NetipText) (cfg : Config) (user : Bytes) where
  -- What happens while a tick waits are steps of the system.
  abbrev pub Steps : Wake → Type 0
  Steps done = Unit
  Steps (tick branch sent wait) = OnlySteps text cfg user (λ v. (wait v).0)

  -- What the loop leaves.
  pub record Refreshes (ws : List Wake) (reg : Registration) (u : Ua) (r : Bool × Registration × Ua)
      : Type 0 where
    pub returns : r.0 ≡ is_done ws
    pub number : r.1.reg_cseq ≡ (reg.reg_cseq + ticks ws) % 2 ^ 32
    pub same_tag : r.1.reg_tag ≡ reg.reg_tag
    pub same_call : r.1.reg_call_id ≡ reg.reg_call_id
    pub run : Reach text cfg user u r.2

  -- The loop returns exactly upon the end, whatever becomes of its requests; each tick takes the next
  -- number of the one registration, and all that the loop does are steps of the user agent.
  pub refresh_registration-Refreshes :
      (ws : List Wake) (reg : Registration) (u : Ua)
      → All Steps ws
      → reg.reg_cseq < 2 ^ 32
      → Refreshes ws reg u (refresh_registration text cfg user ws reg u)
  unfolding refresh_registration register begin_register ticks is_done
  refresh_registration-Refreshes [] reg u h k = record {
    returns = refl;
    number = omega arith;
    same_tag = refl;
    same_call = refl;
    run = here;
  }
  refresh_registration-Refreshes (done ∷ ws) reg u h k = record {
    returns = refl;
    number = omega arith;
    same_tag = refl;
    same_call = refl;
    run = here;
  }
  refresh_registration-Refreshes (tick branch sent wait ∷ ws) reg u (h, hs) k =
      let reg' = (begin_register text cfg user reg cfg.register_expires branch).0 in
      let once = register-Reach text cfg user cfg.register_expires branch sent wait reg h u in
      let rest = refresh_registration-Refreshes ws reg' _ hs (omega arith) in
      record {
        returns = rest.returns;
        number = rest.number ∙ omega arith;
        same_tag = rest.same_tag;
        same_call = rest.same_call;
        run = Reach-trans text cfg user once rest.run;
      }
