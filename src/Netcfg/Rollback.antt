-- ===== src/Netcfg/Rollback.antt =====
-- What internal/netcfg/netcfg_linux.go leaves behind when it fails, and after `Rollback`.
use ngntun.Base.{
  ℕ, true, false, List, [], ◌∷◌, ◌++◌, reverse-append, none, some, Option-cases, ◌≡◌, ◌⊎◌, refl,
  ◌∙◌, if◌then◌else◌, Result, ok, err, map, Bool-cases, inl, inr, ltb,
}
use ngntun.Netcfg.{
  Call, link_set_mtu, addr_add, addr_del, link_set_up, link_set_down, route_add, route_del, Route,
  Netlink, NetError, call_failed, Applied, Config, Task, setup_tasks, mtu_task, undo_all, rollback,
  perform, perform_all, apply, tun_route,
}
use ngntun.Netip.{Prefix, Addr}

-- The documented behaviour of netlink and Linux that a rollback relies on. Deleting what a call has
-- added gives the kernel back. Setting a link down behind its setting up gives the kernel back but
-- for addresses that it drops, as Linux does with those of IPv6 unless `keep_addr_on_down` is set:
-- an address that was added to a link with none is dropped, and cannot be deleted then, or stays.
pub record Laws (net : Netlink) : Type 1 where
  pub IsDown : net.Kernel → ℕ → Type 0
  -- down, and without addresses, as a link that has just been created
  pub IsFresh : net.Kernel → ℕ → Type 0
  pub drop : net.Kernel → ℕ → net.Kernel
  pub fresh_down : (link : ℕ) (k : net.Kernel) → IsFresh k link → IsDown k link
  pub addr_back :
      (link : ℕ) (p : Prefix) (peer : Addr) (k k' : net.Kernel)
      → net.call k (addr_add link p peer) ≡ some k'
      → net.call k' (addr_del link p peer) ≡ some k
  pub route_back :
      (r : Route) (k k' : net.Kernel)
      → net.call k (route_add r) ≡ some k'
      → net.call k' (route_del r) ≡ some k
  pub down_drops :
      (link : ℕ) (k k' : net.Kernel)
      → IsDown k link
      → net.call k (link_set_up link) ≡ some k'
      → net.call k' (link_set_down link) ≡ some (drop k link)
  pub drop_fresh : (link : ℕ) (k : net.Kernel) → IsFresh k link → drop k link ≡ k
  pub drop_addr :
      (link : ℕ) (p : Prefix) (peer : Addr) (k k' : net.Kernel)
      → IsFresh k link
      → net.call k (addr_add link p peer) ≡ some k'
      → ((drop k' link ≡ k) × (net.call k (addr_del link p peer) ≡ none)) ⊎ (drop k' link ≡ k')
  pub mtu_fresh :
      (link mtu : ℕ) (k k' : net.Kernel)
      → IsFresh k link
      → net.call k (link_set_mtu link mtu) ≡ some k'
      → IsFresh k' link
  pub addr_down :
      (link : ℕ) (p : Prefix) (peer : Addr) (k k' : net.Kernel)
      → IsDown k link
      → net.call k (addr_add link p peer) ≡ some k'
      → IsDown k' link

module _ (net : Netlink) where
  open net use {Kernel, link_by_name, call}

  -- The kernel is, or a rollback brings it, to `k₀`.
  abbrev pub Restores : Kernel → Result (NetError × Kernel) (Applied × Kernel) → Type 0
  Restores k₀ (ok (a, k)) = rollback net a k ≡ k₀
  Restores k₀ (err (e, k)) = k ≡ k₀

  perform-none :
      (c : Call) (undo : List Call) (a : Applied) (k : Kernel)
      → call k c ≡ none
      → perform net c undo a k ≡ err (call_failed c, rollback net a k)
  unfolding perform
  perform-none c undo a k q = rw (q, perform)

  perform-some :
      (c : Call) (undo : List Call) (a : Applied) (k k' : Kernel)
      → call k c ≡ some k'
      → perform net c undo a k ≡ ok (a ++ undo, k')
  unfolding perform
  perform-some c undo a k k' q = rw (q, perform)

  rollback_last :
      (a : Applied) (u : Call) (k k' : Kernel)
      → call k' u ≡ some k
      → rollback net (a ++ u ∷ []) k' ≡ rollback net a k
  unfolding rollback undo_all
  rollback_last a u k k' q = rw (reverse-append a (u ∷ [])) (rw q)

  rollback-none : (u : Call) (k : Kernel) → call k u ≡ none → rollback net (u ∷ []) k ≡ k
  unfolding rollback undo_all
  rollback-none u k q = rw q refl

  rollback_added : (u : Call) (k k' : Kernel) → call k' u ≡ some k → rollback net (u ∷ []) k' ≡ k
  unfolding rollback undo_all
  rollback_added u k k' q = rw q refl

  -- From this kernel on, wherever the tasks fail, the undo steps so far lead to `k₀`, and at the end
  -- all of them do.
  abbrev Backs : List Task → Applied → Kernel → Kernel → Type 0
  Backs [] a k k₀ = rollback net a k ≡ k₀
  Backs (t ∷ ts) a k k₀ =
      (t.asked ≡ false → Backs ts a k k₀)
      × (t.asked ≡ true
          → (rollback net a k ≡ k₀)
            × ((k' : Kernel) → call k t.todo ≡ some k' → Backs ts (a ++ t.undo) k' k₀))

  perform_all-Restores :
      (ts : List Task) (a : Applied) (k k₀ : Kernel)
      → Backs ts a k k₀
      → Restores k₀ (perform_all net ts a k)
  unfolding perform_all
  perform_all-Restores [] a k k₀ back = back
  perform_all-Restores (t ∷ ts) a k k₀ (skip, do_it) = elim (Bool-cases t.asked) [
    | inr no_call ↦ rw (no_call, perform_all) (perform_all-Restores ts a k k₀ (skip no_call))
    | inl asked ↦ elim (Option-cases (call k t.todo)) [
      | inl q ↦ rw (asked, perform_all) (rw (perform-none t.todo t.undo a k q) (do_it asked).0)
      | inr (k', q) ↦
          rw (asked, perform_all)
            (rw (perform-some t.todo t.undo a k k' q)
              (perform_all-Restores ts (a ++ t.undo) k' k₀ ((do_it asked).1 k' q)))
    ]
  ]

  -- The kernel behind the setting of the MTU, which is the one change that is never undone.
  pub after_mtu : Config → Kernel → Kernel
  after_mtu cfg k = elim (link_by_name k cfg.name) [
    | none ↦ k
    | some link ↦
        if ltb 0 cfg.mtu
        then elim (call k (link_set_mtu link cfg.mtu)) [ none ↦ k | some k' ↦ k' ]
        else k
  ]

module _ (net : Netlink) (laws : Laws net) where
  open net use {Kernel, link_by_name, call}
  open laws use {
    IsFresh, drop, fresh_down, addr_back, route_back, down_drops, drop_fresh, drop_addr, mtu_fresh,
    addr_down,
  }

  abbrev route_task : ℕ → ℕ → Prefix → Task
  route_task link table dst = record {
    asked = true;
    todo = route_add (tun_route link table dst);
    undo = route_del (tun_route link table dst) ∷ [];
  }

  abbrev up_task : ℕ → Task
  up_task link = record { asked = true; todo = link_set_up link; undo = link_set_down link ∷ [] }

  routes-Backs :
      (link table : ℕ) (routes : List Prefix) (a : Applied) (k k₀ : Kernel)
      → rollback net a k ≡ k₀
      → Backs net (map (route_task link table) routes) a k k₀
  routes-Backs link table [] a k k₀ h = h
  routes-Backs link table (dst ∷ routes) a k k₀ h = (
    λ never. cc,
    λ _. (
      h,
      λ k' q.
          routes-Backs link table routes (a ++ route_del (tun_route link table dst) ∷ []) k' k₀ (
            rollback_last net a (route_del (tun_route link table dst)) k k' (route_back _ k k' q)
            ∙ h),
    ),
  )

  -- the address that was added is gone behind the setting down, or can be deleted
  addr-dropped :
      (link : ℕ) (p : Prefix) (peer : Addr) (k k' : Kernel)
      → IsFresh k link
      → call k (addr_add link p peer) ≡ some k'
      → rollback net (addr_del link p peer ∷ []) (drop k' link) ≡ k
  addr-dropped link p peer k k' fresh q = elim (drop_addr link p peer k k' fresh q) [
    | inl (e, gone) ↦ rw e (rollback-none net (addr_del link p peer) k gone)
    | inr e ↦ rw e (rollback_added net (addr_del link p peer) k k' (addr_back link p peer k k' q))
  ]

  up-Backs :
      (link table : ℕ) (routes : List Prefix) (a : Applied) (k k₀ : Kernel)
      → laws.IsDown k link
      → rollback net a k ≡ k₀
      → rollback net a (drop k link) ≡ k₀
      → Backs net (up_task link ∷ map (route_task link table) routes) a k k₀
  up-Backs link table routes a k k₀ down h h' = (
    λ never. cc,
    λ _. (
      h,
      λ k' q. routes-Backs link table routes (a ++ link_set_down link ∷ []) k' k₀ (
          rollback_last net a (link_set_down link) (drop k link) k' (down_drops _ k k' down q)
          ∙ h'),
    ),
  )

  setup_tasks-Backs :
      (link : ℕ) (cfg : Config) (k : Kernel)
      → IsFresh k link
      → Backs net (setup_tasks link cfg) [] k k
  unfolding setup_tasks rollback
  setup_tasks-Backs link cfg k fresh = (
    λ _.
        up-Backs link cfg.table cfg.routes [] k k (fresh_down _ k fresh) refl
          (drop_fresh link k fresh),
    λ _. (
      refl,
      λ k' q.
          up-Backs link cfg.table cfg.routes (addr_del link cfg.addr cfg.peer ∷ []) k' k
            (addr_down _ _ _ k k' (fresh_down _ k fresh) q)
            (rollback_added net (addr_del link cfg.addr cfg.peer) k k' (addr_back _ _ _ k k' q))
            (addr-dropped link cfg.addr cfg.peer k k' fresh q),
    ),
  )

  -- `Apply` is all or nothing but for the MTU. On a link that is down and has no addresses, as a tun
  -- device that has just been created, and whether or not the kernel drops the address of the link
  -- when that is set down again: if `Apply` fails at any step, the
  -- kernel is the one behind the setting of the MTU; if it succeeds, `Rollback` brings the kernel
  -- back to that one.
  pub apply-Restores :
      (cfg : Config) (k : Kernel)
      → ((link : ℕ) → link_by_name k cfg.name ≡ some link → IsFresh k link)
      → Restores net (after_mtu net cfg k) (apply net cfg k)
  unfolding apply after_mtu rollback
  apply-Restores cfg k fresh = elim (Option-cases (link_by_name k cfg.name)) [
    | inl q ↦ rw (q, apply, after_mtu) refl
    | inr (link, q) ↦
        rw (q, apply, after_mtu)
          (elim (Bool-cases (ltb 0 cfg.mtu)) [
            | inr skip ↦
                rw (skip, perform_all, mtu_task)
                  (perform_all-Restores net (setup_tasks link cfg) [] k k
                    (setup_tasks-Backs link cfg k (fresh link q)))
            | inl set ↦ elim (Option-cases (call k (link_set_mtu link cfg.mtu))) [
              | inl f ↦
                  rw (set, perform_all, mtu_task)
                    (rw (perform-none net (link_set_mtu link cfg.mtu) [] [] k f) (rw f refl))
              | inr (k', g) ↦
                  rw (set, perform_all, mtu_task)
                    (rw (perform-some net (link_set_mtu link cfg.mtu) [] [] k k' g) (
                      rw g (
                        perform_all-Restores net (setup_tasks link cfg) [] k' k'
                          (setup_tasks-Backs link cfg k' (mtu_fresh _ _ k k' (fresh link q) g)))))
            ]
          ])
  ]
