-- ===== src/Netcfg/Reach.antt =====
-- `EnsureHostRoute` of internal/netcfg/netcfg_linux.go, and its undoing.
use ngntun.Base.{
  true, [], Option, Option-cases, ◌≡◌, refl, Result, ok, err, Bool-cases, inl, inr, bytes_eq, subst,
}
use ngntun.Netcfg.{
  route_add, Netlink, NetError, Applied, undo_all, rollback, HostRoute, host_route,
  ensure_host_route, rollback_opt,
}
use ngntun.Netip.{is_valid}
use ngntun.Netcfg.Rollback.{Laws}

module _ (net : Netlink) (laws : Laws net) where
  open net use {Kernel, link_by_name, call}
  open laws use {route_back}

  -- A route that is added to the kernel can be taken back, and none is where one is not needed.
  abbrev TakenBack : HostRoute → Kernel → Result NetError (Option Applied × Kernel) → Type 0
  TakenBack r k (ok (a, k')) =
      (rollback_opt net a k' ≡ k) × (net.route_get k r.dst r.dev ≡ true → k' ≡ k)
  TakenBack r k (err e) = Unit

  ensure_host_route-TakenBack :
      (r : HostRoute) (k : Kernel) → TakenBack r k (ensure_host_route net r k)
  unfolding ensure_host_route rollback_opt
  ensure_host_route-TakenBack r k = elim (Bool-cases (is_valid r.dst)) [
    | inr bad ↦ rw (bad, ensure_host_route) (refl, λ _. refl)
    | inl valid ↦ elim (Bool-cases (bytes_eq r.dev [])) [
      | inl no_dev ↦ rw (valid, ensure_host_route) (rw no_dev (refl, λ _. refl))
      | inr dev ↦ elim (Option-cases (link_by_name k r.dev)) [
        | inl q ↦ rw (valid, ensure_host_route) (rw dev (rw q tt))
        | inr (link, q) ↦ elim (Bool-cases (net.route_get k r.dst r.dev)) [
          | inl there ↦ rw (valid, ensure_host_route) (rw dev (rw q (rw there (refl, λ _. refl))))
          | inr away ↦ elim (Option-cases (call k (route_add (host_route link r)))) [
            | inl f ↦ rw (valid, ensure_host_route) (rw dev (rw q (rw away (rw f tt))))
            | inr (k', g) ↦
                rw (valid, ensure_host_route)
                  (rw dev (
                    rw q (
                      rw away (
                        rw g (
                          rw
                              (
                                route_back (host_route link r) k k' g,
                                rollback_opt,
                                rollback,
                                undo_all,
                              )
                              refl,
                          λ there. cc,
                        )))))
          ]
        ]
      ]
    ]
  ]

  -- `Rollback` of what `EnsureHostRoute` returns gives the kernel back, also where it is nil; and
  -- nothing is added where the destination is reachable through the device.
  pub ensure_host_route-rollback_opt :
      (r : HostRoute) (k k' : Kernel) {a : Option Applied}
      → ensure_host_route net r k ≡ ok (a, k')
      → (rollback_opt net a k' ≡ k) × (net.route_get k r.dst r.dev ≡ true → k' ≡ k)
  ensure_host_route-rollback_opt r k k' h =
      subst (TakenBack r k) h (ensure_host_route-TakenBack r k)
