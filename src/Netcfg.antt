-- ===== src/Netcfg.antt =====
-- internal/netcfg/netcfg_linux.go: the addresses and routes of the tun device, with their undoing.
pub mod Reach
pub mod Rollback
use ngntun.Base.{
  ℕ, ◌+◌, Bool, true, false, not, List, [], ◌∷◌, ◌++◌, Option, none, some, reverse, if◌then◌else◌,
  Bytes, codes, bytes_eq, Result, ok, err, ltb, or_err, map,
}
use ngntun.Netip.{Addr, Prefix, is_valid}

pub record Config : Type 0 where
  pub name : Bytes
  pub mtu : ℕ
  pub addr : Prefix
  pub peer : Addr
  pub routes : List Prefix
  pub table : ℕ

-- A route of the kernel: through a link, with a table or a gateway.
pub record Route : Type 0 where
  pub link : ℕ
  pub dst : Prefix
  pub gateway : Addr
  pub table : ℕ

-- The calls of netlink that change the kernel.
pub data Call : Type 0 where
  link_set_mtu : (link : ℕ) → ℕ → Call
  addr_add addr_del : (link : ℕ) → Prefix → (peer : Addr) → Call
  link_set_up link_set_down : (link : ℕ) → Call
  route_add route_del : Route → Call
  link_del : (link : ℕ) → Call

-- netlink, which is a library: the links by name with their types, the reachability of a host
-- through a device, and the calls, which may fail. A call that fails changes nothing.
pub record Netlink : Type 1 where
  pub Kernel : Type 0
  pub link_by_name : Kernel → Bytes → Option ℕ
  pub link_type : Kernel → ℕ → Bytes
  pub route_get : Kernel → Addr → Bytes → Bool
  pub call : Kernel → Call → Option Kernel

-- What went wrong: no such link, or the call that failed.
pub data NetError : Type 0 where
  no_link : NetError
  call_failed : Call → NetError
  not_tun : NetError

-- The undo steps of `Applied`, each the call that it makes, the newest last.
abbrev pub Applied : Type 0
Applied = List Call

abbrev invalid_addr : Addr
invalid_addr = Addr.invalid

abbrev tun_route : ℕ → ℕ → Prefix → Route
tun_route link table dst = record { link = link; dst = dst; gateway = invalid_addr; table = table }

-- One step of `Apply`: whether it is asked for, its call, and its undo step.
pub record Task : Type 0 where
  pub asked : Bool
  pub todo : Call
  pub undo : List Call

-- what `Apply` does behind the MTU
pub setup_tasks : ℕ → Config → List Task
setup_tasks link cfg =
    record {
      asked = is_valid cfg.addr.addr;
      todo = addr_add link cfg.addr cfg.peer;
      undo = addr_del link cfg.addr cfg.peer ∷ [];
    }
    ∷ record { asked = true; todo = link_set_up link; undo = link_set_down link ∷ [] }
    ∷ map
        (λ dst. record {
          asked = true;
          todo = route_add (tun_route link cfg.table dst);
          undo = route_del (tun_route link cfg.table dst) ∷ [];
        })
        cfg.routes

-- the MTU, which is set with no undo step
pub mtu_task : ℕ → Config → Task
mtu_task link cfg = record { asked = ltb 0 cfg.mtu; todo = link_set_mtu link cfg.mtu; undo = [] }

module _ (net : Netlink) where
  open net use {Kernel, link_by_name, link_type, route_get, call}

  -- the loop of `Rollback`, over the undo steps from the newest on; one that fails is passed over
  undo_all : List Call → Kernel → Kernel
  undo_all [] k = k
  undo_all (c ∷ cs) k = elim (call k c) [ none ↦ undo_all cs k | some k' ↦ undo_all cs k' ]

  -- `Rollback`
  unfoldable pub rollback : Applied → Kernel → Kernel
  unfolding undo_all
  rollback a k = undo_all (reverse a) k

  -- One step of `Apply`: the call, and the undo step that is pushed behind it. `fail` rolls back.
  unfoldable pub perform :
      Call → List Call → Applied → Kernel → Result (NetError × Kernel) (Applied × Kernel)
  unfolding rollback
  perform c undo a k = elim (call k c) [
    | none ↦ err (call_failed c, rollback a k)
    | some k' ↦ ok (a ++ undo, k')
  ]

  -- A step that is made only if the configuration asks for it.
  abbrev perform_if :
      Bool → Call → List Call → Applied → Kernel → Result (NetError × Kernel) (Applied × Kernel)
  perform_if b c undo a k = if b then perform c undo a k else ok (a, k)

  -- Steps in a row; the first failure ends them.
  unfoldable pub perform_all :
      List Task → Applied → Kernel → Result (NetError × Kernel) (Applied × Kernel)
  unfolding perform
  perform_all [] a k = ok (a, k)
  perform_all (t ∷ ts) a k = elim (perform_if t.asked t.todo t.undo a k) [
    | err e ↦ err e
    | ok (a', k') ↦ perform_all ts a' k'
  ]

  -- `Apply`: on success the undo steps, on failure the error; and the kernel behind it.
  unfoldable pub apply : Config → Kernel → Result (NetError × Kernel) (Applied × Kernel)
  unfolding perform_all setup_tasks mtu_task
  apply cfg k = elim (link_by_name k cfg.name) [
    | none ↦ err (no_link, k)
    | some link ↦ perform_all (mtu_task link cfg ∷ setup_tasks link cfg) [] k
  ]

  -- `Exists`
  pub exists : Bytes → Kernel → Bool
  exists name k = elim (link_by_name k name) [ none ↦ false | some link ↦ true ]

  -- `DeleteTun`
  unfoldable pub delete_tun : Bytes → Kernel → Result NetError Kernel
  unfolding bytes_eq
  delete_tun name k = elim (link_by_name k name) [
    | none ↦ err no_link
    | some link ↦
        if not (bytes_eq (link_type k link) (codes "tuntap"))
        then err not_tun
        else or_err (call k (link_del link)) (call_failed (link_del link))
  ]

-- The route to the media destination: where it leads, by what gateway and device.
pub record HostRoute : Type 0 where
  pub dst : Addr
  pub via : Addr
  pub dev : Bytes

-- `BitLen`
abbrev bit_len : Addr → ℕ
bit_len (Addr.ip4 n) = 32
bit_len (Addr.ip6 n zone) = 128
bit_len Addr.invalid = 0

pub host_route : ℕ → HostRoute → Route
host_route link r = record {
  link = link;
  dst = record { addr = r.dst; bits = bit_len r.dst };
  gateway = r.via;
  table = 0;
}

module _ (net : Netlink) where
  open net use {Kernel, link_by_name, route_get, call}

  -- `EnsureHostRoute`; `none` is the nil `*Applied`
  unfoldable pub ensure_host_route : HostRoute → Kernel → Result NetError (Option Applied × Kernel)
  unfolding bytes_eq host_route
  ensure_host_route r k =
      if not (is_valid r.dst)
      then ok (none, k)
      else if bytes_eq r.dev []
      then ok (none, k)
      else elim (link_by_name k r.dev) [
        | none ↦ err no_link
        | some link ↦
            if route_get k r.dst r.dev
            then ok (none, k)
            else let add = route_add (host_route link r) in
              elim (call k add) [
                | none ↦ err (call_failed add)
                | some k' ↦ ok (some (route_del (host_route link r) ∷ []), k')
              ]
      ]

  -- `Rollback` on a pointer that may be nil
  unfoldable pub rollback_opt : Option Applied → Kernel → Kernel
  unfolding rollback
  rollback_opt none k = k
  rollback_opt (some a) k = rollback net a k
