-- ===== src/Cli/Report.antt =====
-- The texts of `--dry-run` that cmd/ngntun/main.go makes itself: `orNone`, `joinPrefixes` and
-- `mediaRouteDesc`.
use ngntun.Base.{not, ◌||◌, List, [], ◌++◌, if◌then◌else◌, Bytes, codes, bytes_eq, map}
use ngntun.Cli.Config.{SessionConfig}
use ngntun.Netip.{NetipText, Prefix}
use ngntun.Text.Split.{join}

-- `orNone`
unfoldable pub or_none : Bytes → Bytes
unfolding bytes_eq
or_none s =
    if bytes_eq s [] || (bytes_eq s (codes "invalid Prefix") || bytes_eq s (codes "invalid IP"))
    then codes "(なし)"
    else s

module _ (text : NetipText) where
  -- `joinPrefixes`
  unfoldable pub join_prefixes : List Prefix → Bytes
  unfolding join
  join_prefixes ps = join (codes ", ") (map text.prefix_string ps)

  -- `mediaRouteDesc`
  unfoldable pub media_route_desc : SessionConfig → Bytes
  unfolding bytes_eq
  media_route_desc cfg =
      if not cfg.media_route
      then codes "off"
      else if bytes_eq cfg.bind_device []
      then codes "auto (--wan-interface 未指定のため何もしない)"
      else codes "auto (到達できなければ via "
        ++ (text.addr_string cfg.media_gateway ++ (codes " dev " ++ (cfg.bind_device ++ codes ")")))
