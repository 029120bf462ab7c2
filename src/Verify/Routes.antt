-- ===== src/Verify/Routes.antt =====
-- verify.c: the checks of the desired routes and of the route to the WireGuard peer.
use netrec.Prelude.{
  ℕ, ◌+◌, false, Option, List, [], ◌∷◌, Bytes, codes, text, if◌then◌else◌, Result, ret, err,
}
use netrec.State.{DesiredState, DesiredRoute4, RealState, rs_find_iface}
use netrec.Verify.Calls.{Check, ◌>>=◌, ◌>>◌, pure, say_ok, say_miss, do_act}
use netrec.Verify.Address.{parse_addr_prefix, parse_ip4}
use netrec.Verify.Bridge.{has_route}

-- `route %s via %s dev %s` or `route %s dev %s`.
unfoldable pub route_line : DesiredRoute4 → Bytes
route_line rt =
    if rt.has_via
    then text (codes "route " ∷ rt.dst ∷ codes " via " ∷ rt.via ∷ codes " dev " ∷ rt.dev ∷ [])
    else text (codes "route " ∷ rt.dst ∷ codes " dev " ∷ rt.dev ∷ [])

unfoldable pub route_command : DesiredRoute4 → Bytes
route_command rt =
    if rt.has_via
    then text
        (codes "ip route replace " ∷ rt.dst ∷ codes " via " ∷ rt.via ∷ codes " dev " ∷ rt.dev ∷ [])
    else text (codes "ip route replace " ∷ rt.dst ∷ codes " dev " ∷ rt.dev ∷ [])

module _ (inet_pton : Bytes → Option ℕ) where
  -- `rt->has_via && parse_ip4(rt->via, &via)`, with `via` 0 where there is none.
  unfoldable pub parse_via : DesiredRoute4 → Result ℕ
  parse_via rt = if rt.has_via then parse_ip4 inet_pton rt.via else ret 0

  unfoldable pub check_one_route : RealState → DesiredRoute4 → Check ℕ
  check_one_route rs rt = elim (parse_addr_prefix inet_pton rt.dst) [
    | err e ↦ do
      say_miss (text (codes "route " ∷ rt.dst ∷ codes " dev " ∷ rt.dev ∷ []))
      do_act (text (codes "# bad yaml route.dst " ∷ rt.dst ∷ []))
      pure 1
    | ret (dst, prefix) ↦ elim (parse_via rt) [
      | err e ↦ do
        say_miss (route_line rt)
        do_act (text (codes "# bad yaml route.via " ∷ rt.via ∷ []))
        pure 1
      | ret via ↦
          if has_route rs (rs_find_iface rs rt.dev) dst prefix via rt.has_via
          then (do say_ok (route_line rt); pure 0)
          else do say_miss (route_line rt); do_act (route_command rt); pure 1
    ]
  ]

  unfoldable pub routes_loop : RealState → List DesiredRoute4 → Check ℕ
  routes_loop rs [] = pure 0
  routes_loop rs (rt ∷ more) = do a ← check_one_route rs rt; b ← routes_loop rs more; pure (a + b)

  unfoldable pub check_routes : DesiredState → RealState → Check ℕ
  check_routes ds rs = routes_loop rs ds.routes

  unfoldable pub check_wg_peer_route : DesiredState → RealState → Check ℕ
  check_wg_peer_route ds rs =
      let line = text (codes "route " ∷ ds.wg_peer_ip ∷ codes "/32 dev " ∷ ds.wg_route_dev ∷ []) in
      elim (parse_ip4 inet_pton ds.wg_peer_ip) [
        | err e ↦ do
          say_miss line
          do_act (text (codes "# bad yaml wg.peer_ip " ∷ ds.wg_peer_ip ∷ []))
          pure 1
        | ret ip ↦
            if has_route rs (rs_find_iface rs ds.wg_route_dev) ip 32 0 false
            then (do say_ok line; pure 0)
            else do
              say_miss line
              do_act (
                  text (
                    codes "ip route replace "
                    ∷ ds.wg_peer_ip
                    ∷ codes "/32 dev "
                    ∷ ds.wg_route_dev
                    ∷ []))
              pure 1
      ]
