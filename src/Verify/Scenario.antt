-- ===== src/Verify/Scenario.antt =====
-- verify.c: one function for each scenario, and the dispatch of `verify_state` over them.
use netrec.Prelude.{
  ℕ, ◌+◌, Bool, ◌||◌, Option, none, some, [], ◌∷◌, Bytes, codes, text, streq, is_empty,
  if◌then◌else◌,
}
use netrec.State.{DesiredState, RealState, Iface, rs_find_iface, rs_find_vxlan, rs_find_vlan}
use netrec.Verify.Calls.{Check, ◌>>=◌, ◌>>◌, pure, say_ok, say_miss, do_act}
use netrec.Verify.Bridge.{check_bridge, check_bridge_addr, check_bridge_gateway, check_bridge_dns}
use netrec.Verify.Links.{check_iface_exists, check_iface_up, check_master, check_bridge_ports}
use netrec.Verify.Routes.{check_routes, check_wg_peer_route}
use netrec.Verify.Vxlan.{check_vxlan_attrs}
use netrec.Verify.Vlan.{check_vlan_attrs}

unfoldable pub verify_only_uplink : DesiredState → RealState → Check ℕ
verify_only_uplink ds rs =
    let up = rs_find_iface rs ds.up_ifname in
    do
      a ← check_iface_exists (codes "uplink") ds.up_ifname up
      elim up [
        | none ↦ do do_act (text (codes "# provide uplink iface " ∷ ds.up_ifname ∷ [])); pure a
        | some i ↦ do b ← check_iface_up ds.up_ifname (some i); pure (a + b)
      ]

-- `check_master` behind an attribute check: only if the interface is not being recreated.
unfoldable pub master_unless : Bool → Bytes → Option Iface → Bytes → RealState → Check ℕ
master_unless recreate ifname iface br_name rs =
    if recreate then pure 0 else check_master ifname iface br_name rs

-- The WireGuard interface of `verify_wg_vxlan_bridge`.
unfoldable pub check_wg : DesiredState → Option Iface → Check ℕ
check_wg ds wg = elim wg [
  | none ↦ do
    a ← say_miss (text (codes "iface " ∷ ds.wg_ifname ∷ []))
    do_act (text (codes "ip link add " ∷ ds.wg_ifname ∷ codes " type wireguard" ∷ []))
    pure a
  | some i ↦ do
    say_ok (text (codes "iface " ∷ ds.wg_ifname ∷ codes " exists" ∷ []))
    check_iface_up ds.wg_ifname (some i)
]

-- `if (ds->up_ifname[0]) diff += verify_only_uplink(ds, rs, ctx);`
unfoldable pub uplink_if_set : DesiredState → RealState → Check ℕ
uplink_if_set ds rs = if is_empty ds.up_ifname then pure 0 else verify_only_uplink ds rs

module _ (inet_pton : Bytes → Option ℕ) where
  unfoldable pub verify_uplink_bridge : DesiredState → RealState → Check ℕ
  verify_uplink_bridge ds rs = do
    a ← check_bridge ds rs
    b ← check_bridge_addr inet_pton ds rs
    c ← check_bridge_gateway inet_pton ds rs
    d ← check_bridge_dns inet_pton ds rs
    e ← verify_only_uplink ds rs
    f ← check_master ds.up_ifname (rs_find_iface rs ds.up_ifname) ds.br_name rs
    g ← check_bridge_ports ds rs
    pure (a + b + c + d + e + f + g)

  unfoldable pub verify_vlan_bridge : DesiredState → RealState → Check ℕ
  verify_vlan_bridge ds rs = do
    a ← check_bridge ds rs
    b ← check_bridge_addr inet_pton ds rs
    c ← check_bridge_gateway inet_pton ds rs
    d ← check_bridge_dns inet_pton ds rs
    e ← verify_only_uplink ds rs
    f ← check_bridge_ports ds rs
    g ← check_vlan_attrs ds rs (rs_find_iface rs ds.vlan_ifname) (rs_find_vlan rs ds.vlan_ifname)
    h ← master_unless g.1 ds.vlan_ifname (rs_find_iface rs ds.vlan_ifname) ds.vlan_bridge rs
    pure (a + b + c + d + e + f + g.0 + h)

  unfoldable pub verify_wg_vxlan_bridge : DesiredState → RealState → Check ℕ
  verify_wg_vxlan_bridge ds rs = do
    a ← check_bridge ds rs
    b ← check_bridge_addr inet_pton ds rs
    c ← check_bridge_gateway inet_pton ds rs
    d ← check_bridge_dns inet_pton ds rs
    e ← uplink_if_set ds rs
    f ← check_bridge_ports ds rs
    p ← check_wg_peer_route inet_pton ds rs
    w ← check_wg ds (rs_find_iface rs ds.wg_ifname)
    g ←
        check_vxlan_attrs inet_pton ds rs (rs_find_iface rs ds.vx_ifname)
          (rs_find_vxlan rs ds.vx_ifname)
    h ← master_unless g.1 ds.vx_ifname (rs_find_iface rs ds.vx_ifname) ds.vx_bridge rs
    pure (a + b + c + d + e + f + p + w + g.0 + h)

  -- The dispatch; `none` is an unsupported scenario.
  unfoldable pub verify_scenario : DesiredState → RealState → Option (Check ℕ)
  verify_scenario ds rs =
      if streq ds.scenario (codes "only_uplink") || streq ds.scenario (codes "only_uplink_iface")
      then some (verify_only_uplink ds rs)
      else if streq ds.scenario (codes "uplink_bridge")
          || streq ds.scenario (codes "uplink_in_bridge")
      then some (verify_uplink_bridge ds rs)
      else if streq ds.scenario (codes "vlan_bridge") || streq ds.scenario (codes "vlan_in_bridge")
      then some (verify_vlan_bridge ds rs)
      else if streq ds.scenario (codes "wg_vxlan_bridge")
      then some (verify_wg_vxlan_bridge ds rs)
      else none

  -- The checks of `verify_state`: those of the scenario, then the routes. An unsupported scenario
  -- returns 1 with no check.
  unfoldable pub verify_checks : DesiredState → RealState → Check ℕ
  verify_checks ds rs = elim (verify_scenario ds rs) [
    | none ↦ pure 1
    | some checks ↦ do a ← checks; b ← check_routes inet_pton ds rs; pure (a + b)
  ]
