-- ===== src/Verify/Tally.antt =====
-- The value of a check is the number of MISS lines that it prints.
use netrec.Prelude.{
  ℕ, suc, ◌+◌, ◌≡◌, ◌≢◌, inl, inr, refl, Option-cases, Bool, Option, none, some, List, [], ◌∷◌,
  ◌++◌, arith, Bytes,
}
use netrec.State.{DesiredState, DesiredRoute4, RealState, Iface, Vxlan, Vlan}
use netrec.Verify.Calls.{Call, ok, miss, act, Check}
use netrec.Verify.Bridge.{
  check_bridge, check_dhcp, check_static, check_bridge_addr, check_bridge_gateway, check_one_dns,
  dns_loop, check_bridge_dns,
}
use netrec.Verify.Links.{
  check_iface_exists, check_iface_up, check_master, check_one_port, ports_loop, check_bridge_ports,
}
use netrec.Verify.Routes.{check_one_route, routes_loop, check_routes, check_wg_peer_route}
use netrec.Verify.Vxlan.{
  create_vxlan, check_vni, check_remote, check_vxlan_dev, vxlan_missing, vxlan_settle,
  check_vxlan_attrs,
}
use netrec.Verify.Vlan.{
  create_vlan, check_vlan_id, check_vlan_link, vlan_missing, vlan_settle, check_vlan_attrs,
}
use netrec.Verify.Scenario.{
  verify_only_uplink, master_unless, check_wg, uplink_if_set, verify_uplink_bridge,
  verify_vlan_bridge, verify_wg_vxlan_bridge, verify_scenario, verify_checks,
}

-- How many of the calls are `miss`.
abbrev pub misses : List Call → ℕ
misses [] = 0
misses (ok s ∷ cs) = misses cs
misses (miss s ∷ cs) = suc (misses cs)
misses (act s ∷ cs) = misses cs

pub misses-append : (xs ys : List Call) → misses (xs ++ ys) ≡ misses xs + misses ys
misses-append [] ys = omega arith
misses-append (ok s ∷ xs) ys = misses-append xs ys
misses-append (miss s ∷ xs) ys = omega (arith, misses-append xs ys)
misses-append (act s ∷ xs) ys = misses-append xs ys

check_bridge-Tally :
    (ds : DesiredState) (rs : RealState) → misses (check_bridge ds rs).1 ≡ (check_bridge ds rs).0
unfolding check_bridge
check_bridge-Tally ds rs = ground arith

check_bridge_addr-Tally :
    (net : Bytes → Option ℕ) (ds : DesiredState) (rs : RealState)
    → misses (check_bridge_addr net ds rs).1 ≡ (check_bridge_addr net ds rs).0
unfolding check_bridge_addr check_dhcp check_static
check_bridge_addr-Tally net ds rs = ground arith

check_one_dns-Tally :
    (net : Bytes → Option ℕ) (ds : DesiredState) (rs : RealState) (d : Bytes)
    → misses (check_one_dns net ds rs d).1 ≡ (check_one_dns net ds rs d).0
unfolding check_one_dns
check_one_dns-Tally net ds rs d = ground arith

dns_loop-Tally :
    (net : Bytes → Option ℕ) (ds : DesiredState) (rs : RealState) (l : List Bytes)
    → misses (dns_loop net ds rs l).1 ≡ (dns_loop net ds rs l).0
unfolding dns_loop
dns_loop-Tally net ds rs [] = refl
dns_loop-Tally net ds rs (d ∷ l) =
    simp misses-append (omega (arith, check_one_dns-Tally net ds rs d, dns_loop-Tally net ds rs l))

pub check_bridge_gateway-Tally :
    (net : Bytes → Option ℕ) (ds : DesiredState) (rs : RealState)
    → misses (check_bridge_gateway net ds rs).1 ≡ (check_bridge_gateway net ds rs).0
unfolding check_bridge_gateway
check_bridge_gateway-Tally net ds rs = ground arith

check_bridge_dns-Tally :
    (net : Bytes → Option ℕ) (ds : DesiredState) (rs : RealState)
    → misses (check_bridge_dns net ds rs).1 ≡ (check_bridge_dns net ds rs).0
unfolding check_bridge_dns
check_bridge_dns-Tally net ds rs = dns_loop-Tally net ds rs ds.br_dns

check_master-Tally :
    (n : Bytes) (i : Option Iface) (b : Bytes) (rs : RealState)
    → misses (check_master n i b rs).1 ≡ (check_master n i b rs).0
unfolding check_master
check_master-Tally n i b rs = ground arith

check_one_port-Tally :
    (ds : DesiredState) (rs : RealState) (p : Bytes)
    → misses (check_one_port ds rs p).1 ≡ (check_one_port ds rs p).0
unfolding check_one_port check_iface_exists check_iface_up check_master
check_one_port-Tally ds rs p = ground arith

ports_loop-Tally :
    (ds : DesiredState) (rs : RealState) (l : List Bytes)
    → misses (ports_loop ds rs l).1 ≡ (ports_loop ds rs l).0
unfolding ports_loop
ports_loop-Tally ds rs [] = refl
ports_loop-Tally ds rs (p ∷ l) =
    simp misses-append (omega (arith, check_one_port-Tally ds rs p, ports_loop-Tally ds rs l))

check_bridge_ports-Tally :
    (ds : DesiredState) (rs : RealState)
    → misses (check_bridge_ports ds rs).1 ≡ (check_bridge_ports ds rs).0
unfolding check_bridge_ports
check_bridge_ports-Tally ds rs = ports_loop-Tally ds rs ds.br_ports

check_one_route-Tally :
    (net : Bytes → Option ℕ) (rs : RealState) (rt : DesiredRoute4)
    → misses (check_one_route net rs rt).1 ≡ (check_one_route net rs rt).0
unfolding check_one_route
check_one_route-Tally net rs rt = ground arith

routes_loop-Tally :
    (net : Bytes → Option ℕ) (rs : RealState) (l : List DesiredRoute4)
    → misses (routes_loop net rs l).1 ≡ (routes_loop net rs l).0
unfolding routes_loop
routes_loop-Tally net rs [] = refl
routes_loop-Tally net rs (r ∷ l) =
    simp misses-append (omega (arith, check_one_route-Tally net rs r, routes_loop-Tally net rs l))

check_routes-Tally :
    (net : Bytes → Option ℕ) (ds : DesiredState) (rs : RealState)
    → misses (check_routes net ds rs).1 ≡ (check_routes net ds rs).0
unfolding check_routes
check_routes-Tally net ds rs = routes_loop-Tally net rs ds.routes

check_wg_peer_route-Tally :
    (net : Bytes → Option ℕ) (ds : DesiredState) (rs : RealState)
    → misses (check_wg_peer_route net ds rs).1 ≡ (check_wg_peer_route net ds rs).0
unfolding check_wg_peer_route
check_wg_peer_route-Tally net ds rs = ground arith

check_vxlan_attrs-Tally :
    (net : Bytes → Option ℕ) (ds : DesiredState) (rs : RealState) (i : Option Iface)
    (v : Option Vxlan)
    → misses (check_vxlan_attrs net ds rs i v).1 ≡ (check_vxlan_attrs net ds rs i v).0.0
unfolding check_vxlan_attrs vxlan_missing create_vxlan vxlan_settle check_vni check_remote
    check_vxlan_dev check_iface_up
check_vxlan_attrs-Tally net ds rs i v = ground arith

check_vlan_attrs-Tally :
    (ds : DesiredState) (rs : RealState) (i : Option Iface) (v : Option Vlan)
    → misses (check_vlan_attrs ds rs i v).1 ≡ (check_vlan_attrs ds rs i v).0.0
unfolding check_vlan_attrs vlan_missing create_vlan vlan_settle check_vlan_id check_vlan_link
    check_iface_up
check_vlan_attrs-Tally ds rs i v = ground arith

master_unless-Tally :
    (b : Bool) (n : Bytes) (i : Option Iface) (br : Bytes) (rs : RealState)
    → misses (master_unless b n i br rs).1 ≡ (master_unless b n i br rs).0
unfolding master_unless
master_unless-Tally b n i br rs = ground (arith, check_master-Tally n i br rs)

check_wg-Tally :
    (ds : DesiredState) (i : Option Iface) → misses (check_wg ds i).1 ≡ (check_wg ds i).0
unfolding check_wg check_iface_up
check_wg-Tally ds i = ground arith

verify_only_uplink-Tally :
    (ds : DesiredState) (rs : RealState)
    → misses (verify_only_uplink ds rs).1 ≡ (verify_only_uplink ds rs).0
unfolding verify_only_uplink check_iface_exists check_iface_up
verify_only_uplink-Tally ds rs = ground arith

uplink_if_set-Tally :
    (ds : DesiredState) (rs : RealState) → misses (uplink_if_set ds rs).1 ≡ (uplink_if_set ds rs).0
unfolding uplink_if_set
uplink_if_set-Tally ds rs = ground (arith, verify_only_uplink-Tally ds rs)

ruleset tallies = (
  misses-append, check_bridge-Tally, check_bridge_addr-Tally, check_bridge_gateway-Tally,
  check_bridge_dns-Tally, verify_only_uplink-Tally, check_master-Tally, check_bridge_ports-Tally,
  check_vlan_attrs-Tally, check_vxlan_attrs-Tally, master_unless-Tally, check_wg-Tally,
  check_wg_peer_route-Tally, uplink_if_set-Tally, check_routes-Tally,
)

module _ (net : Bytes → Option ℕ) (ds : DesiredState) (rs : RealState) where
  verify_uplink_bridge-Tally :
      misses (verify_uplink_bridge net ds rs).1 ≡ (verify_uplink_bridge net ds rs).0
  unfolding verify_uplink_bridge
  verify_uplink_bridge-Tally = simp tallies (omega arith)

  verify_vlan_bridge-Tally :
      misses (verify_vlan_bridge net ds rs).1 ≡ (verify_vlan_bridge net ds rs).0
  unfolding verify_vlan_bridge
  verify_vlan_bridge-Tally = simp tallies (omega arith)

  verify_wg_vxlan_bridge-Tally :
      misses (verify_wg_vxlan_bridge net ds rs).1 ≡ (verify_wg_vxlan_bridge net ds rs).0
  unfolding verify_wg_vxlan_bridge
  verify_wg_vxlan_bridge-Tally = simp tallies (omega arith)

  verify_scenario-Tally : (m : Check ℕ) → verify_scenario net ds rs ≡ some m → misses m.1 ≡ m.0
  unfolding verify_scenario
  verify_scenario-Tally m h = ground (
    arith,
    verify_only_uplink-Tally ds rs,
    verify_uplink_bridge-Tally,
    verify_vlan_bridge-Tally,
    verify_wg_vxlan_bridge-Tally,
  )

  -- The checks of a supported scenario and those of the routes behind them.
  pub verify_checks-of_some :
      (m : Check ℕ)
      → verify_scenario net ds rs ≡ some m
      → verify_checks net ds rs
        ≡ (m.0 + (check_routes net ds rs).0, m.1 ++ ((check_routes net ds rs).1 ++ []))
  unfolding verify_checks
  verify_checks-of_some m h = rw (h, verify_checks)

  -- An unsupported scenario counts as one difference.
  pub verify_checks-of_none : verify_scenario net ds rs ≡ none → verify_checks net ds rs ≡ (1, [])
  unfolding verify_checks
  verify_checks-of_none h = rw (h, verify_checks)

  -- For a supported scenario the diff is the number of the `miss` calls, over the checks of the
  -- scenario and of all its routes.
  pub verify_checks-misses :
      verify_scenario net ds rs ≢ none
      → misses (verify_checks net ds rs).1 ≡ (verify_checks net ds rs).0
  verify_checks-misses h = elim (Option-cases (verify_scenario net ds rs)) [
    | inl e ↦ absurd (h e)
    | inr (m, e) ↦ rw (verify_checks-of_some m e) (
        simp misses-append (omega (arith, verify_scenario-Tally m e, check_routes-Tally net ds rs)))
  ]
