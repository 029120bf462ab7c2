-- ===== src/Verify/Acts.antt =====
-- A check acts only where it misses: it prints at most four ACT lines for each MISS line.
use netrec.Prelude.{
  ℕ, suc, ◌+◌, ◌*◌, ◌≤◌, ◌≡◌, inl, inr, Option-cases, Bool, Option, some, List, [], ◌∷◌, ◌++◌,
  arith, Bytes,
}
use netrec.State.{DesiredState, DesiredRoute4, RealState, Iface, Vxlan, Vlan}
use netrec.Verify.Calls.{Call, ok, miss, act, Check}
use netrec.Verify.Tally.{misses, misses-append, verify_checks-of_some, verify_checks-of_none}
use netrec.Verify.Bridge.{
  check_bridge, check_dhcp, check_static, check_bridge_addr, check_bridge_gateway, check_one_dns,
  dns_loop, check_bridge_dns,
}
use netrec.Verify.Links.{
  check_iface_exists, check_iface_up, check_master, check_one_port, ports_loop, check_bridge_ports,
}
use netrec.Verify.Routes.{check_one_route, routes_loop, check_routes, check_wg_peer_route}
use netrec.Verify.Vxlan.{
  create_vxlan, check_vni, check_remote, check_vxlan_dev, vxlan_missing, vxlan_settle,
  check_vxlan_attrs,
}
use netrec.Verify.Vlan.{
  create_vlan, check_vlan_id, check_vlan_link, vlan_missing, vlan_settle, check_vlan_attrs,
}
use netrec.Verify.Scenario.{
  verify_only_uplink, master_unless, check_wg, uplink_if_set, verify_uplink_bridge,
  verify_vlan_bridge, verify_wg_vxlan_bridge, verify_scenario, verify_checks,
}

-- How many of the calls are `act`.
abbrev pub acts : List Call → ℕ
acts [] = 0
acts (ok s ∷ cs) = acts cs
acts (miss s ∷ cs) = acts cs
acts (act s ∷ cs) = suc (acts cs)

pub acts-append : (xs ys : List Call) → acts (xs ++ ys) ≡ acts xs + acts ys
acts-append [] ys = omega arith
acts-append (ok s ∷ xs) ys = acts-append xs ys
acts-append (miss s ∷ xs) ys = acts-append xs ys
acts-append (act s ∷ xs) ys = omega (arith, acts-append xs ys)

check_bridge-Acts :
    (ds : DesiredState) (rs : RealState)
    → acts (check_bridge ds rs).1 ≤ 4 * misses (check_bridge ds rs).1
unfolding check_bridge
check_bridge-Acts ds rs = ground arith

check_bridge_addr-Acts :
    (net : Bytes → Option ℕ) (ds : DesiredState) (rs : RealState)
    → acts (check_bridge_addr net ds rs).1 ≤ 4 * misses (check_bridge_addr net ds rs).1
unfolding check_bridge_addr check_dhcp check_static
check_bridge_addr-Acts net ds rs = ground arith

check_one_dns-Acts :
    (net : Bytes → Option ℕ) (ds : DesiredState) (rs : RealState) (d : Bytes)
    → acts (check_one_dns net ds rs d).1 ≤ 4 * misses (check_one_dns net ds rs d).1
unfolding check_one_dns
check_one_dns-Acts net ds rs d = ground arith

dns_loop-Acts :
    (net : Bytes → Option ℕ) (ds : DesiredState) (rs : RealState) (l : List Bytes)
    → acts (dns_loop net ds rs l).1 ≤ 4 * misses (dns_loop net ds rs l).1
unfolding dns_loop
dns_loop-Acts net ds rs [] = omega arith
dns_loop-Acts net ds rs (d ∷ l) =
    simp (acts-append, misses-append)
      (omega (arith, check_one_dns-Acts net ds rs d, dns_loop-Acts net ds rs l))

pub check_bridge_gateway-Acts :
    (net : Bytes → Option ℕ) (ds : DesiredState) (rs : RealState)
    → acts (check_bridge_gateway net ds rs).1 ≤ 4 * misses (check_bridge_gateway net ds rs).1
unfolding check_bridge_gateway
check_bridge_gateway-Acts net ds rs = ground arith

check_bridge_dns-Acts :
    (net : Bytes → Option ℕ) (ds : DesiredState) (rs : RealState)
    → acts (check_bridge_dns net ds rs).1 ≤ 4 * misses (check_bridge_dns net ds rs).1
unfolding check_bridge_dns
check_bridge_dns-Acts net ds rs = dns_loop-Acts net ds rs ds.br_dns

check_master-Acts :
    (n : Bytes) (i : Option Iface) (b : Bytes) (rs : RealState)
    → acts (check_master n i b rs).1 ≤ 4 * misses (check_master n i b rs).1
unfolding check_master
check_master-Acts n i b rs = ground arith

check_one_port-Acts :
    (ds : DesiredState) (rs : RealState) (p : Bytes)
    → acts (check_one_port ds rs p).1 ≤ 4 * misses (check_one_port ds rs p).1
unfolding check_one_port check_iface_exists check_iface_up check_master
check_one_port-Acts ds rs p = ground arith

ports_loop-Acts :
    (ds : DesiredState) (rs : RealState) (l : List Bytes)
    → acts (ports_loop ds rs l).1 ≤ 4 * misses (ports_loop ds rs l).1
unfolding ports_loop
ports_loop-Acts ds rs [] = omega arith
ports_loop-Acts ds rs (p ∷ l) =
    simp (acts-append, misses-append)
      (omega (arith, check_one_port-Acts ds rs p, ports_loop-Acts ds rs l))

check_bridge_ports-Acts :
    (ds : DesiredState) (rs : RealState)
    → acts (check_bridge_ports ds rs).1 ≤ 4 * misses (check_bridge_ports ds rs).1
unfolding check_bridge_ports
check_bridge_ports-Acts ds rs = ports_loop-Acts ds rs ds.br_ports

check_one_route-Acts :
    (net : Bytes → Option ℕ) (rs : RealState) (rt : DesiredRoute4)
    → acts (check_one_route net rs rt).1 ≤ 4 * misses (check_one_route net rs rt).1
unfolding check_one_route
check_one_route-Acts net rs rt = ground arith

routes_loop-Acts :
    (net : Bytes → Option ℕ) (rs : RealState) (l : List DesiredRoute4)
    → acts (routes_loop net rs l).1 ≤ 4 * misses (routes_loop net rs l).1
unfolding routes_loop
routes_loop-Acts net rs [] = omega arith
routes_loop-Acts net rs (r ∷ l) =
    simp (acts-append, misses-append)
      (omega (arith, check_one_route-Acts net rs r, routes_loop-Acts net rs l))

check_routes-Acts :
    (net : Bytes → Option ℕ) (ds : DesiredState) (rs : RealState)
    → acts (check_routes net ds rs).1 ≤ 4 * misses (check_routes net ds rs).1
unfolding check_routes
check_routes-Acts net ds rs = routes_loop-Acts net rs ds.routes

check_wg_peer_route-Acts :
    (net : Bytes → Option ℕ) (ds : DesiredState) (rs : RealState)
    → acts (check_wg_peer_route net ds rs).1 ≤ 4 * misses (check_wg_peer_route net ds rs).1
unfolding check_wg_peer_route
check_wg_peer_route-Acts net ds rs = ground arith

check_vxlan_attrs-Acts :
    (net : Bytes → Option ℕ) (ds : DesiredState) (rs : RealState) (i : Option Iface)
    (v : Option Vxlan)
    → acts (check_vxlan_attrs net ds rs i v).1 ≤ 4 * misses (check_vxlan_attrs net ds rs i v).1
unfolding check_vxlan_attrs vxlan_missing create_vxlan vxlan_settle check_vni check_remote
    check_vxlan_dev check_iface_up
check_vxlan_attrs-Acts net ds rs i v = ground arith

check_vlan_attrs-Acts :
    (ds : DesiredState) (rs : RealState) (i : Option Iface) (v : Option Vlan)
    → acts (check_vlan_attrs ds rs i v).1 ≤ 4 * misses (check_vlan_attrs ds rs i v).1
unfolding check_vlan_attrs vlan_missing create_vlan vlan_settle check_vlan_id check_vlan_link
    check_iface_up
check_vlan_attrs-Acts ds rs i v = ground arith

master_unless-Acts :
    (b : Bool) (n : Bytes) (i : Option Iface) (br : Bytes) (rs : RealState)
    → acts (master_unless b n i br rs).1 ≤ 4 * misses (master_unless b n i br rs).1
unfolding master_unless
master_unless-Acts b n i br rs = ground (arith, check_master-Acts n i br rs)

check_wg-Acts :
    (ds : DesiredState) (i : Option Iface) → acts (check_wg ds i).1 ≤ 4 * misses (check_wg ds i).1
unfolding check_wg check_iface_up
check_wg-Acts ds i = ground arith

verify_only_uplink-Acts :
    (ds : DesiredState) (rs : RealState)
    → acts (verify_only_uplink ds rs).1 ≤ 4 * misses (verify_only_uplink ds rs).1
unfolding verify_only_uplink check_iface_exists check_iface_up
verify_only_uplink-Acts ds rs = ground arith

uplink_if_set-Acts :
    (ds : DesiredState) (rs : RealState)
    → acts (uplink_if_set ds rs).1 ≤ 4 * misses (uplink_if_set ds rs).1
unfolding uplink_if_set
uplink_if_set-Acts ds rs = ground (arith, verify_only_uplink-Acts ds rs)

ruleset act_laws = (
  arith, check_bridge-Acts, check_bridge_addr-Acts, check_bridge_gateway-Acts,
  check_bridge_dns-Acts, verify_only_uplink-Acts, check_master-Acts, check_bridge_ports-Acts,
  check_vlan_attrs-Acts, check_vxlan_attrs-Acts, master_unless-Acts, check_wg-Acts,
  check_wg_peer_route-Acts, uplink_if_set-Acts, check_routes-Acts,
)

module _ (net : Bytes → Option ℕ) (ds : DesiredState) (rs : RealState) where
  verify_uplink_bridge-Acts :
      acts (verify_uplink_bridge net ds rs).1 ≤ 4 * misses (verify_uplink_bridge net ds rs).1
  unfolding verify_uplink_bridge
  verify_uplink_bridge-Acts = simp (acts-append, misses-append) (omega act_laws)

  verify_vlan_bridge-Acts :
      acts (verify_vlan_bridge net ds rs).1 ≤ 4 * misses (verify_vlan_bridge net ds rs).1
  unfolding verify_vlan_bridge
  verify_vlan_bridge-Acts = simp (acts-append, misses-append) (omega act_laws)

  verify_wg_vxlan_bridge-Acts :
      acts (verify_wg_vxlan_bridge net ds rs).1 ≤ 4 * misses (verify_wg_vxlan_bridge net ds rs).1
  unfolding verify_wg_vxlan_bridge
  verify_wg_vxlan_bridge-Acts = simp (acts-append, misses-append) (omega act_laws)

  verify_scenario-Acts :
      (m : Check ℕ) → verify_scenario net ds rs ≡ some m → acts m.1 ≤ 4 * misses m.1
  unfolding verify_scenario
  verify_scenario-Acts m h = ground (
    arith,
    verify_only_uplink-Acts ds rs,
    verify_uplink_bridge-Acts,
    verify_vlan_bridge-Acts,
    verify_wg_vxlan_bridge-Acts,
  )

  -- At most four `act` calls for each `miss` call, whatever the scenario.
  pub verify_checks-acts : acts (verify_checks net ds rs).1 ≤ 4 * misses (verify_checks net ds rs).1
  verify_checks-acts = elim (Option-cases (verify_scenario net ds rs)) [
    | inl e ↦ rw (verify_checks-of_none net ds rs e) (omega arith)
    | inr (m, e) ↦ rw (verify_checks-of_some net ds rs m e) (
        simp (acts-append, misses-append)
          (omega (arith, verify_scenario-Acts m e, check_routes-Acts net ds rs)))
  ]
