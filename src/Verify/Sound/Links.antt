-- ===== src/Verify/Sound/Links.antt =====
-- The checks of interfaces, ports and routes against the specification.
use netrec.Prelude.{
  ℕ, ◌≡◌, ◌↔◌, ◌⊎◌, inl, inr, refl, Option-cases, Bool-cases, true, false, Option, none, some, List,
  [], ◌∷◌, arith, Bytes, is_empty, ret, All, Result-cases,
}
use netrec.State.{DesiredState, DesiredRoute4, RealState, Iface, rs_find_iface}
use netrec.Verify.Address.{parse_addr_prefix, parse_ip4}
use netrec.Verify.Links.{
  check_iface_exists, check_iface_up, check_master, check_one_port, ports_loop, check_bridge_ports,
}
use netrec.Verify.Routes.{
  parse_via, check_one_route, routes_loop, check_routes, check_wg_peer_route,
}
use netrec.Verify.Scenario.{verify_only_uplink, check_wg, uplink_if_set}
use netrec.Verify.Spec.{IsUp, ExistsUp, HasMaster, MemberOk, HasRoute, ViaIs, RouteOk}
use netrec.Verify.Sound.Lookups.{has_route_iff, has_master_iff, is_up_iff}
use netrec.Verify.Sound.Bridge.{parse_ip4_iff}

pub check_iface_up_iff : (n : Bytes) (i : Iface) → ((check_iface_up n (some i)).0 ≡ 0) ↔ IsUp i
unfolding check_iface_up
check_iface_up_iff n i =
    (λ h. (is_up_iff i).0 (ground arith), λ u. let up = (is_up_iff i).1 u in ground arith)

pub check_iface_up-none : (n : Bytes) → (check_iface_up n none).0 ≡ 1
unfolding check_iface_up
check_iface_up-none n = refl

pub check_master_iff :
    (n : Bytes) (i : Iface) (br : Bytes) (rs : RealState)
    → ((check_master n (some i) br rs).0 ≡ 0) ↔ HasMaster rs i br
unfolding check_master
check_master_iff n i br rs = (
  λ h. (has_master_iff rs i br).0 (ground arith),
  λ s. let found = (has_master_iff rs i br).1 s in ground arith,
)

check_one_port_iff :
    (ds : DesiredState) (rs : RealState) (p : Bytes)
    → ((check_one_port ds rs p).0 ≡ 0) ↔ MemberOk rs p ds.br_name
unfolding check_one_port check_iface_exists
check_one_port_iff ds rs p = (
  λ h. elim (Option-cases (rs_find_iface rs p)) [
    | inl e ↦ absurd (ground arith)
    | inr (i, e) ↦ (
      i,
      e,
      (check_iface_up_iff p i).0 (ground arith),
      (check_master_iff p i ds.br_name rs).0 (ground arith),
    )
  ],
  λ s.
      let (i, e, u, m) = s in
      let up = (check_iface_up_iff p i).1 u in
      let master = (check_master_iff p i ds.br_name rs).1 m in ground arith,
)

ports_loop_iff :
    (ds : DesiredState) (rs : RealState) (l : List Bytes)
    → ((ports_loop ds rs l).0 ≡ 0) ↔ All (λ p. MemberOk rs p ds.br_name) l
unfolding ports_loop
ports_loop_iff ds rs [] = (λ _. tt, λ _. refl)
ports_loop_iff ds rs (p ∷ l) = (
  λ h. ((check_one_port_iff ds rs p).0 (omega arith), (ports_loop_iff ds rs l).0 (omega arith)),
  λ s.
      let one = (check_one_port_iff ds rs p).1 s.0 in
      let more = (ports_loop_iff ds rs l).1 s.1 in omega arith,
)

pub check_bridge_ports_iff :
    (ds : DesiredState) (rs : RealState)
    → ((check_bridge_ports ds rs).0 ≡ 0) ↔ All (λ p. MemberOk rs p ds.br_name) ds.br_ports
unfolding check_bridge_ports
check_bridge_ports_iff ds rs = ports_loop_iff ds rs ds.br_ports

pub verify_only_uplink_iff :
    (ds : DesiredState) (rs : RealState)
    → ((verify_only_uplink ds rs).0 ≡ 0) ↔ ExistsUp rs ds.up_ifname
unfolding verify_only_uplink check_iface_exists
verify_only_uplink_iff ds rs = (
  λ h. elim (Option-cases (rs_find_iface rs ds.up_ifname)) [
    | inl e ↦ absurd (ground arith)
    | inr (i, e) ↦ (i, e, (check_iface_up_iff ds.up_ifname i).0 (ground arith))
  ],
  λ s. let (i, e, u) = s in let up = (check_iface_up_iff ds.up_ifname i).1 u in ground arith,
)

pub uplink_if_set_iff :
    (ds : DesiredState) (rs : RealState)
    → ((uplink_if_set ds rs).0 ≡ 0) ↔ ((is_empty ds.up_ifname ≡ true) ⊎ ExistsUp rs ds.up_ifname)
unfolding uplink_if_set
uplink_if_set_iff ds rs = (
  λ h. elim (Bool-cases (is_empty ds.up_ifname)) [
    | inl e ↦ inl e
    | inr set ↦ inr ((verify_only_uplink_iff ds rs).0 (ground arith))
  ],
  λ s. elim s [
    | inl e ↦ ground arith
    | inr up ↦ let zero_diff = (verify_only_uplink_iff ds rs).1 up in ground arith
  ],
)

pub check_wg_iff :
    (ds : DesiredState) (rs : RealState)
    → ((check_wg ds (rs_find_iface rs ds.wg_ifname)).0 ≡ 0) ↔ ExistsUp rs ds.wg_ifname
unfolding check_wg
check_wg_iff ds rs = (
  λ h. elim (Option-cases (rs_find_iface rs ds.wg_ifname)) [
    | inl e ↦ absurd (ground arith)
    | inr (i, e) ↦ (i, e, (check_iface_up_iff ds.wg_ifname i).0 (ground arith))
  ],
  λ s. let (i, e, u) = s in let up = (check_iface_up_iff ds.wg_ifname i).1 u in ground arith,
)

module _ (net : Bytes → Option ℕ) where
  pub check_wg_peer_route_iff :
      (ds : DesiredState) (rs : RealState)
      → ((check_wg_peer_route net ds rs).0 ≡ 0)
        ↔ ((ip : ℕ) × (net ds.wg_peer_ip ≡ some ip) × HasRoute rs ds.wg_route_dev ip 32 0 false)
  unfolding check_wg_peer_route
  check_wg_peer_route_iff ds rs = (
    λ h. elim (Result-cases (parse_ip4 net ds.wg_peer_ip)) [
      | inl (bad, e) ↦ absurd (ground arith)
      | inr (ip, e) ↦ (
        ip,
        (parse_ip4_iff net ds.wg_peer_ip ip).0 e,
        (has_route_iff rs ds.wg_route_dev ip 32 0 false).0 (ground arith),
      )
    ],
    λ s.
        let (ip, e, r) = s in
        let parsed = (parse_ip4_iff net ds.wg_peer_ip ip).1 e in
        let found = (has_route_iff rs ds.wg_route_dev ip 32 0 false).1 r in ground arith,
  )

  parse_via_iff : (rt : DesiredRoute4) (via : ℕ) → (parse_via net rt ≡ ret via) ↔ ViaIs net rt via
  unfolding parse_via parse_ip4
  parse_via_iff rt via = (
    λ h. elim (Bool-cases rt.has_via) [
      | inl e ↦ inr (e, ground arith)
      | inr e ↦ inl (e, ground arith)
    ],
    λ s. elim s [ inl (e, z) ↦ ground arith | inr (e, n) ↦ ground arith ],
  )

  check_one_route_iff :
      (rs : RealState) (rt : DesiredRoute4)
      → ((check_one_route net rs rt).0 ≡ 0) ↔ RouteOk net rs rt
  unfolding check_one_route
  check_one_route_iff rs rt = (
    λ h. elim (Result-cases (parse_addr_prefix net rt.dst)) [
      | inl (bad, e) ↦ absurd (ground arith)
      | inr ((dst, prefix), e) ↦ elim (Result-cases (parse_via net rt)) [
        | inl (bad, f) ↦ absurd (ground arith)
        | inr (via, f) ↦ (
          dst,
          prefix,
          e,
          via,
          (parse_via_iff rt via).0 f,
          (has_route_iff rs rt.dev dst prefix via rt.has_via).0 (ground arith),
        )
      ]
    ],
    λ s.
        let (dst, prefix, e, via, v, r) = s in
        let parsed = (parse_via_iff rt via).1 v in
        let found = (has_route_iff rs rt.dev dst prefix via rt.has_via).1 r in ground arith,
  )

  routes_loop_iff :
      (rs : RealState) (l : List DesiredRoute4)
      → ((routes_loop net rs l).0 ≡ 0) ↔ All (RouteOk net rs) l
  unfolding routes_loop
  routes_loop_iff rs [] = (λ _. tt, λ _. refl)
  routes_loop_iff rs (rt ∷ l) = (
    λ h. ((check_one_route_iff rs rt).0 (omega arith), (routes_loop_iff rs l).0 (omega arith)),
    λ s.
        let one = (check_one_route_iff rs rt).1 s.0 in
        let more = (routes_loop_iff rs l).1 s.1 in omega arith,
  )

  pub check_routes_iff :
      (ds : DesiredState) (rs : RealState)
      → ((check_routes net ds rs).0 ≡ 0) ↔ All (RouteOk net rs) ds.routes
  unfolding check_routes
  check_routes_iff ds rs = routes_loop_iff rs ds.routes
