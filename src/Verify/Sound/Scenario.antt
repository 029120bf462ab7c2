-- ===== src/Verify/Sound/Scenario.antt =====
-- The scenarios, and with them `verify_state`, against the specification.
use netrec.Prelude.{
  ℕ, ◌+◌, ◌≡◌, ◌↔◌, ◌⊎◌, inl, inr, ap, Option-cases, Bool-cases, Bool, true, false, ◌||◌, Option,
  some, List, arith, Bytes, codes, streq, streq_iff,
}
use netrec.State.{DesiredState, RealState, rs_find_iface}
use netrec.Verify.Calls.{Check}
use netrec.Verify.Links.{check_master}
use netrec.Verify.Scenario.{
  verify_only_uplink, verify_uplink_bridge, verify_vlan_bridge, verify_wg_vxlan_bridge,
  verify_scenario, verify_checks,
}
use netrec.Verify.Exec.{Spawn, verify_state}
use netrec.Verify.Tally.{verify_checks-of_some, verify_checks-of_none}
use netrec.Verify.Spec.{
  MemberOk, UplinkBridgeOk, VlanBridgeOk, WgVxlanBridgeOk, Kind, only_uplink, uplink_bridge,
  vlan_bridge, wg_vxlan_bridge, IsKind, KindOk, Satisfies,
}
use netrec.Verify.Sound.Bridge.{
  check_bridge_iff, check_bridge_addr_iff, check_bridge_gateway_iff, check_bridge_dns_iff,
}
use netrec.Verify.Sound.Links.{
  check_master_iff, check_bridge_ports_iff, verify_only_uplink_iff, uplink_if_set_iff, check_wg_iff,
  check_wg_peer_route_iff, check_routes_iff,
}
use netrec.Verify.Sound.Overlay.{vlan_diff_iff, vxlan_diff_iff}

-- `verify_only_uplink` and the `check_master` behind it.
uplink_member_iff :
    (ds : DesiredState) (rs : RealState)
    → ((verify_only_uplink ds rs).0
          + (check_master ds.up_ifname (rs_find_iface rs ds.up_ifname) ds.br_name rs).0
        ≡ 0)
      ↔ MemberOk rs ds.up_ifname ds.br_name
uplink_member_iff ds rs = (
  λ h.
      let (i, e, u) = (verify_only_uplink_iff ds rs).0 (omega arith) in
      let master = rw e at h in
      (i, e, u, (check_master_iff ds.up_ifname i ds.br_name rs).0 (omega (arith, rw e at h))),
  λ s.
      let (i, e, u, m) = s in
      let up = (verify_only_uplink_iff ds rs).1 (i, e, u) in
      let master = (check_master_iff ds.up_ifname i ds.br_name rs).1 m in rw e (omega arith),
)

-- One of two names, or a test that fails.
either_name :
    (s a b : Bytes)
    → ((((s ≡ a) ⊎ (s ≡ b)) × ((streq s a || streq s b) ≡ true)))
      ⊎ ((streq s a || streq s b) ≡ false)
either_name s a b = elim (Bool-cases (streq s a)) [
  | inl e ↦ inl (inl ((streq_iff s a).0 e), rw e)
  | inr e ↦ elim (Bool-cases (streq s b)) [
    | inl f ↦ inl (inr ((streq_iff s b).0 f), rw (e, f))
    | inr f ↦ inr (rw (e, f))
  ]
]

module _ (net : Bytes → Option ℕ) (ds : DesiredState) (rs : RealState) where
  verify_uplink_bridge_iff : ((verify_uplink_bridge net ds rs).0 ≡ 0) ↔ UplinkBridgeOk net ds rs
  unfolding verify_uplink_bridge
  verify_uplink_bridge_iff = (
    λ h. (
      (
        (check_bridge_iff ds rs).0 (omega arith),
        (check_bridge_addr_iff net ds rs).0 (omega arith),
        (check_bridge_gateway_iff net ds rs).0 (omega arith),
        (check_bridge_dns_iff net ds rs).0 (omega arith),
        (check_bridge_ports_iff ds rs).0 (omega arith),
      ),
      (uplink_member_iff ds rs).0 (omega arith),
    ),
    λ s.
        let (parts, up) = s in
        let (b, a, g, d, p) = parts in
        let b0 = (check_bridge_iff ds rs).1 b in
        let a0 = (check_bridge_addr_iff net ds rs).1 a in
        let g0 = (check_bridge_gateway_iff net ds rs).1 g in
        let d0 = (check_bridge_dns_iff net ds rs).1 d in
        let p0 = (check_bridge_ports_iff ds rs).1 p in
        let u0 = (uplink_member_iff ds rs).1 up in omega arith,
  )

  verify_vlan_bridge_iff : ((verify_vlan_bridge net ds rs).0 ≡ 0) ↔ VlanBridgeOk net ds rs
  unfolding verify_vlan_bridge
  verify_vlan_bridge_iff = (
    λ h.
        let (vlan, member) = (vlan_diff_iff ds rs).0 (omega arith) in
        (
          (
            (check_bridge_iff ds rs).0 (omega arith),
            (check_bridge_addr_iff net ds rs).0 (omega arith),
            (check_bridge_gateway_iff net ds rs).0 (omega arith),
            (check_bridge_dns_iff net ds rs).0 (omega arith),
            (check_bridge_ports_iff ds rs).0 (omega arith),
          ),
          (verify_only_uplink_iff ds rs).0 (omega arith),
          vlan,
          member,
        ),
    λ s.
        let (parts, up, vlan, member) = s in
        let (b, a, g, d, p) = parts in
        let b0 = (check_bridge_iff ds rs).1 b in
        let a0 = (check_bridge_addr_iff net ds rs).1 a in
        let g0 = (check_bridge_gateway_iff net ds rs).1 g in
        let d0 = (check_bridge_dns_iff net ds rs).1 d in
        let p0 = (check_bridge_ports_iff ds rs).1 p in
        let u0 = (verify_only_uplink_iff ds rs).1 up in
        let v0 = (vlan_diff_iff ds rs).1 (vlan, member) in omega arith,
  )

  verify_wg_vxlan_bridge_iff :
      ((verify_wg_vxlan_bridge net ds rs).0 ≡ 0) ↔ WgVxlanBridgeOk net ds rs
  unfolding verify_wg_vxlan_bridge
  verify_wg_vxlan_bridge_iff = (
    λ h.
        let (vxlan, member) = (vxlan_diff_iff net ds rs).0 (omega arith) in
        (
          (
            (check_bridge_iff ds rs).0 (omega arith),
            (check_bridge_addr_iff net ds rs).0 (omega arith),
            (check_bridge_gateway_iff net ds rs).0 (omega arith),
            (check_bridge_dns_iff net ds rs).0 (omega arith),
            (check_bridge_ports_iff ds rs).0 (omega arith),
          ),
          (uplink_if_set_iff ds rs).0 (omega arith),
          (check_wg_peer_route_iff net ds rs).0 (omega arith),
          (check_wg_iff ds rs).0 (omega arith),
          vxlan,
          member,
        ),
    λ s.
        let (parts, up, peer, wg, vxlan, member) = s in
        let (b, a, g, d, p) = parts in
        let b0 = (check_bridge_iff ds rs).1 b in
        let a0 = (check_bridge_addr_iff net ds rs).1 a in
        let g0 = (check_bridge_gateway_iff net ds rs).1 g in
        let d0 = (check_bridge_dns_iff net ds rs).1 d in
        let p0 = (check_bridge_ports_iff ds rs).1 p in
        let u0 = (uplink_if_set_iff ds rs).1 up in
        let r0 = (check_wg_peer_route_iff net ds rs).1 peer in
        let w0 = (check_wg_iff ds rs).1 wg in
        let v0 = (vxlan_diff_iff net ds rs).1 (vxlan, member) in omega arith,
  )

  -- The checks that the dispatch picks for a kind of scenario.
  abbrev checks_of : Kind → Check ℕ
  checks_of only_uplink = verify_only_uplink ds rs
  checks_of uplink_bridge = verify_uplink_bridge net ds rs
  checks_of vlan_bridge = verify_vlan_bridge net ds rs
  checks_of wg_vxlan_bridge = verify_wg_vxlan_bridge net ds rs

  checks_of_iff : (k : Kind) → ((checks_of k).0 ≡ 0) ↔ KindOk net k ds rs
  checks_of_iff only_uplink = verify_only_uplink_iff ds rs
  checks_of_iff uplink_bridge = verify_uplink_bridge_iff
  checks_of_iff vlan_bridge = verify_vlan_bridge_iff
  checks_of_iff wg_vxlan_bridge = verify_wg_vxlan_bridge_iff

  -- The dispatch finds the kind of a scenario by its names.
  verify_scenario-kind :
      (m : Check ℕ)
      → verify_scenario net ds rs ≡ some m
      → (k : Kind) × IsKind k ds.scenario × (m ≡ checks_of k)
  unfolding verify_scenario
  verify_scenario-kind m h =
      elim (either_name ds.scenario (codes "only_uplink") (codes "only_uplink_iface")) [
        | inl (n, e) ↦ (only_uplink, n, cc (rw e at h))
        | inr e ↦
            elim (either_name ds.scenario (codes "uplink_bridge") (codes "uplink_in_bridge")) [
              | inl (n, f) ↦ (uplink_bridge, n, cc (rw (e, f) at h))
              | inr f ↦
                  elim (either_name ds.scenario (codes "vlan_bridge") (codes "vlan_in_bridge")) [
                    | inl (n, g) ↦ (vlan_bridge, n, cc (rw (e, f, g) at h))
                    | inr g ↦ elim (Bool-cases (streq ds.scenario (codes "wg_vxlan_bridge"))) [
                      | inl w ↦ (
                        wg_vxlan_bridge,
                        (streq_iff ds.scenario (codes "wg_vxlan_bridge")).0 w,
                        cc (rw (e, f, g, w) at h),
                      )
                      | inr w ↦ absurd (cc (rw (e, f, g, w) at h))
                    ]
                  ]
            ]
      ]

  pub verify_scenario-of_kind :
      (k : Kind) → IsKind k ds.scenario → verify_scenario net ds rs ≡ some (checks_of k)
  unfolding verify_scenario streq codes
  verify_scenario-of_kind only_uplink (inl e) = rw e
  verify_scenario-of_kind only_uplink (inr e) = rw e
  verify_scenario-of_kind uplink_bridge (inl e) = rw e
  verify_scenario-of_kind uplink_bridge (inr e) = rw e
  verify_scenario-of_kind vlan_bridge (inl e) = rw e
  verify_scenario-of_kind vlan_bridge (inr e) = rw e
  verify_scenario-of_kind wg_vxlan_bridge e = rw e

  pub verify_checks_iff : ((verify_checks net ds rs).0 ≡ 0) ↔ Satisfies net ds rs
  verify_checks_iff = (
    λ h. elim (Option-cases (verify_scenario net ds rs)) [
      | inl e ↦ absurd (ground (arith, ap (λ c. c.0) (verify_checks-of_none net ds rs e)))
      | inr (m, e) ↦
          let (k, n, same) = verify_scenario-kind m e in
          let sum = ap (λ c. c.0) (verify_checks-of_some net ds rs m e) in
          let part = ap (λ c. c.0) same in
          ((k, n, (checks_of_iff k).0 (omega arith)), (check_routes_iff net ds rs).0 (omega arith))
    ],
    λ s.
        let ((k, n, ok), routes) = s in
        let sum =
          ap (λ c. c.0)
            (verify_checks-of_some net ds rs (checks_of k) (verify_scenario-of_kind k n)) in
        let r0 = (check_routes_iff net ds rs).1 routes in
        let k0 = (checks_of_iff k).1 ok in omega arith,
  )

  -- On every branch the diff of `verify_state` is the value of the checks.
  pub verify_state-diff :
      (spawn : Spawn) (apply fail : Bool) (ran : List (List Bytes))
      → (verify_state net spawn ds rs apply fail ran).diff ≡ (verify_checks net ds rs).0
  unfolding verify_state
  verify_state-diff spawn apply fail ran = elim (Option-cases (verify_scenario net ds rs)) [
    | inl e ↦ rw (e, verify_state, verify_checks-of_none net ds rs e)
    | inr (m, e) ↦ rw (e, verify_state)
  ]

  -- `verify_state` returns 0 exactly if the snapshot satisfies the desired state, whatever the
  -- commands do; of an uplink that `wg_vxlan_bridge` has this asks that it exists and is up, and not,
  -- as README.md and ctx.md do, that it is a port of the bridge.
  pub verify_state-zero_iff :
      (spawn : Spawn) (apply fail : Bool) (ran : List (List Bytes))
      → ((verify_state net spawn ds rs apply fail ran).diff ≡ 0) ↔ Satisfies net ds rs
  verify_state-zero_iff spawn apply fail ran = rw verify_state-diff verify_checks_iff
