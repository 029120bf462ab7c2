-- ===== src/Verify/Sound/Overlay.antt =====
-- The attribute checks of the VLAN and VXLAN interfaces against the specification.
use netrec.Prelude.{
  ℕ, ◌+◌, ◌≡◌, ◌↔◌, inl, inr, Option-cases, Bool-cases, true, Option, some, arith, Bytes, is_empty,
  Result-cases, ==ℤ_iff, false≢true, if◌then◌else◌,
}
use netrec.State.{
  DesiredState, RealState, Iface, Vxlan, Vlan, rs_find_iface, rs_find_vxlan, rs_find_vlan,
}
use netrec.Verify.Address.{parse_ip4}
use netrec.Verify.Vlan.{
  check_vlan_id, vlan_on, check_vlan_link, vlan_missing, vlan_settle, check_vlan_attrs,
}
use netrec.Verify.Vxlan.{
  check_vni, check_remote, vxlan_on, check_vxlan_dev, vxlan_missing, vxlan_settle,
  check_vxlan_attrs,
}
use netrec.Verify.Scenario.{master_unless}
use netrec.Verify.Spec.{Named, MemberOk, VlanOk, VxlanOk, VxlanDevOk}
use netrec.Verify.Sound.Bridge.{parse_ip4_iff}
use netrec.Verify.Sound.Links.{check_iface_up_iff, check_iface_up-none, check_master_iff}

check_vlan_id_iff :
    (ds : DesiredState) (vl : Vlan)
    → ((check_vlan_id ds vl).0.0 ≡ 0) ↔ ((vl.has_id ≡ true) × (vl.id ≡ ds.vlan_id))
unfolding check_vlan_id
check_vlan_id_iff ds vl = (λ h. (ground arith, ground arith), λ s. ground arith)

vlan_on_iff :
    (rs : RealState) (vl : Vlan) (n : Bytes)
    → (vlan_on vl (rs_find_iface rs n) ≡ true)
      ↔ ((l : Iface) × Named rs n l × (vl.has_link ≡ true) × (vl.link ≡ l.ifindex))
unfolding vlan_on
vlan_on_iff rs vl n = (
  λ h. elim (Option-cases (rs_find_iface rs n)) [
    | inl e ↦ absurd (false≢true (rw e at h))
    | inr (l, e) ↦ (l, e, ground arith, ground (arith, ==ℤ_iff vl.link l.ifindex))
  ],
  λ s. let (l, e, a, b) = s in ground (arith, ==ℤ_iff vl.link l.ifindex),
)

check_vlan_link_iff :
    (ds : DesiredState) (rs : RealState) (vl : Vlan)
    → ((check_vlan_link ds rs vl).0.0 ≡ 0)
      ↔ ((l : Iface) × Named rs ds.vlan_link l × (vl.has_link ≡ true) × (vl.link ≡ l.ifindex))
unfolding check_vlan_link
check_vlan_link_iff ds rs vl = (
  λ h. (vlan_on_iff rs vl ds.vlan_link).0 (ground arith),
  λ s. let found = (vlan_on_iff rs vl ds.vlan_link).1 s in ground arith,
)

-- A miss of an attribute asks for a recreation.
check_vlan_id-recreate :
    (ds : DesiredState) (vl : Vlan)
    → (check_vlan_id ds vl).0.0 ≡ (if (check_vlan_id ds vl).0.1 then 1 else 0)
unfolding check_vlan_id
check_vlan_id-recreate ds vl = ground arith

check_vlan_link-recreate :
    (ds : DesiredState) (rs : RealState) (vl : Vlan)
    → (check_vlan_link ds rs vl).0.0 ≡ (if (check_vlan_link ds rs vl).0.1 then 1 else 0)
unfolding check_vlan_link
check_vlan_link-recreate ds rs vl = ground arith

-- The VLAN interface and its master, as `verify_vlan_bridge` adds them up.
abbrev pub vlan_diff : DesiredState → RealState → ℕ
vlan_diff ds rs =
    let i = rs_find_iface rs ds.vlan_ifname in
    let g = check_vlan_attrs ds rs i (rs_find_vlan rs ds.vlan_ifname) in
    g.0.0 + (master_unless g.0.1 ds.vlan_ifname i ds.vlan_bridge rs).0

pub vlan_diff_iff :
    (ds : DesiredState) (rs : RealState)
    → (vlan_diff ds rs ≡ 0) ↔ (VlanOk ds rs × MemberOk rs ds.vlan_ifname ds.vlan_bridge)
unfolding check_vlan_attrs vlan_settle vlan_missing master_unless
vlan_diff_iff ds rs = (
  λ h. elim (Option-cases (rs_find_vlan rs ds.vlan_ifname)) [
    | inl e ↦ absurd (ground arith)
    | inr (vl, e) ↦
        let id = check_vlan_id-recreate ds vl in
        let link = check_vlan_link-recreate ds rs vl in
        elim (Option-cases (rs_find_iface rs ds.vlan_ifname)) [
          | inl f ↦ absurd (ground (arith, check_iface_up-none ds.vlan_ifname))
          | inr (i, f) ↦ (
            (
              vl,
              e,
              (check_vlan_id_iff ds vl).0 (ground arith),
              (check_vlan_link_iff ds rs vl).0 (ground arith),
            ),
            (
              i,
              f,
              (check_iface_up_iff ds.vlan_ifname i).0 (ground arith),
              (check_master_iff ds.vlan_ifname i ds.vlan_bridge rs).0 (ground arith),
            ),
          )
        ]
  ],
  λ s.
      let (v, m) = s in
      let (vl, e, id_ok, link_ok) = v in
      let (i, f, up, master) = m in
      let id = check_vlan_id-recreate ds vl in
      let link = check_vlan_link-recreate ds rs vl in
      let id_zero = (check_vlan_id_iff ds vl).1 id_ok in
      let link_zero = (check_vlan_link_iff ds rs vl).1 link_ok in
      let up_zero = (check_iface_up_iff ds.vlan_ifname i).1 up in
      let master_zero = (check_master_iff ds.vlan_ifname i ds.vlan_bridge rs).1 master in
      ground arith,
)

module _ (net : Bytes → Option ℕ) (ds : DesiredState) (rs : RealState) (vx : Vxlan) where
  check_vni_iff : ((check_vni ds vx).0.0 ≡ 0) ↔ ((vx.has_vni ≡ true) × (vx.vni ≡ ds.vx_vni))
  unfolding check_vni
  check_vni_iff = (λ h. (ground arith, ground arith), λ s. ground arith)

  check_vni-recreate : (check_vni ds vx).0.0 ≡ (if (check_vni ds vx).0.1 then 1 else 0)
  unfolding check_vni
  check_vni-recreate = ground arith

  check_remote_iff : ((check_remote net ds vx).0.0 ≡ 0) ↔ (
      (remote : ℕ) × (net ds.vx_remote ≡ some remote)
      × (vx.has_remote ≡ true)
      × (vx.remote ≡ remote))
  unfolding check_remote
  check_remote_iff = (
    λ h. elim (Result-cases (parse_ip4 net ds.vx_remote)) [
      | inl (bad, e) ↦ absurd (ground arith)
      | inr (remote, e) ↦
          (remote, (parse_ip4_iff net ds.vx_remote remote).0 e, ground arith, ground arith)
    ],
    λ s.
        let (remote, e, a, b) = s in
        let parsed = (parse_ip4_iff net ds.vx_remote remote).1 e in ground arith,
  )

  -- A remote that does not parse is a miss without a recreation.
  check_remote-recreate : (check_remote net ds vx).0.1 ≡ true → (check_remote net ds vx).0.0 ≡ 1
  unfolding check_remote
  check_remote-recreate h = ground arith

  vxlan_on_iff :
      (n : Bytes)
      → (vxlan_on vx (rs_find_iface rs n) ≡ true)
        ↔ ((l : Iface) × Named rs n l × (vx.has_link ≡ true) × (vx.link ≡ l.ifindex))
  unfolding vxlan_on
  vxlan_on_iff n = (
    λ h. elim (Option-cases (rs_find_iface rs n)) [
      | inl e ↦ absurd (false≢true (rw e at h))
      | inr (l, e) ↦ (l, e, ground arith, ground (arith, ==ℤ_iff vx.link l.ifindex))
    ],
    λ s. let (l, e, a, b) = s in ground (arith, ==ℤ_iff vx.link l.ifindex),
  )

  check_vxlan_dev_iff : ((check_vxlan_dev ds rs vx).0.0 ≡ 0) ↔ VxlanDevOk ds rs vx
  unfolding check_vxlan_dev
  check_vxlan_dev_iff = (
    λ h. elim (Bool-cases (is_empty ds.vx_dev)) [
      | inl e ↦ inl e
      | inr e ↦ inr ((vxlan_on_iff ds.vx_dev).0 (ground arith))
    ],
    λ s. elim s [
      | inl e ↦ ground arith
      | inr o ↦ let found = (vxlan_on_iff ds.vx_dev).1 o in ground arith
    ],
  )

  check_vxlan_dev-recreate :
      (check_vxlan_dev ds rs vx).0.0 ≡ (if (check_vxlan_dev ds rs vx).0.1 then 1 else 0)
  unfolding check_vxlan_dev
  check_vxlan_dev-recreate = ground arith

-- The VXLAN interface and its master, as `verify_wg_vxlan_bridge` adds them up.
abbrev pub vxlan_diff : (Bytes → Option ℕ) → DesiredState → RealState → ℕ
vxlan_diff net ds rs =
    let i = rs_find_iface rs ds.vx_ifname in
    let g = check_vxlan_attrs net ds rs i (rs_find_vxlan rs ds.vx_ifname) in
    g.0.0 + (master_unless g.0.1 ds.vx_ifname i ds.vx_bridge rs).0

pub vxlan_diff_iff :
    (net : Bytes → Option ℕ) (ds : DesiredState) (rs : RealState)
    → (vxlan_diff net ds rs ≡ 0) ↔ (VxlanOk net ds rs × MemberOk rs ds.vx_ifname ds.vx_bridge)
unfolding check_vxlan_attrs vxlan_settle vxlan_missing master_unless
vxlan_diff_iff net ds rs = (
  λ h. elim (Option-cases (rs_find_vxlan rs ds.vx_ifname)) [
    | inl e ↦ absurd (ground arith)
    | inr (vx, e) ↦
        let vni = check_vni-recreate net ds rs vx in
        let remote = check_remote-recreate net ds rs vx in
        let dev = check_vxlan_dev-recreate net ds rs vx in
        elim (Option-cases (rs_find_iface rs ds.vx_ifname)) [
          | inl f ↦ absurd (ground (arith, remote, check_iface_up-none ds.vx_ifname))
          | inr (i, f) ↦ (
            (
              vx,
              e,
              (check_vni_iff net ds rs vx).0 (ground (arith, remote)),
              (check_remote_iff net ds rs vx).0 (ground (arith, remote)),
              (check_vxlan_dev_iff net ds rs vx).0 (ground (arith, remote)),
            ),
            (
              i,
              f,
              (check_iface_up_iff ds.vx_ifname i).0 (ground (arith, remote)),
              (check_master_iff ds.vx_ifname i ds.vx_bridge rs).0 (ground (arith, remote)),
            ),
          )
        ]
  ],
  λ s.
      let (v, m) = s in
      let (vx, e, vni_ok, remote_ok, dev_ok) = v in
      let (i, f, up, master) = m in
      let vni = check_vni-recreate net ds rs vx in
      let remote = check_remote-recreate net ds rs vx in
      let dev = check_vxlan_dev-recreate net ds rs vx in
      let vni_zero = (check_vni_iff net ds rs vx).1 vni_ok in
      let remote_zero = (check_remote_iff net ds rs vx).1 remote_ok in
      let dev_zero = (check_vxlan_dev_iff net ds rs vx).1 dev_ok in
      let up_zero = (check_iface_up_iff ds.vx_ifname i).1 up in
      let master_zero = (check_master_iff ds.vx_ifname i ds.vx_bridge rs).1 master in
      ground (arith, remote),
)
