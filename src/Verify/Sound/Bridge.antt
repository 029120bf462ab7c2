-- ===== src/Verify/Sound/Bridge.antt =====
-- The checks of the bridge against the specification.
use netrec.Prelude.{
  ℕ, ◌≡◌, ◌↔◌, inl, inr, refl, Option-cases, Bool-cases, true, Option, some, List, [], ◌∷◌, arith,
  Bytes, codes, streq_iff, is_empty, ret, All, Result-cases,
}
use netrec.State.{
  DesiredState, AddrMode, addr_none, addr_static, addr_dhcp, RealState, rs_find_iface,
}
use netrec.Verify.Address.{parse_addr_prefix, parse_ip4}
use netrec.Verify.Bridge.{
  is_up, check_bridge, check_dhcp, check_static, check_addr_mode, check_bridge_addr,
  check_bridge_gateway, check_one_dns, dns_loop, check_bridge_dns,
}
use netrec.Verify.Spec.{BridgeOk, AddrOk, AddrOkIn, GatewayOk, DnsOk}
use netrec.Verify.Sound.Lookups.{has_any_addr_iff, has_addr_iff, has_route_iff, rs_dns4_exists_iff}

pub check_bridge_iff :
    (ds : DesiredState) (rs : RealState) → ((check_bridge ds rs).0 ≡ 0) ↔ BridgeOk ds rs
unfolding check_bridge is_up
check_bridge_iff ds rs = (
  λ h. elim (Option-cases (rs_find_iface rs ds.br_name)) [
    | inl e ↦ absurd (ground arith)
    | inr (br, e) ↦ (br, e, ground (arith, streq_iff br.kind (codes "bridge")), ground arith)
  ],
  λ s. let (br, e, k, u) = s in ground (arith, streq_iff br.kind (codes "bridge")),
)

module _ (net : Bytes → Option ℕ) where
  -- `parse_ip4` succeeds exactly where `inet_pton` does.
  pub parse_ip4_iff : (s : Bytes) (a : ℕ) → (parse_ip4 net s ≡ ret a) ↔ (net s ≡ some a)
  unfolding parse_ip4
  parse_ip4_iff s a = (λ h. ground arith, λ h. ground arith)

  check_static_iff :
      (ds : DesiredState) (rs : RealState)
      → ((check_static net ds rs).0 ≡ 0) ↔ AddrOkIn net addr_static ds rs
  unfolding check_static
  check_static_iff ds rs = (
    λ h. elim (Result-cases (parse_addr_prefix net ds.br_addr)) [
      | inl (bad, e) ↦ absurd (ground arith)
      | inr ((addr, prefix), e) ↦
          let (br, n, a) = (has_addr_iff rs ds.br_name addr prefix).0 (ground arith) in
          (addr, prefix, e, br, n, a)
    ],
    λ s.
        let (addr, prefix, e, br, n, a) = s in
        let found = (has_addr_iff rs ds.br_name addr prefix).1 (br, n, a) in ground arith,
  )

  check_addr_mode_iff :
      (m : AddrMode) (ds : DesiredState) (rs : RealState)
      → ((check_addr_mode net m ds rs).0 ≡ 0) ↔ AddrOkIn net m ds rs
  unfolding check_addr_mode check_dhcp
  check_addr_mode_iff addr_none ds rs = (λ _. tt, λ _. refl)
  check_addr_mode_iff addr_dhcp ds rs = (
    λ h. (has_any_addr_iff rs ds.br_name).0 (ground arith),
    λ s. let found = (has_any_addr_iff rs ds.br_name).1 s in ground arith,
  )
  check_addr_mode_iff addr_static ds rs = check_static_iff ds rs

  pub check_bridge_addr_iff :
      (ds : DesiredState) (rs : RealState)
      → ((check_bridge_addr net ds rs).0 ≡ 0) ↔ AddrOk net ds rs
  unfolding check_bridge_addr
  check_bridge_addr_iff ds rs = check_addr_mode_iff ds.br_addr_mode ds rs

  pub check_bridge_gateway_iff :
      (ds : DesiredState) (rs : RealState)
      → ((check_bridge_gateway net ds rs).0 ≡ 0) ↔ GatewayOk net ds rs
  unfolding check_bridge_gateway
  check_bridge_gateway_iff ds rs = (
    λ h. elim (Bool-cases (is_empty ds.br_gateway)) [
      | inl e ↦ inl e
      | inr set ↦ elim (Result-cases (parse_ip4 net ds.br_gateway)) [
        | inl (bad, e) ↦ absurd (ground arith)
        | inr (gw, e) ↦ inr (
          gw,
          (parse_ip4_iff ds.br_gateway gw).0 e,
          (has_route_iff rs ds.br_name 0 0 gw true).0 (ground arith),
        )
      ]
    ],
    λ s. elim s [
      | inl e ↦ ground arith
      | inr (gw, e, r) ↦
          let parsed = (parse_ip4_iff ds.br_gateway gw).1 e in
          let found = (has_route_iff rs ds.br_name 0 0 gw true).1 r in ground arith
    ],
  )

  check_one_dns_iff :
      (ds : DesiredState) (rs : RealState) (d : Bytes)
      → ((check_one_dns net ds rs d).0 ≡ 0) ↔ DnsOk net rs d
  unfolding check_one_dns
  check_one_dns_iff ds rs d = (
    λ h. elim (Result-cases (parse_ip4 net d)) [
      | inl (bad, e) ↦ absurd (ground arith)
      | inr (a, e) ↦ (a, (parse_ip4_iff d a).0 e, (rs_dns4_exists_iff rs a).0 (ground arith))
    ],
    λ s.
        let (a, e, m) = s in
        let parsed = (parse_ip4_iff d a).1 e in
        let found = (rs_dns4_exists_iff rs a).1 m in ground arith,
  )

  dns_loop_iff :
      (ds : DesiredState) (rs : RealState) (l : List Bytes)
      → ((dns_loop net ds rs l).0 ≡ 0) ↔ All (DnsOk net rs) l
  unfolding dns_loop
  dns_loop_iff ds rs [] = (λ _. tt, λ _. refl)
  dns_loop_iff ds rs (d ∷ l) = (
    λ h. ((check_one_dns_iff ds rs d).0 (omega arith), (dns_loop_iff ds rs l).0 (omega arith)),
    λ s.
        let one = (check_one_dns_iff ds rs d).1 s.0 in
        let more = (dns_loop_iff ds rs l).1 s.1 in omega arith,
  )

  pub check_bridge_dns_iff :
      (ds : DesiredState) (rs : RealState)
      → ((check_bridge_dns net ds rs).0 ≡ 0) ↔ All (DnsOk net rs) ds.br_dns
  unfolding check_bridge_dns
  check_bridge_dns_iff ds rs = dns_loop_iff ds rs ds.br_dns
