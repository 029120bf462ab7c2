-- ===== src/Verify/Bridge.antt =====
-- verify.c: the checks of the bridge and of what is configured on it.
use netrec.Prelude.{
  ℕ, ◌+◌, ◌%◌, Bool, true, false, Option, none, some, List, [], ◌∷◌, Bytes, codes, text, streq,
  is_empty, ◌==◌, if◌then◌else◌, ret, err,
}
use netrec.State.{
  DesiredState, AddrMode, addr_none, addr_static, addr_dhcp, RealState, Iface, rs_find_iface,
  rs_dns4_exists,
}
use netrec.Verify.Calls.{Check, ◌>>=◌, ◌>>◌, pure, say_ok, say_miss, do_act}
use netrec.Verify.Address.{parse_addr_prefix, parse_ip4, route_exact, addr_exists, addr_any_exists}
use netrec.Verify.Address.Subst.{subst_iface}

-- `iface->flags & IFF_UP`
unfoldable pub is_up : Iface → Bool
is_up i = i.flags % 2 == 1

unfoldable pub check_bridge : DesiredState → RealState → Check ℕ
check_bridge ds rs = elim (rs_find_iface rs ds.br_name) [
  | none ↦ do
    say_miss (text (codes "bridge " ∷ ds.br_name ∷ codes " exists" ∷ []))
    do_act (text (codes "ip link add " ∷ ds.br_name ∷ codes " type bridge" ∷ []))
    do_act (text (codes "ip link set " ∷ ds.br_name ∷ codes " up" ∷ []))
    pure 1
  | some br ↦
      if streq br.kind (codes "bridge")
      then (do
        say_ok (text (codes "bridge " ∷ ds.br_name ∷ codes " exists" ∷ []))
        if is_up br
            then (do say_ok (text (codes "bridge " ∷ ds.br_name ∷ codes " up" ∷ [])); pure 0)
            else do
              say_miss (text (codes "bridge " ∷ ds.br_name ∷ codes " up" ∷ []))
              do_act (text (codes "ip link set " ∷ ds.br_name ∷ codes " up" ∷ []))
              pure 1)
      else do
        say_miss (text (codes "bridge " ∷ ds.br_name ∷ codes " type bridge" ∷ []))
        do_act (text (codes "ip link del " ∷ ds.br_name ∷ []))
        do_act (text (codes "ip link add " ∷ ds.br_name ∷ codes " type bridge" ∷ []))
        do_act (text (codes "ip link set " ∷ ds.br_name ∷ codes " up" ∷ []))
        pure 1
]

-- `br && addr_any_exists(rs, br->ifindex)`
unfoldable pub has_any_addr : RealState → Option Iface → Bool
has_any_addr rs none = false
has_any_addr rs (some br) = addr_any_exists rs br.ifindex

-- `br && addr_exists(rs, br->ifindex, addr, prefix)`
unfoldable pub has_addr : RealState → Option Iface → ℕ → ℕ → Bool
has_addr rs none addr prefix = false
has_addr rs (some br) addr prefix = addr_exists rs br.ifindex addr prefix

-- `dev && route_exact(rs, dst, prefix, dev->ifindex, gw, has_gw)`
unfoldable pub has_route : RealState → Option Iface → ℕ → ℕ → ℕ → Bool → Bool
has_route rs none dst prefix gw has_gw = false
has_route rs (some dev) dst prefix gw has_gw = route_exact rs dst prefix dev.ifindex gw has_gw

-- The branch for ADDR_DHCP.
unfoldable pub check_dhcp : DesiredState → RealState → Check ℕ
check_dhcp ds rs =
    if has_any_addr rs (rs_find_iface rs ds.br_name)
    then (do say_ok (text (codes "dhcp addr dev " ∷ ds.br_name ∷ [])); pure 0)
    else do
      say_miss (text (codes "dhcp addr dev " ∷ ds.br_name ∷ []))
      elim (subst_iface 256 ds.br_dhcp_cmd ds.br_name) [
        | err e ↦ do do_act (codes "# bad yaml bridge.dhcp_cmd too long"); pure 1
        | ret cmd ↦ do do_act cmd; pure 1
      ]

module _ (inet_pton : Bytes → Option ℕ) where
  -- The branch for ADDR_STATIC.
  unfoldable pub check_static : DesiredState → RealState → Check ℕ
  check_static ds rs =
      let line = text (codes "addr " ∷ ds.br_addr ∷ codes " dev " ∷ ds.br_name ∷ []) in
      elim (parse_addr_prefix inet_pton ds.br_addr) [
        | err e ↦ do
          say_miss line
          do_act (text (codes "# bad yaml bridge.addr " ∷ ds.br_addr ∷ []))
          pure 1
        | ret (addr, prefix) ↦
            if has_addr rs (rs_find_iface rs ds.br_name) addr prefix
            then (do say_ok line; pure 0)
            else do
              say_miss line
              do_act (text (codes "ip addr add " ∷ ds.br_addr ∷ codes " dev " ∷ ds.br_name ∷ []))
              pure 1
      ]

  -- The branches on `ds->br_addr_mode`.
  unfoldable pub check_addr_mode : AddrMode → DesiredState → RealState → Check ℕ
  check_addr_mode addr_none ds rs = pure 0
  check_addr_mode addr_dhcp ds rs = check_dhcp ds rs
  check_addr_mode addr_static ds rs = check_static ds rs

  unfoldable pub check_bridge_addr : DesiredState → RealState → Check ℕ
  unfolding check_addr_mode
  check_bridge_addr ds rs = check_addr_mode ds.br_addr_mode ds rs

  unfoldable pub check_bridge_gateway : DesiredState → RealState → Check ℕ
  check_bridge_gateway ds rs =
      let line = text (codes "gateway " ∷ ds.br_gateway ∷ codes " dev " ∷ ds.br_name ∷ []) in
      if is_empty ds.br_gateway then pure 0 else elim (parse_ip4 inet_pton ds.br_gateway) [
        | err e ↦ do
          say_miss line
          do_act (text (codes "# bad yaml bridge.gateway " ∷ ds.br_gateway ∷ []))
          pure 1
        | ret gw ↦
            if has_route rs (rs_find_iface rs ds.br_name) 0 0 gw true
            then (do say_ok line; pure 0)
            else do
              say_miss line
              do_act (
                  text (
                    codes "ip route replace 0.0.0.0/0 via "
                    ∷ ds.br_gateway
                    ∷ codes " dev "
                    ∷ ds.br_name
                    ∷ []))
              pure 1
      ]

  -- One round of the loop in `check_bridge_dns`.
  unfoldable pub check_one_dns : DesiredState → RealState → Bytes → Check ℕ
  check_one_dns ds rs dns =
      let line = text (codes "dns " ∷ dns ∷ codes " dev " ∷ ds.br_name ∷ []) in
      elim (parse_ip4 inet_pton dns) [
        | err e ↦ do
          say_miss line
          do_act (text (codes "# bad yaml bridge.dns " ∷ dns ∷ []))
          pure 1
        | ret addr ↦ if rs_dns4_exists rs addr then (do say_ok line; pure 0) else do
          say_miss line
          do_act (text (codes "# set dns " ∷ dns ∷ codes " dev " ∷ ds.br_name ∷ []))
          pure 1
      ]

  unfoldable pub dns_loop : DesiredState → RealState → List Bytes → Check ℕ
  dns_loop ds rs [] = pure 0
  dns_loop ds rs (d ∷ more) = do a ← check_one_dns ds rs d; b ← dns_loop ds rs more; pure (a + b)

  unfoldable pub check_bridge_dns : DesiredState → RealState → Check ℕ
  check_bridge_dns ds rs = dns_loop ds rs ds.br_dns
