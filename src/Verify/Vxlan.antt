-- ===== src/Verify/Vxlan.antt =====
-- verify.c: `check_vxlan_attrs` and `act_add_vxlan`.
use netrec.Prelude.{
  ℕ, ◌+◌, Bool, true, false, ◌&&◌, ◌||◌, Option, none, some, [], ◌∷◌, Bytes, codes, text, decimal,
  is_empty, ◌==◌, ◌==ℤ◌, if◌then◌else◌, ret, err,
}
use netrec.State.{DesiredState, RealState, Iface, Vxlan, rs_find_iface}
use netrec.Verify.Calls.{Check, ◌>>=◌, ◌>>◌, pure, say_ok, say_miss, do_act}
use netrec.Verify.Address.{parse_ip4}
use netrec.Verify.Links.{check_iface_up}

unfoldable pub act_add_vxlan : DesiredState → Check (Unit {0})
act_add_vxlan ds =
    if is_empty ds.vx_dev
    then do_act (
        text (
          codes "ip link add "
          ∷ ds.vx_ifname
          ∷ codes " type vxlan id "
          ∷ decimal ds.vx_vni
          ∷ codes " remote "
          ∷ ds.vx_remote
          ∷ []))
    else do_act (
        text (
          codes "ip link add "
          ∷ ds.vx_ifname
          ∷ codes " type vxlan id "
          ∷ decimal ds.vx_vni
          ∷ codes " remote "
          ∷ ds.vx_remote
          ∷ codes " dev "
          ∷ ds.vx_dev
          ∷ []))

-- The commands that make the interface anew: add, up, master.
unfoldable pub create_vxlan : DesiredState → Check (Unit {0})
unfolding act_add_vxlan
create_vxlan ds = do
  act_add_vxlan ds
  do_act (text (codes "ip link set " ∷ ds.vx_ifname ∷ codes " up" ∷ []))
  do_act (text (codes "ip link set " ∷ ds.vx_ifname ∷ codes " master " ∷ ds.vx_bridge ∷ []))

-- `vx->has_vni && vx->vni == ds->vx_vni`: the added diff, and whether to recreate.
unfoldable pub check_vni : DesiredState → Vxlan → Check (ℕ × Bool)
check_vni ds vx =
    let line = text (codes "vxlan " ∷ ds.vx_ifname ∷ codes " vni " ∷ decimal ds.vx_vni ∷ []) in
    if vx.has_vni && vx.vni == ds.vx_vni
    then (do say_ok line; pure (0, false))
    else do say_miss line; pure (1, true)

unfoldable pub check_remote : (Bytes → Option ℕ) → DesiredState → Vxlan → Check (ℕ × Bool)
check_remote inet_pton ds vx =
    let line = text (codes "vxlan " ∷ ds.vx_ifname ∷ codes " remote " ∷ ds.vx_remote ∷ []) in
    elim (parse_ip4 inet_pton ds.vx_remote) [
      | err e ↦ do
        say_miss line
        do_act (text (codes "# bad yaml vxlan.remote " ∷ ds.vx_remote ∷ []))
        pure (1, false)
      | ret remote ↦
          if vx.has_remote && vx.remote == remote
          then (do say_ok line; pure (0, false))
          else do say_miss line; pure (1, true)
    ]

-- `dev && vx->has_link && vx->link == dev->ifindex`
unfoldable pub vxlan_on : Vxlan → Option Iface → Bool
vxlan_on vx none = false
vxlan_on vx (some dev) = vx.has_link && vx.link ==ℤ dev.ifindex

unfoldable pub check_vxlan_dev : DesiredState → RealState → Vxlan → Check (ℕ × Bool)
check_vxlan_dev ds rs vx =
    let line = text (codes "vxlan " ∷ ds.vx_ifname ∷ codes " dev " ∷ ds.vx_dev ∷ []) in
    if is_empty ds.vx_dev
    then pure (0, false)
    else if vxlan_on vx (rs_find_iface rs ds.vx_dev)
    then (do say_ok line; pure (0, false))
    else do say_miss line; pure (1, true)

-- The branch `!vx`.
unfoldable pub vxlan_missing : DesiredState → Option Iface → Check (ℕ × Bool)
vxlan_missing ds vx_if = elim vx_if [
  | none ↦ do say_miss (text (codes "iface " ∷ ds.vx_ifname ∷ [])); create_vxlan ds; pure (1, true)
  | some _ ↦ do
    say_miss (text (codes "iface " ∷ ds.vx_ifname ∷ codes " type vxlan" ∷ []))
    do_act (text (codes "ip link del " ∷ ds.vx_ifname ∷ []))
    create_vxlan ds
    pure (1, true)
]

-- What follows the three tests, with the diff so far and `*recreate`.
unfoldable pub vxlan_settle : DesiredState → Option Iface → ℕ → Bool → Check (ℕ × Bool)
vxlan_settle ds vx_if diff recreate =
    if recreate
    then (do
      do_act (text (codes "ip link del " ∷ ds.vx_ifname ∷ []))
      create_vxlan ds
      pure (diff, true))
    else do d ← check_iface_up ds.vx_ifname vx_if; pure (diff + d, false)

-- Returns the diff and `*recreate`.
unfoldable pub check_vxlan_attrs :
    (Bytes → Option ℕ) → DesiredState → RealState → Option Iface → Option Vxlan → Check (ℕ × Bool)
check_vxlan_attrs inet_pton ds rs vx_if vxlan = elim vxlan [
  | none ↦ vxlan_missing ds vx_if
  | some vx ↦ do
    say_ok (text (codes "iface " ∷ ds.vx_ifname ∷ codes " exists" ∷ []))
    a ← check_vni ds vx
    b ← check_remote inet_pton ds vx
    c ← check_vxlan_dev ds rs vx
    vxlan_settle ds vx_if (a.0 + b.0 + c.0) (a.1 || b.1 || c.1)
]
