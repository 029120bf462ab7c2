-- ===== src/Verify/Vlan.antt =====
-- verify.c: `check_vlan_attrs` and `act_add_vlan`.
use netrec.Prelude.{
  ℕ, ◌+◌, Bool, true, false, ◌&&◌, ◌||◌, Option, none, some, [], ◌∷◌, codes, text, decimal, ◌==◌,
  ◌==ℤ◌, if◌then◌else◌,
}
use netrec.State.{DesiredState, RealState, Iface, Vlan, rs_find_iface}
use netrec.Verify.Calls.{Check, ◌>>=◌, ◌>>◌, pure, say_ok, say_miss, do_act}
use netrec.Verify.Links.{check_iface_up}

unfoldable pub act_add_vlan : DesiredState → Check (Unit {0})
act_add_vlan ds = do_act (
    text (
      codes "ip link add link "
      ∷ ds.vlan_link
      ∷ codes " name "
      ∷ ds.vlan_ifname
      ∷ codes " type vlan id "
      ∷ decimal ds.vlan_id
      ∷ []))

-- The commands that make the interface anew: add, up, master.
unfoldable pub create_vlan : DesiredState → Check (Unit {0})
unfolding act_add_vlan
create_vlan ds = do
  act_add_vlan ds
  do_act (text (codes "ip link set " ∷ ds.vlan_ifname ∷ codes " up" ∷ []))
  do_act (text (codes "ip link set " ∷ ds.vlan_ifname ∷ codes " master " ∷ ds.vlan_bridge ∷ []))

-- `vl->has_id && vl->id == ds->vlan_id`: the added diff, and whether to recreate.
unfoldable pub check_vlan_id : DesiredState → Vlan → Check (ℕ × Bool)
check_vlan_id ds vl =
    let line = text (codes "vlan " ∷ ds.vlan_ifname ∷ codes " id " ∷ decimal ds.vlan_id ∷ []) in
    if vl.has_id && vl.id == ds.vlan_id
    then (do say_ok line; pure (0, false))
    else do say_miss line; pure (1, true)

-- `link && vl->has_link && vl->link == link->ifindex`
unfoldable pub vlan_on : Vlan → Option Iface → Bool
vlan_on vl none = false
vlan_on vl (some link) = vl.has_link && vl.link ==ℤ link.ifindex

unfoldable pub check_vlan_link : DesiredState → RealState → Vlan → Check (ℕ × Bool)
check_vlan_link ds rs vl =
    let line = text (codes "vlan " ∷ ds.vlan_ifname ∷ codes " link " ∷ ds.vlan_link ∷ []) in
    if vlan_on vl (rs_find_iface rs ds.vlan_link)
    then (do say_ok line; pure (0, false))
    else do say_miss line; pure (1, true)

-- The branch `!vl`.
unfoldable pub vlan_missing : DesiredState → Option Iface → Check (ℕ × Bool)
vlan_missing ds vl_if = elim vl_if [
  | none ↦ do say_miss (text (codes "iface " ∷ ds.vlan_ifname ∷ [])); create_vlan ds; pure (1, true)
  | some _ ↦ do
    say_miss (text (codes "iface " ∷ ds.vlan_ifname ∷ codes " type vlan" ∷ []))
    do_act (text (codes "ip link del " ∷ ds.vlan_ifname ∷ []))
    create_vlan ds
    pure (1, true)
]

-- What follows the two tests, with the diff so far and `*recreate`.
unfoldable pub vlan_settle : DesiredState → Option Iface → ℕ → Bool → Check (ℕ × Bool)
vlan_settle ds vl_if diff recreate =
    if recreate
    then (do
      do_act (text (codes "ip link del " ∷ ds.vlan_ifname ∷ []))
      create_vlan ds
      pure (diff, true))
    else do d ← check_iface_up ds.vlan_ifname vl_if; pure (diff + d, false)

-- Returns the diff and `*recreate`.
unfoldable pub check_vlan_attrs :
    DesiredState → RealState → Option Iface → Option Vlan → Check (ℕ × Bool)
check_vlan_attrs ds rs vl_if vlan = elim vlan [
  | none ↦ vlan_missing ds vl_if
  | some vl ↦ do
    say_ok (text (codes "iface " ∷ ds.vlan_ifname ∷ codes " exists" ∷ []))
    a ← check_vlan_id ds vl
    b ← check_vlan_link ds rs vl
    vlan_settle ds vl_if (a.0 + b.0) (a.1 || b.1)
]
