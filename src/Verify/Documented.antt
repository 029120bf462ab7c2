-- ===== src/Verify/Documented.antt =====
-- The uplink of `wg_vxlan_bridge`, which verify.c asks to exist and to be up, and README.md and ctx.md
-- ask to be a port of the bridge too ("all uplink_bridge checks/actions if uplink is configured"). The
-- other scenarios are those of Verify/Spec.
use netrec.Prelude.{ℕ, ◌≡◌, ◌≢◌, ◌⊎◌, true, false, Option, some, Bytes, codes, is_empty, All}
use netrec.State.{DesiredState, RealState, Iface}
use netrec.Verify.Spec.{
  Named, ExistsUp, HasMaster, HasRoute, MemberOk, BridgePartsOk, VxlanOk, Kind, only_uplink,
  uplink_bridge, vlan_bridge, wg_vxlan_bridge, IsKind, KindOk, RouteOk,
}

-- `wg_vxlan_bridge` of the documents: a configured uplink is a port of the bridge, as in `uplink_bridge`.
abbrev pub WgVxlanDocumented : (Bytes → Option ℕ) → DesiredState → RealState → Type 0
WgVxlanDocumented net ds rs =
    BridgePartsOk net ds rs
    × ((is_empty ds.up_ifname ≡ true) ⊎ MemberOk rs ds.up_ifname ds.br_name)
    × ((ip : ℕ) × (net ds.wg_peer_ip ≡ some ip) × HasRoute rs ds.wg_route_dev ip 32 0 false)
    × ExistsUp rs ds.wg_ifname
    × VxlanOk net ds rs
    × MemberOk rs ds.vx_ifname ds.vx_bridge

abbrev pub KindDocumented : (Bytes → Option ℕ) → Kind → DesiredState → RealState → Type 0
KindDocumented net only_uplink ds rs = KindOk net only_uplink ds rs
KindDocumented net uplink_bridge ds rs = KindOk net uplink_bridge ds rs
KindDocumented net vlan_bridge ds rs = KindOk net vlan_bridge ds rs
KindDocumented net wg_vxlan_bridge ds rs = WgVxlanDocumented net ds rs

abbrev pub SatisfiesDocumented : (Bytes → Option ℕ) → DesiredState → RealState → Type 0
SatisfiesDocumented net ds rs =
    ((k : Kind) × IsKind k ds.scenario × KindDocumented net k ds rs)
    × All (RouteOk net rs) ds.routes

-- What the documents ask of `wg_vxlan_bridge` and the code does not look at.
abbrev pub UplinkInBridge : DesiredState → RealState → Type 0
UplinkInBridge ds rs =
    (ds.scenario ≢ codes "wg_vxlan_bridge")
    ⊎ ((is_empty ds.up_ifname ≡ true)
        ⊎ ((i : Iface) × Named rs ds.up_ifname i × HasMaster rs i ds.br_name))
