-- ===== src/Verify/Spec.antt =====
-- The specification of verify.c: what it means for a snapshot to satisfy a desired state, in terms
-- of the entries of the snapshot and their fields. Of the code it uses only `rs_find_iface`,
-- `rs_find_vxlan`, `rs_find_vlan` and the parsers of addresses.
use netrec.Prelude.{
  ℕ, ◌%◌, ◌≡◌, ◌⊎◌, Bool, true, false, Option, some, Bytes, codes, is_empty, ret, is_nonpos, All,
  Memᴰ,
}
use netrec.State.{
  DesiredState, DesiredRoute4, AddrMode, addr_none, addr_static, addr_dhcp, RealState, Iface, Addr4,
  Route4, Vxlan, Vlan, rs_find_iface, rs_find_vxlan, rs_find_vlan,
}
use netrec.Verify.Address.{parse_addr_prefix}

-- The interface `n` of the snapshot.
abbrev pub Named : RealState → Bytes → Iface → Type 0
Named rs n i = rs_find_iface rs n ≡ some i

-- The flag IFF_UP.
abbrev pub IsUp : Iface → Type 0
IsUp i = i.flags % 2 ≡ 1

abbrev pub ExistsUp : RealState → Bytes → Type 0
ExistsUp rs n = (i : Iface) × Named rs n i × IsUp i

-- Interface `i` is a port of the bridge `br_name`.
abbrev pub HasMaster : RealState → Iface → Bytes → Type 0
HasMaster rs i br_name = (br : Iface) × Named rs br_name br × (i.master ≡ br.ifindex)

abbrev pub BridgeOk : DesiredState → RealState → Type 0
BridgeOk ds rs = (br : Iface) × Named rs ds.br_name br × (br.kind ≡ codes "bridge") × IsUp br

-- Some address of the snapshot belongs to the interface.
abbrev pub AnyAddr : RealState → Iface → Type 0
AnyAddr rs i = (a : Addr4) × Memᴰ a rs.addr4 × (a.ifindex ≡ i.ifindex)

abbrev pub HasAddr : RealState → Iface → ℕ → ℕ → Type 0
HasAddr rs i addr prefix =
    (a : Addr4) × Memᴰ a rs.addr4 × (a.ifindex ≡ i.ifindex) × (a.prefix ≡ prefix) × (a.addr ≡ addr)

-- The gateway of a route: the one that is wanted, or none.
abbrev pub GatewayIs : Bool → ℕ → Route4 → Type 0
GatewayIs true gw r = (r.has_gw ≡ true) × (r.gw ≡ gw)
GatewayIs false gw r = r.has_gw ≡ false

-- A route of the snapshot over the device, whose index is positive.
abbrev pub HasRoute : RealState → Bytes → ℕ → ℕ → ℕ → Bool → Type 0
HasRoute rs dev dst prefix gw has_gw =
    (i : Iface) × Named rs dev i
    × (is_nonpos i.ifindex ≡ false)
    × (r : Route4) × Memᴰ r rs.route4
    × (r.oif ≡ i.ifindex)
    × (r.prefix ≡ prefix)
    × (r.dst ≡ dst)
    × GatewayIs has_gw gw r

module _ (net : Bytes → Option ℕ) where
  abbrev pub AddrOkIn : AddrMode → DesiredState → RealState → Type 0
  AddrOkIn addr_none ds rs = Unit
  AddrOkIn addr_dhcp ds rs = (br : Iface) × Named rs ds.br_name br × AnyAddr rs br
  AddrOkIn addr_static ds rs =
      (addr : ℕ) × (prefix : ℕ) × (parse_addr_prefix net ds.br_addr ≡ ret (addr, prefix))
      × (br : Iface) × Named rs ds.br_name br
      × HasAddr rs br addr prefix

  abbrev pub AddrOk : DesiredState → RealState → Type 0
  AddrOk ds = AddrOkIn ds.br_addr_mode ds

  -- No gateway is wanted, or the default route over the bridge goes through it.
  abbrev pub GatewayOk : DesiredState → RealState → Type 0
  GatewayOk ds rs =
      (is_empty ds.br_gateway ≡ true)
      ⊎ ((gw : ℕ) × (net ds.br_gateway ≡ some gw) × HasRoute rs ds.br_name 0 0 gw true)

  abbrev pub DnsOk : RealState → Bytes → Type 0
  DnsOk rs d = (a : ℕ) × (net d ≡ some a) × Memᴰ a rs.dns4

  -- The gateway of a desired route; 0 stands for none.
  abbrev pub ViaIs : DesiredRoute4 → ℕ → Type 0
  ViaIs rt via =
      ((rt.has_via ≡ false) × (via ≡ 0)) ⊎ ((rt.has_via ≡ true) × (net rt.via ≡ some via))

  abbrev pub RouteOk : RealState → DesiredRoute4 → Type 0
  RouteOk rs rt =
      (dst : ℕ) × (prefix : ℕ) × (parse_addr_prefix net rt.dst ≡ ret (dst, prefix))
      × (via : ℕ) × ViaIs rt via
      × HasRoute rs rt.dev dst prefix via rt.has_via

abbrev pub VlanOk : DesiredState → RealState → Type 0
VlanOk ds rs =
    (vl : Vlan) × (rs_find_vlan rs ds.vlan_ifname ≡ some vl)
    × ((vl.has_id ≡ true) × (vl.id ≡ ds.vlan_id))
    × ((link : Iface) × Named rs ds.vlan_link link
        × (vl.has_link ≡ true)
        × (vl.link ≡ link.ifindex))

-- No parent device is wanted, or the interface lies on it.
abbrev pub VxlanDevOk : DesiredState → RealState → Vxlan → Type 0
VxlanDevOk ds rs vx =
    (is_empty ds.vx_dev ≡ true)
    ⊎ ((dev : Iface) × Named rs ds.vx_dev dev × (vx.has_link ≡ true) × (vx.link ≡ dev.ifindex))

abbrev pub VxlanOk : (Bytes → Option ℕ) → DesiredState → RealState → Type 0
VxlanOk net ds rs =
    (vx : Vxlan) × (rs_find_vxlan rs ds.vx_ifname ≡ some vx)
    × ((vx.has_vni ≡ true) × (vx.vni ≡ ds.vx_vni))
    × ((remote : ℕ) × (net ds.vx_remote ≡ some remote)
        × (vx.has_remote ≡ true)
        × (vx.remote ≡ remote))
    × VxlanDevOk ds rs vx

-- The interface is there, up, and a port of the bridge.
abbrev pub MemberOk : RealState → Bytes → Bytes → Type 0
MemberOk rs n br_name = (i : Iface) × Named rs n i × IsUp i × HasMaster rs i br_name

-- The parts that every bridge scenario has.
abbrev pub BridgePartsOk : (Bytes → Option ℕ) → DesiredState → RealState → Type 0
BridgePartsOk net ds rs =
    BridgeOk ds rs
    × AddrOk net ds rs
    × GatewayOk net ds rs
    × All (DnsOk net rs) ds.br_dns
    × All (λ p. MemberOk rs p ds.br_name) ds.br_ports

abbrev pub UplinkBridgeOk : (Bytes → Option ℕ) → DesiredState → RealState → Type 0
UplinkBridgeOk net ds rs = BridgePartsOk net ds rs × MemberOk rs ds.up_ifname ds.br_name

abbrev pub VlanBridgeOk : (Bytes → Option ℕ) → DesiredState → RealState → Type 0
VlanBridgeOk net ds rs =
    BridgePartsOk net ds rs
    × ExistsUp rs ds.up_ifname
    × VlanOk ds rs
    × MemberOk rs ds.vlan_ifname ds.vlan_bridge

-- As in the code, an uplink that is configured has to exist and to be up; that it is a port of the
-- bridge, as README.md and ctx.md have it, is not asked (Verify/Documented).
abbrev pub WgVxlanBridgeOk : (Bytes → Option ℕ) → DesiredState → RealState → Type 0
WgVxlanBridgeOk net ds rs =
    BridgePartsOk net ds rs
    × ((is_empty ds.up_ifname ≡ true) ⊎ ExistsUp rs ds.up_ifname)
    × ((ip : ℕ) × (net ds.wg_peer_ip ≡ some ip) × HasRoute rs ds.wg_route_dev ip 32 0 false)
    × ExistsUp rs ds.wg_ifname
    × VxlanOk net ds rs
    × MemberOk rs ds.vx_ifname ds.vx_bridge

-- The four scenarios, each by the names that the configuration may give it.
pub data Kind : Type 0 where
  only_uplink uplink_bridge vlan_bridge wg_vxlan_bridge : Kind

abbrev pub IsKind : Kind → Bytes → Type 0
IsKind only_uplink s = (s ≡ codes "only_uplink") ⊎ (s ≡ codes "only_uplink_iface")
IsKind uplink_bridge s = (s ≡ codes "uplink_bridge") ⊎ (s ≡ codes "uplink_in_bridge")
IsKind vlan_bridge s = (s ≡ codes "vlan_bridge") ⊎ (s ≡ codes "vlan_in_bridge")
IsKind wg_vxlan_bridge s = s ≡ codes "wg_vxlan_bridge"

abbrev pub KindOk : (Bytes → Option ℕ) → Kind → DesiredState → RealState → Type 0
KindOk net only_uplink ds rs = ExistsUp rs ds.up_ifname
KindOk net uplink_bridge ds rs = UplinkBridgeOk net ds rs
KindOk net vlan_bridge ds rs = VlanBridgeOk net ds rs
KindOk net wg_vxlan_bridge ds rs = WgVxlanBridgeOk net ds rs

-- The snapshot satisfies the desired state: the scenario is one of the four, its parts hold, and
-- every desired route is there.
abbrev pub Satisfies : (Bytes → Option ℕ) → DesiredState → RealState → Type 0
Satisfies net ds rs =
    ((k : Kind) × IsKind k ds.scenario × KindOk net k ds rs) × All (RouteOk net rs) ds.routes
