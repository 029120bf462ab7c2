-- ===== src/Uci/Build.antt =====
-- uci.c: the desired states that the network and wireless configurations stand for. A set that a failing
-- call leaves half filled is dropped, as its callers drop it.
use netrec.Prelude.{
  ℕ, Bool, true, not, ◌&&◌, ◌||◌, Option, none, some, List, [], ◌∷◌, ◌++◌, Bytes, codes, streq, leb,
  length, if◌then◌else◌, Result, ret, err, einval, e2big, ◌>>=◌,
}
use netrec.State.{DesiredState, DesiredSet, addr_none, nr_des_state_max, ifnamsiz, inet_addrstrlen}
use netrec.Yaml.Load.{blank_state}
use netrec.Uci.Words.{uci_cpy, uci_parse_u32_str}
use netrec.Uci.Db.{UciItem, UciDb, db_get, is_section, some_text, holds, find_iface_by_device}
use netrec.Uci.Ports.{add_wireless_ports, add_device_ports, first_device_port}
use netrec.Uci.Proto.{fill_bridge_proto, find_wg_for_remote}

-- The state that `add_state` appends, and the set with it once it is filled.
unfoldable pub add_state : DesiredSet → Result DesiredState → Result DesiredSet
add_state set filled =
    let go = filled >>= λ ds. ret (set ++ ds ∷ []) in
    if leb nr_des_state_max (length set) then err e2big else go

unfoldable pub fill_uplink_bridge :
    (Bytes → Option ℕ) → UciDb → UciDb → Bytes → Bytes → Bytes → Result DesiredState
unfolding codes
fill_uplink_bridge inet_pton net wifi dev_sect if_sect br_name =
    let ports = db_get net (codes "network") dev_sect (codes "ports") in
    (do
      ds ← fill_bridge_proto inet_pton net if_sect (record (blank_state (codes "uplink_bridge")) {
        br_name = uci_cpy ifnamsiz (some br_name);
      })
      up ← first_device_port ports ifnamsiz
      ds' ← add_device_ports ports (record ds { up_ifname = up }) true
      add_wireless_ports wifi if_sect ds')

unfoldable pub build_uplink_bridge :
    (Bytes → Option ℕ) → UciDb → UciDb → Bytes → Bytes → Bytes → DesiredSet → Result DesiredSet
build_uplink_bridge inet_pton net wifi dev_sect if_sect br_name set =
    add_state set (fill_uplink_bridge inet_pton net wifi dev_sect if_sect br_name)

-- The VXLAN of `build_wg_vxlan_bridge`: its number, the remote and the WireGuard interface.
unfoldable pub vxlan_of : UciDb → Bytes → Result (ℕ × Bytes × Bytes)
unfolding codes
vxlan_of net vx_ifname =
    let get = db_get net (codes "network") vx_ifname in
    if not (holds (get (codes "proto")) (codes "vxlan"))
    then err einval
    else elim (get (codes "vid")) [
      | none ↦ err einval
      | some vid ↦ elim (get (codes "peeraddr")) [
        | none ↦ err einval
        | some peeraddr ↦ do
          vni ← uci_parse_u32_str vid
          wg ← find_wg_for_remote net peeraddr
          ret (vni, peeraddr, wg)
      ]
    ]

unfoldable pub fill_wg_vxlan_bridge : UciDb → UciDb → Bytes → Bytes → Bytes → Result DesiredState
unfolding codes
fill_wg_vxlan_bridge net wifi dev_sect if_sect br_name =
    let ports = db_get net (codes "network") dev_sect (codes "ports") in
    (do
      vx_ifname ← first_device_port ports ifnamsiz
      vx ← vxlan_of net vx_ifname
      ds ←
          add_device_ports ports
            (record (blank_state (codes "wg_vxlan_bridge")) {
              br_name = uci_cpy ifnamsiz (some br_name);
              br_addr_mode = addr_none;
              vx_ifname = vx_ifname;
              vx_vni = vx.0;
              wg_ifname = uci_cpy ifnamsiz (some vx.2);
              wg_peer_ip = uci_cpy inet_addrstrlen (some vx.1);
              wg_route_dev = uci_cpy ifnamsiz (some vx.2);
              vx_remote = uci_cpy inet_addrstrlen (some vx.1);
              vx_bridge = uci_cpy ifnamsiz (some br_name);
            })
            true
      add_wireless_ports wifi if_sect ds)

unfoldable pub build_wg_vxlan_bridge :
    UciDb → UciDb → Bytes → Bytes → Bytes → DesiredSet → Result DesiredSet
build_wg_vxlan_bridge net wifi dev_sect if_sect br_name set =
    add_state set (fill_wg_vxlan_bridge net wifi dev_sect if_sect br_name)

-- A bridge device of `uci_build_desired_set`.
unfoldable pub build_bridge :
    (Bytes → Option ℕ) → UciDb → UciDb → UciItem → DesiredSet → Result DesiredSet
unfolding codes
build_bridge inet_pton net wifi it set =
    elim (some_text (db_get net (codes "network") it.sect (codes "name"))) [
      | none ↦ err einval
      | some br_name ↦ elim (find_iface_by_device net br_name) [
        | none ↦ err einval
        | some if_sect ↦ elim (some_text (db_get net (codes "network") if_sect (codes "proto"))) [
          | none ↦ err einval
          | some proto ↦
              if streq proto (codes "static") || streq proto (codes "dhcp")
              then build_uplink_bridge inet_pton net wifi it.sect if_sect br_name set
              else if streq proto (codes "none")
              then build_wg_vxlan_bridge net wifi it.sect if_sect br_name set
              else err einval
        ]
      ]
    ]

unfoldable pub is_bridge : UciDb → UciItem → Bool
unfolding codes
is_bridge net it =
    is_section (codes "network") (codes "device") it
    && holds (db_get net (codes "network") it.sect (codes "type")) (codes "bridge")

-- The loop of `uci_build_desired_set`.
unfoldable pub build_loop :
    (Bytes → Option ℕ) → UciDb → UciDb → List UciItem → DesiredSet → Result DesiredSet
build_loop inet_pton net wifi [] set = ret set
build_loop inet_pton net wifi (it ∷ items) set =
    let next = build_bridge inet_pton net wifi it set >>= build_loop inet_pton net wifi items in
    let skip = build_loop inet_pton net wifi items set in if is_bridge net it then next else skip

-- `uci_build_desired_set`, on the two loaded configurations; the wireless one is loaded behind the other.
unfoldable pub uci_build_desired_set :
    (Bytes → Option ℕ) → Result UciDb → Result UciDb → Result DesiredSet
unfolding build_loop
uci_build_desired_set inet_pton network wireless = do
  net ← network
  wifi ← wireless
  set ← build_loop inet_pton net wifi net []
  elim set [ [] ↦ err einval | d ∷ ds ↦ ret (d ∷ ds) ]
