-- ===== src/Tests/Sample.antt =====
-- Sample data for the tests: a parser of four addresses, a snapshot and desired states.
use netrec.Prelude.{
  ℕ, true, false, Option, none, some, [], ◌∷◌, Bytes, codes, streq, if◌then◌else◌, pos,
}
use netrec.State.{DesiredState, DesiredRoute4, addr_static, RealState, Iface}
use netrec.Verify.Exec.{exited, Spawn}

-- The addresses as they lie in memory on a little-endian machine.
abbrev pub pton : Bytes → Option ℕ
pton s =
    if streq s (codes "10.0.0.1")
    then some 0x0100000a
    else if streq s (codes "10.0.0.254")
    then some 0xfe00000a
    else if streq s (codes "10.1.0.0")
    then some 0x0000010a
    else none

-- Every command succeeds, or every command fails.
abbrev pub all_pass : Spawn
all_pass ran argv = exited 0

abbrev pub all_fail : Spawn
all_fail ran argv = exited 1

abbrev pub link_up : Bytes → ℕ → Bytes → ℕ → Iface
link_up name i kind m = record {
  name = name;
  kind = kind;
  ifindex = pos i;
  flags = 0x1003;
  has_carrier = true;
  carrier = 1;
  master = pos m;
  link = pos 0;
  has_link = false;
}

-- br-lan with the port eth0, one address and one route.
abbrev pub snapshot : RealState
snapshot = record {
  ifaces = link_up (codes "eth0") 2 [] 3 ∷ link_up (codes "br-lan") 3 (codes "bridge") 0 ∷ [];
  addr4 = record { ifindex = pos 3; addr = 0x0100000a; prefix = 24 } ∷ [];
  route4 =
      record { dst = 0x0000010a; prefix = 16; gw = 0xfe00000a; has_gw = true; oif = pos 3 } ∷ [];
  dns4 = [];
  vxlan = [];
  vlan = [];
}

abbrev pub wanted_route : DesiredRoute4
wanted_route = record {
  dst = codes "10.1.0.0/16";
  via = codes "10.0.0.254";
  dev = codes "br-lan";
  has_via = true;
}

abbrev pub wanted : DesiredState
wanted = record {
  scenario = codes "uplink_bridge";
  br_name = codes "br-lan";
  br_addr_mode = addr_static;
  br_addr = codes "10.0.0.1/24";
  br_gateway = [];
  br_dns = [];
  br_dhcp_cmd = [];
  br_ports = [];
  up_ifname = codes "eth0";
  vlan_ifname = [];
  vlan_id = 0;
  vlan_link = [];
  vlan_bridge = [];
  wg_ifname = [];
  wg_peer_ip = [];
  wg_route_dev = [];
  vx_ifname = [];
  vx_vni = 0;
  vx_remote = [];
  vx_dev = [];
  vx_bridge = [];
  routes = wanted_route ∷ [];
}

-- Another uplink, which the snapshot does not have.
abbrev pub unplugged : DesiredState
unplugged = record wanted { up_ifname = codes "eth9" }
