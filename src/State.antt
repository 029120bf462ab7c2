-- ===== src/State.antt =====
-- state.h and state.c: the desired state, the snapshot of the kernel's state, and the lookups in
-- the snapshot. A fixed array with its counter is a list; an `int` flag is a `Bool`; an IPv4
-- address is the 32-bit number that `inet_pton` stores.
pub mod Resolv
use netrec.Prelude.{ℕ, ℤ, Bool, Option, List, Bytes, streq, ◌==◌, ◌==ℤ◌, find_first, any_of}

pub data AddrMode : Type 0 where
  addr_none addr_static addr_dhcp : AddrMode

pub record DesiredRoute4 : Type 0 where
  pub dst : Bytes
  pub via : Bytes
  pub dev : Bytes
  pub has_via : Bool

pub record DesiredState : Type 0 where
  pub scenario : Bytes
  pub br_name : Bytes
  pub br_addr_mode : AddrMode
  pub br_addr : Bytes
  pub br_gateway : Bytes
  pub br_dns : List Bytes
  pub br_dhcp_cmd : Bytes
  pub br_ports : List Bytes
  pub up_ifname : Bytes
  pub vlan_ifname : Bytes
  pub vlan_id : ℕ
  pub vlan_link : Bytes
  pub vlan_bridge : Bytes
  pub wg_ifname : Bytes
  pub wg_peer_ip : Bytes
  pub wg_route_dev : Bytes
  pub vx_ifname : Bytes
  pub vx_vni : ℕ
  pub vx_remote : Bytes
  pub vx_dev : Bytes
  pub vx_bridge : Bytes
  pub routes : List DesiredRoute4

abbrev pub DesiredSet : Type 0
DesiredSet = List DesiredState

-- The limits of state.h.
abbrev pub nr_br_port_max : ℕ
nr_br_port_max = 32

abbrev pub nr_des_route4_max : ℕ
nr_des_route4_max = 64

abbrev pub nr_des_dns4_max : ℕ
nr_des_dns4_max = 4

abbrev pub nr_des_state_max : ℕ
nr_des_state_max = 16

abbrev pub nr_dns4_max : ℕ
nr_dns4_max = 16

abbrev pub nr_iface_max : ℕ
nr_iface_max = 2048

abbrev pub nr_addr4_max : ℕ
nr_addr4_max = 8192

abbrev pub nr_route4_max : ℕ
nr_route4_max = 32768

abbrev pub nr_vxlan_max : ℕ
nr_vxlan_max = 1024

abbrev pub nr_vlan_max : ℕ
nr_vlan_max = 4096

-- IFNAMSIZ and INET_ADDRSTRLEN of the system headers.
abbrev pub ifnamsiz : ℕ
ifnamsiz = 16

abbrev pub inet_addrstrlen : ℕ
inet_addrstrlen = 16

pub record Iface : Type 0 where
  pub name : Bytes
  pub kind : Bytes
  pub ifindex : ℤ
  pub flags : ℕ
  pub has_carrier : Bool
  pub carrier : ℕ
  pub master : ℤ
  pub link : ℤ
  pub has_link : Bool

pub record Addr4 : Type 0 where
  pub ifindex : ℤ
  pub addr : ℕ
  pub prefix : ℕ

pub record Route4 : Type 0 where
  pub dst : ℕ
  pub prefix : ℕ
  pub gw : ℕ
  pub has_gw : Bool
  pub oif : ℤ

pub record Vxlan : Type 0 where
  pub ifname : Bytes
  pub ifindex : ℤ
  pub vni : ℕ
  pub has_vni : Bool
  pub remote : ℕ
  pub has_remote : Bool
  pub link : ℤ
  pub has_link : Bool

pub record Vlan : Type 0 where
  pub ifname : Bytes
  pub ifindex : ℤ
  pub id : ℕ
  pub has_id : Bool
  pub link : ℤ
  pub has_link : Bool

pub record RealState : Type 0 where
  pub ifaces : List Iface
  pub addr4 : List Addr4
  pub route4 : List Route4
  pub dns4 : List ℕ
  pub vxlan : List Vxlan
  pub vlan : List Vlan

unfoldable pub rs_find_iface : RealState → Bytes → Option Iface
unfolding find_first
rs_find_iface rs name = find_first (λ x. streq x.name name) rs.ifaces

unfoldable pub rs_find_iface_idx : RealState → ℤ → Option Iface
unfolding find_first
rs_find_iface_idx rs i = find_first (λ x. x.ifindex ==ℤ i) rs.ifaces

unfoldable pub rs_find_vxlan : RealState → Bytes → Option Vxlan
unfolding find_first
rs_find_vxlan rs name = find_first (λ x. streq x.ifname name) rs.vxlan

unfoldable pub rs_find_vlan : RealState → Bytes → Option Vlan
unfolding find_first
rs_find_vlan rs name = find_first (λ x. streq x.ifname name) rs.vlan

unfoldable pub rs_dns4_exists : RealState → ℕ → Bool
unfolding any_of
rs_dns4_exists rs addr = any_of (λ x. x == addr) rs.dns4
