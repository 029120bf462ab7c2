-- ===== src/Yaml/Parts.antt =====
-- yaml.c: the parts of a desired state. An out-parameter is part of the result; a state that a failing
-- call leaves half filled is dropped, as its callers drop it.
use netrec.Prelude.{
  ℕ, zero, suc, Bool, true, false, not, ◌&&◌, ◌||◌, none, some, List, [], ◌∷◌, Bytes, codes, streq,
  is_empty, take, if◌then◌else◌, Result, ret, err, einval, e2big, ◌>>=◌,
}
use netrec.State.{
  DesiredState, DesiredRoute4, AddrMode, addr_none, addr_static, addr_dhcp, nr_br_port_max,
  nr_des_route4_max, nr_des_dns4_max, ifnamsiz, inet_addrstrlen,
}
use netrec.Cfg.Node.{Nodes, nil, link, Node, is_obj, obj_find}
use netrec.Yaml.Fields.{get_str, get_u32, get_str_arr, get_dns_arr}

-- One route of `load_routes`.
unfoldable pub load_route : Node → Result DesiredRoute4
unfolding codes
load_route it = do
  dst ← get_str it (codes "dst") 32 true
  dev ← get_str it (codes "dev") ifnamsiz true
  via ← get_str it (codes "via") inet_addrstrlen false
  ret (record { dst = dst; via = via; dev = dev; has_via = not (is_empty via) })

-- The loop of `load_routes`.
unfoldable pub route_items : ℕ → Nodes → Result (List DesiredRoute4)
route_items room nil = ret []
route_items zero (link t m v c next) = if is_obj t then err e2big else err einval
route_items (suc room) (link t m v c next) =
    let rest = route_items room next in
    if is_obj t
    then (load_route (record { type = t; name = m; val = v; child = c }) >>= λ r.
        rest >>= λ rs. ret (r ∷ rs))
    else err einval

unfoldable pub load_routes : Node → DesiredState → Result DesiredState
unfolding codes
load_routes root ds = elim (obj_find root (codes "routes")) [
  | none ↦ ret (record ds { routes = [] })
  | some n ↦
      if is_obj n.type
      then (route_items nr_des_route4_max n.child >>= λ rs. ret (record ds { routes = rs }))
      else err einval
]

-- The `addr_mode` that the text asks for, with `addr` and `dhcp_cmd` in view.
unfoldable pub mode_of : Bytes → Bytes → Bytes → Result AddrMode
unfolding codes
mode_of mode addr dhcp_cmd =
    if is_empty mode
    then ret (if is_empty addr then addr_none else addr_static)
    else if streq mode (codes "static")
    then (if is_empty addr then err einval else ret addr_static)
    else if streq mode (codes "dhcp")
    then (if not (is_empty addr) || is_empty dhcp_cmd then err einval else ret addr_dhcp)
    else if streq mode (codes "none")
    then (if not (is_empty addr) then err einval else ret addr_none)
    else err einval

abbrev pub is_static : AddrMode → Bool
is_static addr_static = true
is_static _ = false

abbrev pub no_items : List Bytes → Bool
no_items [] = true
no_items (_ ∷ _) = false

-- The gateway and the name servers want a static address.
unfoldable pub static_only : AddrMode → Bytes → List Bytes → Bool
static_only mode gateway dns = is_static mode || (is_empty gateway && no_items dns)

abbrev pub guard : Bool → Result (Unit {0})
guard b = if b then ret tt else err einval

-- The object under a key, or EINVAL.
unfoldable pub required : Node → Bytes → Result Node
required root name = elim (obj_find root name) [
  | none ↦ err einval
  | some n ↦ if is_obj n.type then ret n else err einval
]

unfoldable pub load_bridge : Node → DesiredState → Result DesiredState
unfolding codes
load_bridge root ds = do
  br ← required root (codes "bridge")
  name ← get_str br (codes "name") ifnamsiz true
  addr ← get_str br (codes "addr") 32 false
  gateway ← get_str br (codes "gateway") inet_addrstrlen false
  dns ← get_dns_arr br (codes "dns") nr_des_dns4_max
  mode ← get_str br (codes "addr_mode") 16 false
  dhcp_cmd ← get_str br (codes "dhcp_cmd") 128 false
  m ← mode_of mode addr dhcp_cmd
  _ ← guard (static_only m gateway dns)
  ports ← get_str_arr br (codes "ports") nr_br_port_max
  ret (record ds {
    br_name = name;
    br_addr = addr;
    br_gateway = gateway;
    br_dns = dns;
    br_addr_mode = m;
    br_dhcp_cmd = dhcp_cmd;
    br_ports = ports;
  })

unfoldable pub load_uplink : Node → DesiredState → Result DesiredState
unfolding codes
load_uplink root ds = do
  up ← required root (codes "uplink")
  name ← get_str up (codes "ifname") ifnamsiz true
  ret (record ds { up_ifname = name })

-- `if (!dst[0]) cpy(dst, sizeof(dst), def);`
abbrev pub or_else : Bytes → Bytes → Bytes
or_else [] def = take 15 def
or_else (c ∷ cs) def = c ∷ cs

unfoldable pub load_vlan : Node → DesiredState → Result DesiredState
unfolding codes
load_vlan root ds = do
  vl ← required root (codes "vlan")
  name ← get_str vl (codes "ifname") ifnamsiz true
  id ← get_u32 vl (codes "id")
  own_link ← get_str vl (codes "link") ifnamsiz false
  own_bridge ← get_str vl (codes "bridge") ifnamsiz false
  _ ← guard (streq (or_else own_link ds.up_ifname) ds.up_ifname)
  _ ← guard (streq (or_else own_bridge ds.br_name) ds.br_name)
  ret (record ds {
    vlan_ifname = name;
    vlan_id = id;
    vlan_link = or_else own_link ds.up_ifname;
    vlan_bridge = or_else own_bridge ds.br_name;
  })

unfoldable pub load_wg_vxlan : Node → DesiredState → Result DesiredState
unfolding codes
load_wg_vxlan root ds = do
  wg ← required root (codes "wg")
  vx ← required root (codes "vxlan")
  wg_name ← get_str wg (codes "ifname") ifnamsiz true
  peer_ip ← get_str wg (codes "peer_ip") inet_addrstrlen true
  route_dev ← get_str wg (codes "route_dev") ifnamsiz true
  vx_name ← get_str vx (codes "ifname") ifnamsiz true
  vni ← get_u32 vx (codes "vni")
  remote ← get_str vx (codes "remote") inet_addrstrlen true
  dev ← get_str vx (codes "dev") ifnamsiz false
  bridge ← get_str vx (codes "bridge") ifnamsiz true
  _ ← guard (is_empty dev || streq dev wg_name)
  _ ← guard (streq bridge ds.br_name)
  ret (record ds {
    wg_ifname = wg_name;
    wg_peer_ip = peer_ip;
    wg_route_dev = route_dev;
    vx_ifname = vx_name;
    vx_vni = vni;
    vx_remote = remote;
    vx_dev = dev;
    vx_bridge = bridge;
  })
