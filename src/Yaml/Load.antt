-- ===== src/Yaml/Load.antt =====
-- yaml.c: `load_state` and the sets of desired states that a file holds.
use netrec.Prelude.{
  ℕ, zero, suc, true, none, some, [], ◌∷◌, Bytes, codes, streq, if◌then◌else◌, Result, ret, err,
  einval, e2big, ◌>>=◌,
}
use netrec.State.{DesiredState, DesiredSet, addr_none, nr_des_state_max}
use netrec.Cfg.Node.{Nodes, nil, link, Node, is_obj, obj_find}
use netrec.Cfg.File.{cfg_load}
use netrec.Yaml.Fields.{is_scn, get_str}
use netrec.Yaml.Parts.{load_routes, required, load_bridge, load_uplink, load_vlan, load_wg_vxlan}

-- `memset(ds, 0, sizeof(*ds))` and the scenario.
abbrev pub blank_state : Bytes → DesiredState
blank_state scenario = record {
  scenario = scenario;
  br_name = [];
  br_addr_mode = addr_none;
  br_addr = [];
  br_gateway = [];
  br_dns = [];
  br_dhcp_cmd = [];
  br_ports = [];
  up_ifname = [];
  vlan_ifname = [];
  vlan_id = 0;
  vlan_link = [];
  vlan_bridge = [];
  wg_ifname = [];
  wg_peer_ip = [];
  wg_route_dev = [];
  vx_ifname = [];
  vx_vni = 0;
  vx_remote = [];
  vx_dev = [];
  vx_bridge = [];
  routes = [];
}

-- `if (!rc && up) rc = load_uplink(root, ds);`
unfoldable pub uplink_if_any : Node → DesiredState → Result DesiredState
unfolding codes
uplink_if_any root ds = elim (obj_find root (codes "uplink")) [
  | none ↦ ret ds
  | some _ ↦ load_uplink root ds
]

-- The part of `load_state` that the scenario chooses.
unfoldable pub load_scenario : Node → DesiredState → Result DesiredState
unfolding codes
load_scenario root ds =
    if is_scn ds.scenario (codes "only_uplink") (codes "only_uplink_iface")
    then load_uplink root ds
    else if is_scn ds.scenario (codes "uplink_bridge") (codes "uplink_in_bridge")
    then (load_bridge root ds >>= load_uplink root)
    else if is_scn ds.scenario (codes "vlan_bridge") (codes "vlan_in_bridge")
    then (load_bridge root ds >>= λ d. load_uplink root d >>= load_vlan root)
    else if streq ds.scenario (codes "wg_vxlan_bridge")
    then (load_bridge root ds >>= λ d. uplink_if_any root d >>= load_wg_vxlan root)
    else err einval

unfoldable pub load_state : Node → Result DesiredState
unfolding codes
load_state root = do
  scenario ← get_str root (codes "scenario") 32 true
  ds ← load_scenario root (blank_state scenario)
  load_routes root ds

-- The loop of `yaml_load_desired_set`, with room for so many states more.
unfoldable pub state_items : ℕ → Nodes → Result DesiredSet
state_items room nil = ret []
state_items zero (link t m v c next) = if is_obj t then err e2big else err einval
state_items (suc room) (link t m v c next) =
    let rest = state_items room next in
    if is_obj t
    then (load_state (record { type = t; name = m; val = v; child = c }) >>= λ d.
        rest >>= λ ds. ret (d ∷ ds))
    else err einval

abbrev pub not_empty : DesiredSet → Result DesiredSet
not_empty [] = err einval
not_empty (d ∷ ds) = ret (d ∷ ds)

-- `file` is what the file at the path holds.
unfoldable pub yaml_load_desired_set : Bytes → Result DesiredSet
unfolding codes
yaml_load_desired_set file = cfg_load file >>= λ root. elim (obj_find root (codes "scenario")) [
  | some _ ↦ load_state root >>= λ d. ret (d ∷ [])
  | none ↦ required root (codes "state") >>= λ states.
      state_items nr_des_state_max states.child >>= not_empty
]

abbrev pub only_one : DesiredSet → Result DesiredState
only_one (d ∷ []) = ret d
only_one _ = err einval

unfoldable pub yaml_load_desired : Bytes → Result DesiredState
yaml_load_desired file = yaml_load_desired_set file >>= only_one
