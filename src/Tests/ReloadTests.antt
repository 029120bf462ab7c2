-- ===== src/Tests/ReloadTests.antt =====
-- The theorems on sets of uci.c that are written and loaded again, at concrete inputs.
use netrec.Yaml.Fields.{get_str, get_items, str_items, cpy}
use netrec.Yaml.Parts.{load_bridge, load_uplink, load_routes, required, mode_of, static_only}
use netrec.Yaml.Load.{blank_state, yaml_load_desired_set, state_items, load_state, load_scenario}
use netrec.Cfg.Node.{obj_find, find_child, child_add, put_child}
use netrec.Cfg.Set.{cfg_set_str, set_walk, enter_key, set_last, set_str_plain, set_arr_append}
use netrec.Cfg.Path.{
  path_file_ok, toks_file_ok, parse_path, parse_key_tok, is_key_start, is_alpha, key_loop,
  is_key_char, path_loop, next_tok, parse_index_tok,
}
use netrec.Cfg.File.{cfg_load, lines, load_lines, load_line, assign}
use netrec.Cfg.Value.{
  trim, ltrim, rtrim, is_eol, trim_eol, rest_ok, parse_value, value_of, unquote, unescape, cut_hash,
  quote, quote_loop, quote_byte,
}
use netrec.Prelude.{
  none, eio, if◌then◌else◌, ℕ, ◌≡◌, refl, arith, Option, some, [], ◌∷◌, Bytes, codes, streq, ret,
  decimal, digits_onto, is_blank, any_of, split_first, ◌>>=◌,
}
use netrec.Prelude.Libc.{is_digit}
use netrec.State.{DesiredState, addr_static, addr_dhcp}
use netrec.Uci.Words.{
  uci_cpy, closed_quote, strip_quotes, span_word, next_word, word_calls, has_token, value_has_token,
  behind,
}
use netrec.Uci.Db.{
  db_add, add_parts, add_line, db_load_line, db_load_lines, db_load_file, buf_lines, db_load_buf,
  run_capture, bin_of, db_load_live, db_get, binds_device, device_loop, find_iface_by_device,
  no_pipe,
}
use netrec.Uci.Ports.{
  is_known_port, add_bridge_port, wireless_port, wireless_loop, add_wireless_ports, port_loop,
  skip_word, add_device_ports, first_device_port,
}
use netrec.Uci.Proto.{
  ntohl, no_gap, ones, mask_to_prefix, ip_loop, split_ip_list, fill_static, fill_bridge_proto,
  peer_iface, peer_loop, wg_sects, only_sect, find_wg_for_remote,
}
use netrec.Uci.Build.{
  add_state, fill_uplink_bridge, build_uplink_bridge, vxlan_of, fill_wg_vxlan_bridge,
  build_wg_vxlan_bridge, build_bridge, is_bridge, build_loop, uci_build_desired_set,
}
use netrec.Uci.Load.{db_load, build_from, uci2yml, uci_load_desired_set, UciHost}
use netrec.Uci.EndToEnd.{uci_load_desired_set-build_from}
use netrec.Uci.Reload.{IsBuilt, with_static, with_vxlan, yaml_load_desired_set-cfg_set}
use netrec.Uci.RoundTrip.{HaveOwnIds}
use netrec.Uci.Dump.{
  cfg_set, cfg_set_from, cfg_state, state_fields, bridge_fields, mode_fields, if_text, each_field,
  vlan_fields, wg_fields, vxlan_fields, route_fields, put_fields, put_field, cfg_path, cfg_line_str,
  cfg_line_u32, cfg_state_id, id_first, id_loop, id_byte, is_id_start, is_id_char,
}

-- 255.255.255.0, as it lies in memory.
abbrev mask_pton : Bytes → Option ℕ
mask_pton s = some 0x00ffffff

-- Two bridges, and the configuration that they are written as.
abbrev lan_state : DesiredState
lan_state = record (blank_state (codes "uplink_bridge")) {
  br_name = codes "br-lan";
  br_addr_mode = addr_static;
  br_addr = codes "10.0.0.1/24";
  br_gateway = codes "10.0.0.254";
  br_dns = codes "1.1.1.1" ∷ [];
  br_ports = codes "lan1" ∷ codes "lan2" ∷ [];
  up_ifname = codes "eth0";
}

abbrev wg_state : DesiredState
wg_state = record (blank_state (codes "wg_vxlan_bridge")) {
  br_name = codes "br-vx";
  br_ports = codes "lan3" ∷ [];
  wg_ifname = codes "wg0";
  wg_peer_ip = codes "10.9.0.2";
  wg_route_dev = codes "wg0";
  vx_ifname = codes "vx0";
  vx_vni = 1042;
  vx_remote = codes "10.9.0.2";
  vx_bridge = codes "br-vx";
}

abbrev two_bridges : Bytes
two_bridges =
    codes
      "state.br_lan.scenario = \"uplink_bridge\"\nstate.br_lan.bridge.name = \"br-lan\"\nstate.br_lan.bridge.addr_mode = \"static\"\nstate.br_lan.bridge.addr = \"10.0.0.1/24\"\nstate.br_lan.bridge.gateway = \"10.0.0.254\"\nstate.br_lan.bridge.dns[] = \"1.1.1.1\"\nstate.br_lan.bridge.ports[] = \"lan1\"\nstate.br_lan.bridge.ports[] = \"lan2\"\nstate.br_lan.uplink.ifname = \"eth0\"\nstate.br_vx.scenario = \"wg_vxlan_bridge\"\nstate.br_vx.bridge.name = \"br-vx\"\nstate.br_vx.bridge.addr_mode = \"none\"\nstate.br_vx.bridge.ports[] = \"lan3\"\nstate.br_vx.wg.ifname = \"wg0\"\nstate.br_vx.wg.peer_ip = \"10.9.0.2\"\nstate.br_vx.wg.route_dev = \"wg0\"\nstate.br_vx.vxlan.ifname = \"vx0\"\nstate.br_vx.vxlan.vni = \"1042\"\nstate.br_vx.vxlan.remote = \"10.9.0.2\"\nstate.br_vx.vxlan.bridge = \"br-vx\"\n"

lan_state-IsBuilt : IsBuilt lan_state
unfolding codes
lan_state-IsBuilt =
    with_static b'b' b'e' b'1' (codes "r-lan") (codes "th0") (codes "0.0.0.1/24")
      (codes "10.0.0.254") (codes "1.1.1.1" ∷ []) (codes "lan1" ∷ codes "lan2" ∷ []) (omega arith)
      (omega arith) (omega arith) (omega arith) (omega arith, tt) (omega arith)
      (omega arith, (omega arith, tt)) (omega arith)

wg_state-IsBuilt : IsBuilt wg_state
unfolding codes
wg_state-IsBuilt =
    with_vxlan b'b' b'w' b'v' (codes "r-vx") (codes "g0") (codes "x0") (codes "10.9.0.2")
      (codes "wg0") (codes "10.9.0.2") 1042 (codes "lan3" ∷ []) (omega arith) (omega arith)
      (omega arith) (omega arith) (omega arith) (omega arith) (omega arith) (omega arith, tt)
      (omega arith)

two_bridges_written : cfg_set (lan_state ∷ wg_state ∷ []) ≡ ret two_bridges
unfolding codes cfg_set cfg_set_from cfg_state state_fields bridge_fields mode_fields if_text
    each_field vlan_fields wg_fields vxlan_fields route_fields put_fields put_field cfg_path
    cfg_line_str cfg_line_u32 decimal digits_onto quote quote_loop quote_byte cfg_state_id id_loop
    id_first id_byte is_id_start is_id_char is_alpha is_digit
two_bridges_written = refl

bridges_own_ids : HaveOwnIds 0 (lan_state ∷ wg_state ∷ [])
unfolding codes cfg_state_id id_loop id_first id_byte is_id_start is_id_char is_alpha is_digit
bridges_own_ids = (((λ e. cc e), tt), (tt, tt))

yaml_load_desired_set-cfg_set_example :
    yaml_load_desired_set two_bridges ≡ ret (lan_state ∷ wg_state ∷ [])
yaml_load_desired_set-cfg_set_example =
    yaml_load_desired_set-cfg_set lan_state (wg_state ∷ []) two_bridges
      (lan_state-IsBuilt, (wg_state-IsBuilt, tt)) (omega arith) bridges_own_ids two_bridges_written

-- A host with one static bridge: its files, and a parser that knows its netmask.
abbrev network_file : Bytes
network_file =
    codes
      "network.br='device'\nnetwork.br.name='br-lan'\nnetwork.br.type='bridge'\nnetwork.br.ports='eth0 lan1'\nnetwork.lan='interface'\nnetwork.lan.device='br-lan'\nnetwork.lan.proto='static'\nnetwork.lan.ipaddr='10.0.0.1'\nnetwork.lan.netmask='255.255.255.0'\nnetwork.lan.gateway='10.0.0.254'\nnetwork.lan.dns='1.1.1.1'\n"

abbrev wireless_file : Bytes
wireless_file =
    codes "wireless.r0='wifi-iface'\nwireless.r0.network='lan'\nwireless.r0.ifname='wlan0'\n"

abbrev one_bridge_host : UciHost
one_bridge_host = record {
  inet_pton = mask_pton;
  read_file = λ path. if streq path (codes "network") then ret network_file else ret wireless_file;
  capture = λ argv. no_pipe eio;
  mkstemp = ret tt;
}

abbrev one_bridge : DesiredState
one_bridge = record (blank_state (codes "uplink_bridge")) {
  br_name = codes "br-lan";
  br_addr_mode = addr_static;
  br_addr = codes "10.0.0.1/24";
  br_gateway = codes "10.0.0.254";
  br_dns = codes "1.1.1.1" ∷ [];
  br_ports = codes "lan1" ∷ codes "wlan0" ∷ [];
  up_ifname = codes "eth0";
}

one_bridge_built :
    build_from one_bridge_host none (some (codes "network")) (some (codes "wireless"))
    ≡ ret (one_bridge ∷ [])
unfolding codes streq split_first is_blank any_of ltrim decimal digits_onto lines uci_cpy
    closed_quote strip_quotes span_word next_word word_calls has_token value_has_token behind db_add
    add_parts add_line db_load_line db_load_lines db_load_file buf_lines db_load_buf run_capture
    bin_of db_load_live db_get binds_device device_loop find_iface_by_device is_known_port
    add_bridge_port wireless_port wireless_loop add_wireless_ports port_loop skip_word
    add_device_ports first_device_port ntohl no_gap ones mask_to_prefix ip_loop split_ip_list
    fill_static fill_bridge_proto peer_iface peer_loop wg_sects only_sect find_wg_for_remote
    add_state fill_uplink_bridge build_uplink_bridge vxlan_of fill_wg_vxlan_bridge
    build_wg_vxlan_bridge build_bridge is_bridge build_loop uci_build_desired_set db_load build_from
    uci2yml uci_load_desired_set
one_bridge_built = refl

uci_load_desired_set-build_from_example :
    uci_load_desired_set one_bridge_host none (some (codes "network")) (some (codes "wireless"))
    ≡ (cfg_set (one_bridge ∷ []) >>= λ out. ret (one_bridge ∷ []))
uci_load_desired_set-build_from_example =
    uci_load_desired_set-build_from one_bridge_host none (some (codes "network"))
      (some (codes "wireless")) (one_bridge ∷ []) refl one_bridge_built (refl, tt) (tt, tt)

-- Two bridges whose names give one id: one state is loaded for both, with the ports of both.
abbrev dhcp_bridge : Bytes → Bytes → Bytes → DesiredState
dhcp_bridge name up port = record (blank_state (codes "uplink_bridge")) {
  br_name = name;
  br_addr_mode = addr_dhcp;
  br_dhcp_cmd = codes "udhcpc";
  br_ports = port ∷ [];
  up_ifname = up;
}

one_id_for_two :
    (cfg_set (
        dhcp_bridge (codes "br-a") (codes "eth0") (codes "lan1")
        ∷ dhcp_bridge (codes "br_a") (codes "eth1") (codes "lan2")
        ∷ [])
      >>= yaml_load_desired_set)
    ≡ ret (
        record (dhcp_bridge (codes "br_a") (codes "eth1") (codes "lan1")) {
          br_ports = codes "lan1" ∷ codes "lan2" ∷ [];
        }
        ∷ [])
unfolding codes cfg_set cfg_set_from cfg_state state_fields bridge_fields mode_fields if_text
    each_field vlan_fields wg_fields vxlan_fields route_fields put_fields put_field cfg_path
    cfg_line_str cfg_line_u32 decimal digits_onto quote quote_loop quote_byte cfg_state_id id_loop
    id_first id_byte is_id_start is_id_char is_alpha is_digit streq is_blank split_first cfg_load
    lines load_lines load_line assign trim ltrim rtrim is_eol trim_eol rest_ok parse_value value_of
    unquote unescape cut_hash path_file_ok toks_file_ok parse_path parse_key_tok is_key_start
    key_loop is_key_char path_loop next_tok parse_index_tok cfg_set_str set_walk enter_key obj_find
    find_child set_last set_str_plain set_arr_append child_add put_child yaml_load_desired_set
    state_items load_state load_scenario load_bridge load_uplink load_routes required get_str
    get_items str_items mode_of static_only cpy
one_id_for_two = refl
