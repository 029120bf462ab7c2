-- ===== src/Uci/StoredDhcp.antt =====
-- uci.c and yaml.c: the desired state of a bridge under DHCP, stored in a tree.
use netrec.Prelude.{
  ℕ, ◌≤◌, ◌<◌, ◌≡◌, refl, ap, Option, some, List, [], ◌∷◌, arith, Bytes, codes, streq, length, All,
  ret, ◌>>=◌,
}
use netrec.Prelude.Libc.{is_digit}
use netrec.State.{DesiredState, addr_dhcp, nr_br_port_max, ifnamsiz}
use netrec.Cfg.Path.{is_key_start, is_key_char, is_alpha}
use netrec.Cfg.Node.{Nodes, find_child, obj_find}
use netrec.Cfg.Tree.{IsTree, text, assigns}
use netrec.Yaml.Fields.{get_str, get_items}
use netrec.Yaml.Parts.{load_routes, required, load_bridge, load_uplink, mode_of, static_only}
use netrec.Yaml.Load.{blank_state, load_state, load_scenario}
use netrec.Uci.Dump.{if_text, each_field, mode_fields, bridge_fields, state_fields}
use netrec.Uci.Tree.{leaf, object_at, cpy-short, is_key-IsKey}
use netrec.Uci.Lines.{lines_of, tails}
use netrec.Uci.Read.{
  IsShortName, Stored, tail_nodes, tail_nodes-fresh, tail_nodes-IsTree, tail_nodes-lines,
  tail_nodes-Small, tail_nodes-gateway, tail_nodes-dns, tail_nodes-ports, bridge_and_uplink,
  bridge_and_uplink-IsTree, bridge_and_uplink-Small, bridge_and_uplink-lines,
}

-- A bridge under DHCP.
module _ (n u b : ℕ) (nm up a : Bytes) (ports : List Bytes) (hn : IsShortName (n ∷ nm))
    (hu : IsShortName (u ∷ up)) (ha : length (b ∷ a) < 128) (hp : All IsShortName ports)
    (lp : length ports ≤ nr_br_port_max) where
  abbrev dhcp_rest : Nodes
  dhcp_rest =
      leaf (codes "addr_mode") (codes "dhcp")
        (leaf (codes "dhcp_cmd") (b ∷ a) (tail_nodes [] [] ports))

  abbrev dhcp_nodes : Nodes
  dhcp_nodes = leaf (codes "name") (n ∷ nm) dhcp_rest

  abbrev pub dhcp_state : DesiredState
  dhcp_state = record (blank_state (codes "uplink_bridge")) {
    br_name = n ∷ nm;
    br_addr_mode = addr_dhcp;
    br_dhcp_cmd = b ∷ a;
    br_ports = ports;
    up_ifname = u ∷ up;
  }

  dhcp_nodes-IsTree : IsTree dhcp_nodes
  unfolding codes find_child streq is_key_start is_key_char is_alpha is_digit
  dhcp_nodes-IsTree =
      text (is_key-IsKey (codes "name") refl)
        (tail_nodes-fresh [] [] ports (codes "name") refl refl refl)
        (text (is_key-IsKey (codes "addr_mode") refl)
          (tail_nodes-fresh [] [] ports (codes "addr_mode") refl refl refl)
          (text (is_key-IsKey (codes "dhcp_cmd") refl)
            (tail_nodes-fresh [] [] ports (codes "dhcp_cmd") refl refl refl)
            (tail_nodes-IsTree [] [] ports)))

  dhcp_lines :
      lines_of (state_fields dhcp_state)
      ≡ tails [] (
          assigns (
            leaf
              (codes "scenario")
              (codes "uplink_bridge")
              (bridge_and_uplink dhcp_nodes (u ∷ up))))
  unfolding codes state_fields bridge_fields mode_fields if_text each_field
  dhcp_lines =
      ap (λ z. (codes "scenario", codes "uplink_bridge") ∷ z)
        (bridge_and_uplink-lines (u ∷ up) dhcp_nodes (bridge_fields dhcp_state) (
          ap
            (λ z.
              (codes "bridge.name", n ∷ nm)
              ∷ (codes "bridge.addr_mode", codes "dhcp")
              ∷ (codes "bridge.dhcp_cmd", b ∷ a)
              ∷ z)
            (tail_nodes-lines [] [] ports)))

  load_bridge-dhcp :
      (m : Option Bytes)
      → load_bridge
          (object_at m (
            leaf
              (codes "scenario")
              (codes "uplink_bridge")
              (bridge_and_uplink dhcp_nodes (u ∷ up))))
          (blank_state (codes "uplink_bridge"))
        ≡ ret (record dhcp_state { up_ifname = [] })
  unfolding codes streq load_bridge required get_str get_items obj_find find_child mode_of
      static_only
  load_bridge-dhcp m =
      let o = some (codes "bridge") in
      rw
        (
          load_bridge,
          ◌>>=◌,
          cpy-short ifnamsiz (n ∷ nm) hn,
          cpy-short 128 (b ∷ a) ha,
          cpy-short 16 (codes "dhcp") (omega arith),
          tail_nodes-fresh [] [] ports (codes "addr") refl refl refl,
          tail_nodes-gateway [] [] ports o (omega arith),
          tail_nodes-dns [] [] ports o tt (omega arith),
          tail_nodes-ports [] [] ports o hp lp,
        )
        refl

  dhcp_reads :
      (m : Option Bytes)
      → load_state (
          object_at m (
            leaf
              (codes "scenario")
              (codes "uplink_bridge")
              (bridge_and_uplink dhcp_nodes (u ∷ up))))
        ≡ ret dhcp_state
  unfolding codes streq load_state load_scenario load_uplink load_routes required get_str obj_find
      find_child
  dhcp_reads m =
      rw
        (
          load_state,
          ◌>>=◌,
          cpy-short 32 (codes "uplink_bridge") (omega arith),
          load_scenario,
          load_bridge-dhcp m,
          cpy-short ifnamsiz (u ∷ up) hu,
        )
        refl

  pub dhcp_Stored : Stored dhcp_state
  unfolding codes
  dhcp_Stored = record {
    first = n;
    others = nm;
    named = refl;
    rest = bridge_and_uplink dhcp_nodes (u ∷ up);
    is_tree =
        bridge_and_uplink-IsTree (codes "uplink_bridge") (codes "name") (n ∷ nm) (u ∷ up) dhcp_rest
          dhcp_nodes-IsTree;
    lines = dhcp_lines;
    small =
        bridge_and_uplink-Small (codes "uplink_bridge") (u ∷ up) dhcp_nodes (omega arith)
          (
            (omega arith, omega (arith, hn)),
            (
              (omega arith, omega arith),
              ((omega arith, omega (arith, ha)), tail_nodes-Small [] [] ports tt hp (omega arith)),
            ),
          )
          (omega (arith, hu));
    reads = dhcp_reads;
  }
