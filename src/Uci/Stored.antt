-- ===== src/Uci/Stored.antt =====
-- uci.c and yaml.c: the desired state of a bridge with a static address, stored in a tree.
use netrec.Prelude.{
  ℕ, ◌≤◌, ◌<◌, ◌≡◌, refl, ap, Option, some, List, [], ◌∷◌, arith, Bytes, codes, streq, length, All,
  ret, ◌>>=◌,
}
use netrec.Prelude.Libc.{is_digit}
use netrec.State.{DesiredState, addr_static, nr_br_port_max, nr_des_dns4_max, ifnamsiz}
use netrec.Cfg.Path.{is_key_start, is_key_char, is_alpha}
use netrec.Cfg.Node.{Nodes, find_child, obj_find}
use netrec.Cfg.Tree.{IsTree, text, assigns}
use netrec.Yaml.Fields.{get_str, get_items}
use netrec.Yaml.Parts.{load_routes, required, load_bridge, load_uplink, mode_of, static_only}
use netrec.Yaml.Load.{blank_state, load_state, load_scenario}
use netrec.Uci.Dump.{if_text, mode_fields, bridge_fields, state_fields}
use netrec.Uci.Tree.{leaf, object_at, cpy-short, is_key-IsKey}
use netrec.Uci.Lines.{lines_of, tails}
use netrec.Uci.Read.{
  IsShortName, Stored, tail_nodes, tail_nodes-fresh, tail_nodes-IsTree, tail_nodes-lines,
  tail_nodes-Small, tail_nodes-gateway, tail_nodes-dns, tail_nodes-ports, bridge_and_uplink,
  bridge_and_uplink-IsTree, bridge_and_uplink-Small, bridge_and_uplink-lines,
}

-- A bridge with a static address.
module _ (n u b : ℕ) (nm up a g : Bytes) (dns ports : List Bytes) (hn : IsShortName (n ∷ nm))
    (hu : IsShortName (u ∷ up)) (ha : length (b ∷ a) < 32) (hg : IsShortName g)
    (hd : All IsShortName dns) (ld : length dns ≤ nr_des_dns4_max) (hp : All IsShortName ports)
    (lp : length ports ≤ nr_br_port_max) where
  abbrev static_nodes : Nodes
  static_nodes = leaf (codes "name") (n ∷ nm) (
      leaf (codes "addr_mode") (codes "static")
        (leaf (codes "addr") (b ∷ a) (tail_nodes g dns ports)))

  abbrev pub static_state : DesiredState
  static_state = record (blank_state (codes "uplink_bridge")) {
    br_name = n ∷ nm;
    br_addr_mode = addr_static;
    br_addr = b ∷ a;
    br_gateway = g;
    br_dns = dns;
    br_ports = ports;
    up_ifname = u ∷ up;
  }

  static_nodes-IsTree : IsTree static_nodes
  unfolding codes find_child streq is_key_start is_key_char is_alpha is_digit
  static_nodes-IsTree =
      text (is_key-IsKey (codes "name") refl)
        (tail_nodes-fresh g dns ports (codes "name") refl refl refl)
        (text (is_key-IsKey (codes "addr_mode") refl)
          (tail_nodes-fresh g dns ports (codes "addr_mode") refl refl refl)
          (text (is_key-IsKey (codes "addr") refl)
            (tail_nodes-fresh g dns ports (codes "addr") refl refl refl)
            (tail_nodes-IsTree g dns ports)))

  static_lines :
      lines_of (state_fields static_state)
      ≡ tails [] (
          assigns (
            leaf
              (codes "scenario")
              (codes "uplink_bridge")
              (bridge_and_uplink static_nodes (u ∷ up))))
  unfolding codes state_fields bridge_fields mode_fields if_text
  static_lines =
      ap (λ z. (codes "scenario", codes "uplink_bridge") ∷ z)
        (bridge_and_uplink-lines (u ∷ up) static_nodes (bridge_fields static_state) (
          ap
            (λ z.
              (codes "bridge.name", n ∷ nm)
              ∷ (codes "bridge.addr_mode", codes "static")
              ∷ (codes "bridge.addr", b ∷ a)
              ∷ z)
            (tail_nodes-lines g dns ports)))

  load_bridge-static :
      (m : Option Bytes)
      → load_bridge
          (object_at m (
            leaf
              (codes "scenario")
              (codes "uplink_bridge")
              (bridge_and_uplink static_nodes (u ∷ up))))
          (blank_state (codes "uplink_bridge"))
        ≡ ret (record static_state { up_ifname = [] })
  unfolding codes streq load_bridge required get_str get_items obj_find find_child mode_of
      static_only
  load_bridge-static m =
      let o = some (codes "bridge") in
      let none_left = tail_nodes-fresh g dns ports (codes "dhcp_cmd") refl refl refl in
      rw
        (
          load_bridge,
          ◌>>=◌,
          cpy-short ifnamsiz (n ∷ nm) hn,
          cpy-short 32 (b ∷ a) ha,
          cpy-short 16 (codes "static") (omega arith),
          tail_nodes-gateway g dns ports o hg,
          tail_nodes-dns g dns ports o hd ld,
          none_left,
          tail_nodes-ports g dns ports o hp lp,
        )
        refl

  static_reads :
      (m : Option Bytes)
      → load_state (
          object_at m (
            leaf
              (codes "scenario")
              (codes "uplink_bridge")
              (bridge_and_uplink static_nodes (u ∷ up))))
        ≡ ret static_state
  unfolding codes streq load_state load_scenario load_uplink load_routes required get_str obj_find
      find_child
  static_reads m =
      rw
        (
          load_state,
          ◌>>=◌,
          cpy-short 32 (codes "uplink_bridge") (omega arith),
          load_scenario,
          load_bridge-static m,
          cpy-short ifnamsiz (u ∷ up) hu,
        )
        refl

  pub static_Stored : Stored static_state
  unfolding codes
  static_Stored = record {
    first = n;
    others = nm;
    named = refl;
    rest = bridge_and_uplink static_nodes (u ∷ up);
    is_tree =
        bridge_and_uplink-IsTree (codes "uplink_bridge") (codes "name") (n ∷ nm) (u ∷ up)
          (leaf (codes "addr_mode") (codes "static")
            (leaf (codes "addr") (b ∷ a) (tail_nodes g dns ports)))
          static_nodes-IsTree;
    lines = static_lines;
    small =
        bridge_and_uplink-Small (codes "uplink_bridge") (u ∷ up) static_nodes (omega arith)
          (
            (omega arith, omega (arith, hn)),
            (
              (omega arith, omega arith),
              ((omega arith, omega (arith, ha)), tail_nodes-Small g dns ports hd hp hg),
            ),
          )
          (omega (arith, hu));
    reads = static_reads;
  }
