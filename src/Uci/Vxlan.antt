-- ===== src/Uci/Vxlan.antt =====
-- uci.c and yaml.c: the desired state of a VXLAN over WireGuard in a bridge, stored in a tree.
use netrec.Prelude.{
  ℕ, ◌^◌, inl, inr, Bool-cases, ltb, streq_refl, digits_onto, ◌-◌, ◌≤◌, ◌<◌, ◌≡◌, refl, sym, ◌∙◌,
  ap, subst, false, Option, some, List, [], ◌∷◌, ◌++◌, arith, Bytes, codes, streq, is_empty, length,
  All, All-append, ret, ◌>>=◌, decimal,
}
use netrec.Prelude.Libc.{is_digit}
use netrec.State.{DesiredState, nr_br_port_max, ifnamsiz, inet_addrstrlen}
use netrec.Cfg.Path.{is_key_start, is_key_char, is_alpha}
use netrec.Cfg.Node.{Nodes, nil, find_child, obj_find}
use netrec.Cfg.Tree.{IsTree, empty, text, object, assigns}
use netrec.Yaml.Fields.{get_str, get_items, get_u32, parse_u32_str}
use netrec.Yaml.Parts.{load_routes, required, load_bridge, load_wg_vxlan, mode_of, static_only}
use netrec.Yaml.Load.{blank_state, load_state, load_scenario, uplink_if_any}
use netrec.Uci.Dump.{
  if_text, each_field, mode_fields, bridge_fields, vlan_fields, wg_fields, vxlan_fields,
  route_fields, state_fields,
}
use netrec.Uci.Tree.{leaf, branch, object_at, cpy-short, is_key-IsKey}
use netrec.Uci.Lines.{lines_of, tails, lines_of-append, tails-under_key, tails-append}
use netrec.Cfg.File.{child_path}
use netrec.Cfg.Assigns.{under_key}
use netrec.Prelude.Decimal.{strtoul-decimal, decimal-is_empty, length-decimal}
use netrec.Prelude.Libc.{
  strtoul, unsigned_value, take_sign, finish, is_space, auto_base, digit_value, read_digits,
}
use netrec.Uci.Read.{
  IsShortName, Small, Stored, tail_nodes, tail_nodes-fresh, tail_nodes-IsTree, tail_nodes-lines,
  tail_nodes-Small, tail_nodes-gateway, tail_nodes-dns, tail_nodes-ports, under_key-Small,
}

parse_u32_str-read :
    (s : Bytes) (n : ℕ)
    → is_empty s ≡ false
    → strtoul s ≡ record { negative = false; magnitude = n; overflow = false; rest = [] }
    → n < 2 ^ 32
    → parse_u32_str s ≡ ret n
unfolding parse_u32_str unsigned_value
parse_u32_str-read [] n e h l = cc e
parse_u32_str-read (c ∷ cs) n e h l =
    let fits : ltb (2 ^ 32 - 1) n ≡ false = ground arith in rw (h, fits) refl

zero_read :
    strtoul (decimal 0) ≡ record { negative = false; magnitude = 0; overflow = false; rest = [] }
unfolding decimal digits_onto strtoul take_sign finish is_space auto_base digit_value is_digit
    read_digits
zero_read = refl

parse_u32_str-decimal : (n : ℕ) → n < 2 ^ 32 → parse_u32_str (decimal n) ≡ ret n
unfolding decimal digits_onto
parse_u32_str-decimal n h = elim (Bool-cases (ltb 0 n)) [
  | inl y ↦
      let some_digit : 1 ≤ n = ground arith in
      parse_u32_str-read (decimal n) n (decimal-is_empty n some_digit h)
        (strtoul-decimal n some_digit h) h
  | inr b ↦
      let same : 0 ≡ n = ground arith in
      subst (λ z. parse_u32_str (decimal z) ≡ ret z) same
        (parse_u32_str-read (decimal 0) 0 refl zero_read (omega arith))
]

-- A bridge without an address, with a VXLAN over WireGuard.
module _ (n w x : ℕ) (nm wg vx peer dev remote : Bytes) (vni : ℕ) (ports : List Bytes)
    (hn : IsShortName (n ∷ nm)) (hw : IsShortName (w ∷ wg)) (hx : IsShortName (x ∷ vx))
    (hpeer : IsShortName peer) (hdev : IsShortName dev) (hremote : IsShortName remote)
    (hvni : vni < 2 ^ 32) (hp : All IsShortName ports) (lp : length ports ≤ nr_br_port_max) where
  abbrev none_rest : Nodes
  none_rest = leaf (codes "addr_mode") (codes "none") (tail_nodes [] [] ports)

  abbrev none_nodes : Nodes
  none_nodes = leaf (codes "name") (n ∷ nm) none_rest

  abbrev wg_nodes : Nodes
  wg_nodes =
      leaf (codes "ifname") (w ∷ wg)
        (leaf (codes "peer_ip") peer (leaf (codes "route_dev") dev nil))

  abbrev vxlan_nodes : Nodes
  vxlan_nodes = leaf (codes "ifname") (x ∷ vx) (
      leaf (codes "vni") (decimal vni)
        (leaf (codes "remote") remote (leaf (codes "bridge") (n ∷ nm) nil)))

  abbrev vxlan_rest : Nodes
  vxlan_rest =
      branch (codes "bridge") none_nodes
        (branch (codes "wg") wg_nodes (branch (codes "vxlan") vxlan_nodes nil))

  abbrev pub vxlan_state : DesiredState
  vxlan_state = record (blank_state (codes "wg_vxlan_bridge")) {
    br_name = n ∷ nm;
    br_ports = ports;
    wg_ifname = w ∷ wg;
    wg_peer_ip = peer;
    wg_route_dev = dev;
    vx_ifname = x ∷ vx;
    vx_vni = vni;
    vx_remote = remote;
    vx_bridge = n ∷ nm;
  }

  none_nodes-IsTree : IsTree none_nodes
  unfolding codes find_child streq is_key_start is_key_char is_alpha is_digit
  none_nodes-IsTree =
      text (is_key-IsKey (codes "name") refl)
        (tail_nodes-fresh [] [] ports (codes "name") refl refl refl)
        (text (is_key-IsKey (codes "addr_mode") refl)
          (tail_nodes-fresh [] [] ports (codes "addr_mode") refl refl refl)
          (tail_nodes-IsTree [] [] ports))

  wg_nodes-IsTree : IsTree wg_nodes
  unfolding codes find_child streq is_key_start is_key_char is_alpha is_digit
  wg_nodes-IsTree = text (is_key-IsKey (codes "ifname") refl) refl (
      text (is_key-IsKey (codes "peer_ip") refl) refl
        (text (is_key-IsKey (codes "route_dev") refl) refl empty))

  vxlan_nodes-IsTree : IsTree vxlan_nodes
  unfolding codes find_child streq is_key_start is_key_char is_alpha is_digit
  vxlan_nodes-IsTree = text (is_key-IsKey (codes "ifname") refl) refl (
      text (is_key-IsKey (codes "vni") refl) refl (
        text (is_key-IsKey (codes "remote") refl) refl
          (text (is_key-IsKey (codes "bridge") refl) refl empty)))

  vxlan_rest-IsTree : IsTree (leaf (codes "scenario") (codes "wg_vxlan_bridge") vxlan_rest)
  unfolding codes find_child streq is_key_start is_key_char is_alpha is_digit
  vxlan_rest-IsTree = text (is_key-IsKey (codes "scenario") refl) refl (
      object (is_key-IsKey (codes "bridge") refl) refl none_nodes-IsTree (
        object (is_key-IsKey (codes "wg") refl) refl wg_nodes-IsTree
          (object (is_key-IsKey (codes "vxlan") refl) refl vxlan_nodes-IsTree empty)))

  none_lines : lines_of (bridge_fields vxlan_state) ≡ tails (codes "bridge") (assigns none_nodes)
  unfolding codes bridge_fields mode_fields if_text each_field
  none_lines =
      ap (λ z. (codes "bridge.name", n ∷ nm) ∷ (codes "bridge.addr_mode", codes "none") ∷ z)
        (tail_nodes-lines [] [] ports)

  vxlan_lines :
      lines_of (state_fields vxlan_state)
      ≡ tails [] (assigns (leaf (codes "scenario") (codes "wg_vxlan_bridge") vxlan_rest))
  unfolding codes state_fields if_text vlan_fields wg_fields vxlan_fields route_fields is_key_start
      is_key_char is_alpha is_digit child_path
  vxlan_lines =
      let more = wg_fields vxlan_state ++ vxlan_fields vxlan_state in
      ap (λ z. (codes "scenario", codes "wg_vxlan_bridge") ∷ z)
        (lines_of-append (bridge_fields vxlan_state) more
          ∙ ap (λ z. z ++ lines_of more) none_lines
          ∙ ap (λ z. z ++ lines_of more)
              (sym (
                tails-under_key [] (codes "bridge") (assigns none_nodes)
                  (is_key-IsKey (codes "bridge") refl)))
          ∙ sym (tails-append [] (under_key (codes "bridge") (assigns none_nodes)) _))

  vxlan_reads :
      (m : Option Bytes)
      → load_state (object_at m (leaf (codes "scenario") (codes "wg_vxlan_bridge") vxlan_rest))
        ≡ ret vxlan_state
  unfolding codes streq load_state load_scenario load_bridge load_wg_vxlan uplink_if_any load_routes
      required get_str get_items get_u32 obj_find find_child mode_of static_only
  vxlan_reads m =
      let o = some (codes "bridge") in
      rw
        (
          load_state,
          ◌>>=◌,
          cpy-short 32 (codes "wg_vxlan_bridge") (omega arith),
          load_scenario,
          load_bridge,
          cpy-short ifnamsiz (n ∷ nm) hn,
          cpy-short 16 (codes "none") (omega arith),
          tail_nodes-fresh [] [] ports (codes "addr") refl refl refl,
          tail_nodes-fresh [] [] ports (codes "dhcp_cmd") refl refl refl,
          tail_nodes-gateway [] [] ports o (omega arith),
          tail_nodes-dns [] [] ports o tt (omega arith),
          tail_nodes-ports [] [] ports o hp lp,
          parse_u32_str-decimal vni hvni,
          streq_refl (n ∷ nm),
          cpy-short ifnamsiz (w ∷ wg) hw,
          cpy-short inet_addrstrlen peer hpeer,
          cpy-short ifnamsiz dev hdev,
          cpy-short ifnamsiz (x ∷ vx) hx,
          cpy-short inet_addrstrlen remote hremote,
        )
        refl

  vxlan_Small :
      All (Small 3) (assigns (leaf (codes "scenario") (codes "wg_vxlan_bridge") vxlan_rest))
  unfolding codes
  vxlan_Small = (
    (omega arith, omega arith),
    All-append (Small 3) (under_key (codes "bridge") (assigns none_nodes)) _
        (under_key-Small 2 (codes "bridge") (assigns none_nodes) (
          (omega arith, omega (arith, hn)),
          ((omega arith, omega arith), tail_nodes-Small [] [] ports tt hp (omega arith)),
        ))
        (
          (omega arith, omega (arith, hw)),
          (
            (omega arith, omega (arith, hpeer)),
            (
              (omega arith, omega (arith, hdev)),
              (
                (omega arith, omega (arith, hx)),
                (
                  (omega arith, omega (arith, length-decimal vni)),
                  ((omega arith, omega (arith, hremote)), ((omega arith, omega (arith, hn)), tt)),
                ),
              ),
            ),
          ),
        ),
  )

  pub vxlan_Stored : Stored vxlan_state
  vxlan_Stored = record {
    first = n;
    others = nm;
    named = refl;
    rest = vxlan_rest;
    is_tree = vxlan_rest-IsTree;
    lines = vxlan_lines;
    small = vxlan_Small;
    reads = vxlan_reads;
  }
