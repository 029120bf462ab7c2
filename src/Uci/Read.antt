-- ===== src/Uci/Read.antt =====
-- uci.c and yaml.c: the tree that a desired state of an OpenWrt configuration is written as, and what
-- `load_state` reads of it.
use netrec.Prelude.{
  ℕ, ◌+◌, ◌≤◌, ◌<◌, ◌≡◌, refl, sym, ◌∙◌, ap, subst, false, Option, none, List, [], ◌∷◌, ◌++◌,
  append_assoc, append-nil, arith, Bytes, codes, streq, length, All, All-append, ret,
}
use netrec.State.{DesiredState, nr_br_port_max, nr_des_dns4_max, ifnamsiz, inet_addrstrlen}
use netrec.Prelude.Libc.{is_digit}
use netrec.Cfg.Path.{is_key_start, is_key_char, is_alpha}
use netrec.Cfg.Node.{Nodes, nil, find_child, obj_find}
use netrec.Cfg.File.{child_path}
use netrec.Cfg.Assigns.{Assign, under_key}
use netrec.Cfg.Tree.{IsTree, empty, text, object, assigns, item_assigns}
use netrec.Yaml.Fields.{get_str, get_items}
use netrec.Yaml.Load.{load_state}
use netrec.Uci.Dump.{Field, field_str, if_text, each_field, state_fields}
use netrec.Uci.Id.{named_by}
use netrec.Uci.Tree.{
  leaf, leaf_if, items, arr_if, branch, object_at, find_child-leaf_if, find_child-arr_if,
  get_str-leaf_if, get_items-arr_if, leaf_if-IsTree, arr_if-IsTree, is_key-IsKey,
}
use netrec.Uci.Lines.{
  lines_of, tails, tails-append, lines_of-append, tails-under_key, lines_of-leaf_if,
  lines_of-arr_if,
}

-- A name of an interface, or an address.
abbrev pub IsShortName : Bytes → Type 0
IsShortName s = length s < 16

abbrev pub Small : ℕ → Assign → Type 0
Small d a = (length a.0 ≤ d) × (length a.1 < 512)

-- How a desired state is kept in a file: as a tree, with the scenario first.
pub record Stored (ds : DesiredState) : Type 0 where
  pub first : ℕ
  pub others : Bytes
  pub named : named_by ds ≡ first ∷ others
  pub rest : Nodes
  pub is_tree : IsTree (leaf (codes "scenario") ds.scenario rest)
  pub lines :
      lines_of (state_fields ds) ≡ tails [] (assigns (leaf (codes "scenario") ds.scenario rest))
  pub small : All (Small 3) (assigns (leaf (codes "scenario") ds.scenario rest))
  pub reads :
      (m : Option Bytes)
      → load_state (object_at m (leaf (codes "scenario") ds.scenario rest)) ≡ ret ds

pub under_key-Small :
    (d : ℕ) (k : Bytes) (xs : List Assign) → All (Small d) xs → All (Small (d + 1)) (under_key k xs)
under_key-Small d k [] h = tt
under_key-Small d k (a ∷ xs) h = ((omega (arith, h.0.0), h.0.1), under_key-Small d k xs h.1)

pub leaf_if-Small :
    (k v : Bytes) (next : Nodes)
    → length v < 512
    → All (Small 2) (assigns next)
    → All (Small 2) (assigns (leaf_if k v next))
leaf_if-Small k [] next l h = h
leaf_if-Small k (c ∷ v) next l h = ((omega arith, l), h)

items-Small :
    (k : Bytes) (vs : List Bytes)
    → All IsShortName vs
    → All (Small 2) (under_key k (item_assigns (items vs)))
items-Small k [] h = tt
items-Small k (v ∷ vs) h = ((omega arith, omega (arith, h.0)), items-Small k vs h.1)

pub arr_if-Small :
    (k : Bytes) (vs : List Bytes) (next : Nodes)
    → All IsShortName vs
    → All (Small 2) (assigns next)
    → All (Small 2) (assigns (arr_if k vs next))
arr_if-Small k [] next l h = h
arr_if-Small k (v ∷ vs) next l h =
    All-append (Small 2) (under_key k (item_assigns (items (v ∷ vs)))) (assigns next)
      (items-Small k (v ∷ vs) l) h

-- The gateway, the name servers and the ports of a bridge.
abbrev pub tail_nodes : Bytes → List Bytes → List Bytes → Nodes
tail_nodes g dns ports =
    leaf_if (codes "gateway") g (arr_if (codes "dns") dns (arr_if (codes "ports") ports nil))

module _ (g : Bytes) (dns ports : List Bytes) where
  pub tail_nodes-fresh :
      (m : Bytes)
      → streq (codes "gateway") m ≡ false
      → streq (codes "dns") m ≡ false
      → streq (codes "ports") m ≡ false
      → find_child (tail_nodes g dns ports) m ≡ none
  unfolding find_child
  tail_nodes-fresh m x y z =
      find_child-leaf_if (codes "gateway") m x g
        (arr_if (codes "dns") dns (arr_if (codes "ports") ports nil))
      ∙ find_child-arr_if (codes "dns") m y dns (arr_if (codes "ports") ports nil)
      ∙ find_child-arr_if (codes "ports") m z ports nil

  pub tail_nodes-IsTree : IsTree (tail_nodes g dns ports)
  unfolding codes find_child streq is_key_start is_key_char is_alpha is_digit
  tail_nodes-IsTree =
      leaf_if-IsTree (codes "gateway") g (is_key-IsKey (codes "gateway") refl)
        (find_child-arr_if (codes "dns") (codes "gateway") refl dns
            (arr_if (codes "ports") ports nil)
          ∙ find_child-arr_if (codes "ports") (codes "gateway") refl ports nil)
        (arr_if-IsTree (codes "dns") dns (is_key-IsKey (codes "dns") refl)
          (find_child-arr_if (codes "ports") (codes "dns") refl ports nil)
          (arr_if-IsTree (codes "ports") ports (is_key-IsKey (codes "ports") refl) refl empty))

  pub tail_nodes-lines :
      lines_of (
        (if_text (codes "bridge.gateway") g ++ each_field (codes "bridge.dns[]") dns)
        ++ each_field (codes "bridge.ports[]") ports)
      ≡ tails (codes "bridge") (assigns (tail_nodes g dns ports))
  unfolding codes
  tail_nodes-lines =
      let p = codes "bridge" in
      let port_fields = each_field (codes "bridge.ports[]") ports in
      let dns_fields = each_field (codes "bridge.dns[]") dns in
      let ports_part = arr_if (codes "ports") ports nil in
      let h =
        subst (λ z. lines_of z ≡ tails p (assigns ports_part)) (append-nil port_fields)
          (lines_of-arr_if p (codes "ports") (codes "bridge.ports[]") [] nil refl ports refl) in
      ap lines_of (append_assoc (if_text (codes "bridge.gateway") g) dns_fields port_fields)
      ∙ lines_of-leaf_if p (codes "gateway") (codes "bridge.gateway") (dns_fields ++ port_fields)
          (arr_if (codes "dns") dns ports_part)
          (lines_of-arr_if p (codes "dns") (codes "bridge.dns[]") port_fields ports_part h dns refl)
          g refl

  pub tail_nodes-Small :
      All IsShortName dns
      → All IsShortName ports
      → IsShortName g
      → All (Small 2) (assigns (tail_nodes g dns ports))
  tail_nodes-Small hd hp hg =
      leaf_if-Small (codes "gateway") g _ (omega (arith, hg))
        (arr_if-Small (codes "dns") dns _ hd (arr_if-Small (codes "ports") ports nil hp tt))

module _ (g : Bytes) (dns ports : List Bytes) (m : Option Bytes) where
  pub tail_nodes-gateway :
      IsShortName g
      → get_str (object_at m (tail_nodes g dns ports)) (codes "gateway") inet_addrstrlen false
        ≡ ret g
  unfolding codes find_child streq
  tail_nodes-gateway h =
      get_str-leaf_if m (codes "gateway") g
        (arr_if (codes "dns") dns (arr_if (codes "ports") ports nil)) inet_addrstrlen refl
        (find_child-arr_if (codes "dns") (codes "gateway") refl dns
            (arr_if (codes "ports") ports nil)
          ∙ find_child-arr_if (codes "ports") (codes "gateway") refl ports nil)
        h

  pub tail_nodes-dns :
      All IsShortName dns
      → length dns ≤ nr_des_dns4_max
      → get_items inet_addrstrlen
          (object_at m (tail_nodes g dns ports))
          (codes "dns")
          nr_des_dns4_max
        ≡ ret dns
  unfolding codes find_child streq get_items obj_find
  tail_nodes-dns h l =
      let rest = arr_if (codes "dns") dns (arr_if (codes "ports") ports nil) in
      rw (find_child-leaf_if (codes "gateway") (codes "dns") refl g rest, get_items)
        (get_items-arr_if m (codes "dns") dns (arr_if (codes "ports") ports nil) inet_addrstrlen
          nr_des_dns4_max refl (find_child-arr_if (codes "ports") (codes "dns") refl ports nil) h l)

  pub tail_nodes-ports :
      All IsShortName ports
      → length ports ≤ nr_br_port_max
      → get_items ifnamsiz (object_at m (tail_nodes g dns ports)) (codes "ports") nr_br_port_max
        ≡ ret ports
  unfolding codes find_child streq get_items obj_find
  tail_nodes-ports h l =
      let rest = arr_if (codes "dns") dns (arr_if (codes "ports") ports nil) in
      rw
        (
          find_child-leaf_if (codes "gateway") (codes "ports") refl g rest,
          find_child-arr_if (codes "dns") (codes "ports") refl dns
              (arr_if (codes "ports") ports nil),
          get_items,
        )
        (get_items-arr_if m (codes "ports") ports nil ifnamsiz nr_br_port_max refl refl h l)

-- The scenario, a bridge and an uplink.
abbrev pub bridge_and_uplink : Nodes → Bytes → Nodes
bridge_and_uplink br up =
    branch (codes "bridge") br (branch (codes "uplink") (leaf (codes "ifname") up nil) nil)

pub bridge_and_uplink-IsTree :
    (s k v up : Bytes) (next : Nodes)
    → IsTree (leaf k v next)
    → IsTree (leaf (codes "scenario") s (bridge_and_uplink (leaf k v next) up))
unfolding codes find_child streq is_key_start is_key_char is_alpha is_digit
bridge_and_uplink-IsTree s k v up next h = text (is_key-IsKey (codes "scenario") refl) refl (
    object (is_key-IsKey (codes "bridge") refl) refl h (
      object (is_key-IsKey (codes "uplink") refl) refl
        (text (is_key-IsKey (codes "ifname") refl) refl empty) empty))

pub bridge_and_uplink-Small :
    (s up : Bytes) (br : Nodes)
    → length s < 512
    → All (Small 2) (assigns br)
    → length up < 512
    → All (Small 3) (assigns (leaf (codes "scenario") s (bridge_and_uplink br up)))
bridge_and_uplink-Small s up br hs h hu = (
  (omega arith, hs),
  All-append (Small 3) (under_key (codes "bridge") (assigns br)) _
      (under_key-Small 2 (codes "bridge") (assigns br) h) ((omega arith, hu), tt),
)

-- The lines below a bridge and an uplink.
pub bridge_and_uplink-lines :
    (up : Bytes) (br : Nodes) (fs : List Field)
    → lines_of fs ≡ tails (codes "bridge") (assigns br)
    → lines_of (fs ++ field_str (codes "uplink.ifname") up ∷ [])
      ≡ tails [] (assigns (bridge_and_uplink br up))
unfolding codes child_path is_key_start is_key_char is_alpha is_digit
bridge_and_uplink-lines up br fs h =
    let more = field_str (codes "uplink.ifname") up ∷ [] in
    lines_of-append fs more
    ∙ ap (λ z. z ++ lines_of more) h
    ∙ ap (λ z. z ++ lines_of more)
        (sym
          (tails-under_key [] (codes "bridge") (assigns br) (is_key-IsKey (codes "bridge") refl)))
    ∙ sym (tails-append [] (under_key (codes "bridge") (assigns br)) _)
