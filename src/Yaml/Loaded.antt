-- ===== src/Yaml/Loaded.antt =====
-- yaml.c: what holds of a desired state that was loaded.
use netrec.Prelude.{List}
use netrec.Prelude.{
  ◌≡◌, refl, subst, inl, inr, Bool-cases, Option-cases, Bool, true, false, not, ◌&&◌, arith, Bytes,
  codes, streq, is_empty, Result, Result-cases, ret, ◌>>=◌,
}
use netrec.State.{DesiredState, AddrMode, addr_none, addr_static, addr_dhcp}
use netrec.Cfg.Node.{Node, obj_find}
use netrec.State.{ifnamsiz}
use netrec.Prelude.{Holds, Holds-ret, Holds-skip, Holds-keeps}
use netrec.Yaml.Keeps.{load_scenario-Holds}
use netrec.Yaml.Fields.{get_str}
use netrec.Yaml.Parts.{
  load_routes, mode_of, static_only, guard, required, load_bridge, load_uplink, load_vlan,
  load_wg_vxlan,
}
use netrec.Yaml.Load.{blank_state, uplink_if_any, load_scenario, load_state}

-- The mode fits the address and the DHCP command, and only a static bridge has a gateway or servers.
abbrev pub mode_fits : AddrMode → Bytes → Bytes → Bool
mode_fits addr_static addr dhcp_cmd = not (is_empty addr)
mode_fits addr_dhcp addr dhcp_cmd = is_empty addr && not (is_empty dhcp_cmd)
mode_fits addr_none addr dhcp_cmd = is_empty addr

abbrev pub IsFit : DesiredState → Type 0
IsFit ds =
    (mode_fits ds.br_addr_mode ds.br_addr ds.br_dhcp_cmd ≡ true)
    × (static_only ds.br_addr_mode ds.br_gateway ds.br_dns ≡ true)

keep_mode :
    (addr dhcp_cmd : Bytes) (a b : AddrMode)
    → a ≡ b
    → mode_fits a addr dhcp_cmd ≡ true
    → mode_fits b addr dhcp_cmd ≡ true
keep_mode addr dhcp_cmd a b same f = subst (λ z. mode_fits z addr dhcp_cmd ≡ true) same f

mode_of-fits :
    (mode addr dhcp_cmd : Bytes) (m : AddrMode)
    → mode_of mode addr dhcp_cmd ≡ ret m
    → mode_fits m addr dhcp_cmd ≡ true
unfolding mode_of
mode_of-fits mode addr dhcp_cmd m h = elim (Bool-cases (is_empty mode)) [
  | inl y ↦ elim (Bool-cases (is_empty addr)) [
    | inl a ↦ keep_mode addr dhcp_cmd addr_none m (cc (rw (y, a) at h)) a
    | inr a ↦ keep_mode addr dhcp_cmd addr_static m (cc (rw (y, a) at h)) (rw a)
  ]
  | inr y ↦ elim (Bool-cases (streq mode (codes "static"))) [
    | inl t ↦ elim (Bool-cases (is_empty addr)) [
      | inl a ↦ cc (rw (y, t, a) at h)
      | inr a ↦ keep_mode addr dhcp_cmd addr_static m (cc (rw (y, t, a) at h)) (rw a)
    ]
    | inr t ↦ elim (Bool-cases (streq mode (codes "dhcp"))) [
      | inl d ↦ elim (Bool-cases (is_empty addr)) [
        | inr a ↦ cc (rw (y, t, d, a) at h)
        | inl a ↦ elim (Bool-cases (is_empty dhcp_cmd)) [
          | inl e ↦ cc (rw (y, t, d, a, e) at h)
          | inr e ↦ keep_mode addr dhcp_cmd addr_dhcp m (cc (rw (y, t, d, a, e) at h)) (rw (a, e))
        ]
      ]
      | inr d ↦ elim (Bool-cases (streq mode (codes "none"))) [
        | inl n ↦ elim (Bool-cases (is_empty addr)) [
          | inl a ↦ keep_mode addr dhcp_cmd addr_none m (cc (rw (y, t, d, n, a) at h)) a
          | inr a ↦ cc (rw (y, t, d, n, a) at h)
        ]
        | inr n ↦ cc (rw (y, t, d, n) at h)
      ]
    ]
  ]
]

guard-true : (b : Bool) {u : Unit {0}} → guard b ≡ ret u → b ≡ true
guard-true true h = refl
guard-true false h = cc h

-- The end of `load_bridge`, from the mode on.
bridge_mode-IsFit :
    (ds : DesiredState) (name addr gateway mode dhcp_cmd : Bytes) (dns : List Bytes)
    (ports : Result (List Bytes))
    → Holds IsFit (
        mode_of mode addr dhcp_cmd >>= λ m. guard (static_only m gateway dns) >>= λ _.
        ports >>= λ ps. ret (record ds {
          br_name = name;
          br_addr = addr;
          br_gateway = gateway;
          br_dns = dns;
          br_addr_mode = m;
          br_dhcp_cmd = dhcp_cmd;
          br_ports = ps;
        }))
bridge_mode-IsFit ds name addr gateway mode dhcp_cmd dns ports =
    elim (Result-cases (mode_of mode addr dhcp_cmd)) [
      | inl (x, e) ↦ rw e tt
      | inr (m, e) ↦ rw e (elim (Result-cases (guard (static_only m gateway dns))) [
        | inl (x, f) ↦ rw f tt
        | inr (u, f) ↦ rw f (elim (Result-cases ports) [
          | inl (x, g) ↦ rw g tt
          | inr (ps, g) ↦
              rw g (mode_of-fits mode addr dhcp_cmd m e, guard-true (static_only m gateway dns) f)
        ])
      ])
    ]

load_bridge-IsFit : (root : Node) (ds : DesiredState) → Holds IsFit (load_bridge root ds)
unfolding load_bridge
load_bridge-IsFit root ds = search (Holds-skip, bridge_mode-IsFit) depth 20

-- The other parts leave the bridge as it is.
load_uplink-IsFit : (root : Node) (ds : DesiredState) → IsFit ds → Holds IsFit (load_uplink root ds)
unfolding load_uplink
load_uplink-IsFit root ds h = elim (Result-cases (required root (codes "uplink"))) [
  | inl (x, e) ↦ rw e tt
  | inr (up, e) ↦ rw e (elim (Result-cases (get_str up (codes "ifname") ifnamsiz true)) [
    | inl (x, f) ↦ rw f tt
    | inr (name, f) ↦ rw f h
  ])
]

load_routes-IsFit : (root : Node) (ds : DesiredState) → IsFit ds → Holds IsFit (load_routes root ds)
unfolding load_routes
load_routes-IsFit root ds h = ground arith

load_vlan-IsFit : (root : Node) (ds : DesiredState) → IsFit ds → Holds IsFit (load_vlan root ds)
unfolding load_vlan
load_vlan-IsFit root ds h = ground arith

load_wg_vxlan-IsFit :
    (root : Node) (ds : DesiredState) → IsFit ds → Holds IsFit (load_wg_vxlan root ds)
unfolding load_wg_vxlan
load_wg_vxlan-IsFit root ds h = search (Holds-skip) depth 20

uplink_if_any-IsFit :
    (root : Node) (ds : DesiredState) → IsFit ds → Holds IsFit (uplink_if_any root ds)
unfolding uplink_if_any
uplink_if_any-IsFit root ds h = elim (Option-cases (obj_find root (codes "uplink"))) [
  | inl e ↦ rw (e, uplink_if_any) h
  | inr (n, e) ↦ rw (e, uplink_if_any) (load_uplink-IsFit root ds h)
]

load_scenario-IsFit :
    (root : Node) (ds : DesiredState) → IsFit ds → Holds IsFit (load_scenario root ds)
load_scenario-IsFit root ds h =
    load_scenario-Holds IsFit root (λ d k. load_bridge-IsFit root d) (load_uplink-IsFit root)
      (load_vlan-IsFit root) (uplink_if_any-IsFit root) (load_wg_vxlan-IsFit root) ds h

-- Every desired state that is loaded has a bridge whose mode fits: a static one has an address, one under
-- DHCP has a command and no address, any other has no address; and a gateway or a name server is there
-- for a static one only.
pub load_state-IsFit : (root : Node) (ds : DesiredState) → load_state root ≡ ret ds → IsFit ds
unfolding load_state static_only
load_state-IsFit root ds h =
    let named = get_str root (codes "scenario") 32 true in
    let fit : Holds IsFit (load_state root) =
      Holds-skip IsFit named (λ s. load_scenario root (blank_state s) >>= load_routes root)
        (λ s.
          Holds-keeps IsFit (load_scenario root (blank_state s)) (load_routes root)
            (load_routes-IsFit root) (load_scenario-IsFit root (blank_state s) (refl, refl))) in
    Holds-ret IsFit (load_state root) fit h
