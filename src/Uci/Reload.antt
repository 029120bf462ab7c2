-- ===== src/Uci/Reload.antt =====
-- uci.c and yaml.c: what `uci_load_desired_set` does with the file between its two halves.
use netrec.Prelude.{
  ℕ, ◌+◌, ◌^◌, ◌≤◌, ◌<◌, ◌≡◌, refl, sym, ◌∙◌, ap, subst, Option, List, [], ◌∷◌, ◌++◌, append-nil,
  arith, Bytes, codes, streq, length, All, ret, ◌>>=◌, >>=-eq-ret,
}
use netrec.Prelude.Libc.{is_digit}
use netrec.State.{
  DesiredState, DesiredSet, addr_static, addr_dhcp, nr_br_port_max, nr_des_dns4_max,
  nr_des_state_max,
}
use netrec.Cfg.Path.{is_key_start, is_key_char, is_alpha}
use netrec.Cfg.Node.{CfgType, Nodes, nil, link, find_child, obj_find}
use netrec.Cfg.File.{child_path, cfg_load}
use netrec.Cfg.Access.{cfg_init}
use netrec.Cfg.Assigns.{Assign, under_key}
use netrec.Cfg.Tree.{empty, object, assigns}
use netrec.Cfg.Replay.{text_of}
use netrec.Cfg.RoundTrip.{IsShort, text_of-under_key, cfg_load-text_of}
use netrec.Yaml.Parts.{required}
use netrec.Yaml.Load.{blank_state, yaml_load_desired_set}
use netrec.Uci.Dump.{cfg_state_id, cfg_state, cfg_set_from, cfg_set, put_fields, state_fields}
use netrec.Uci.Id.{cfg_state_id-IsKey}
use netrec.Uci.Tree.{leaf, branch, is_key-IsKey}
use netrec.Uci.Read.{IsShortName, Stored}
use netrec.Uci.Stored.{static_Stored}
use netrec.Uci.StoredDhcp.{dhcp_Stored}
use netrec.Uci.Vxlan.{vxlan_Stored}
use netrec.Uci.RoundTrip.{
  IsSaved, no_state, a_state, IsFree, HaveOwnIds, IsSaved-IsTree, state_items-IsSaved,
  find_child-IsFree, cfg_set_from-text, FitsAt, under_key-FitsAt, IsSaved-FitsAt,
}

-- The desired states that `build_uplink_bridge` and `build_wg_vxlan_bridge` fill in: an uplink bridge with
-- a static address or under DHCP, or a bridge with a VXLAN over WireGuard, with texts that fit their arrays
-- and are not empty where they have to be there.
pub data IsBuilt : DesiredState → Type 0 where
  with_static :
      (n u b : ℕ) (nm up a g : Bytes) (dns ports : List Bytes)
      → IsShortName (n ∷ nm)
      → IsShortName (u ∷ up)
      → length (b ∷ a) < 32
      → IsShortName g
      → All IsShortName dns
      → length dns ≤ nr_des_dns4_max
      → All IsShortName ports
      → length ports ≤ nr_br_port_max
      → IsBuilt (record (blank_state (codes "uplink_bridge")) {
        br_name = n ∷ nm;
        br_addr_mode = addr_static;
        br_addr = b ∷ a;
        br_gateway = g;
        br_dns = dns;
        br_ports = ports;
        up_ifname = u ∷ up;
      })
  with_dhcp :
      (n u b : ℕ) (nm up a : Bytes) (ports : List Bytes)
      → IsShortName (n ∷ nm)
      → IsShortName (u ∷ up)
      → length (b ∷ a) < 128
      → All IsShortName ports
      → length ports ≤ nr_br_port_max
      → IsBuilt (record (blank_state (codes "uplink_bridge")) {
        br_name = n ∷ nm;
        br_addr_mode = addr_dhcp;
        br_dhcp_cmd = b ∷ a;
        br_ports = ports;
        up_ifname = u ∷ up;
      })
  with_vxlan :
      (n w x : ℕ) (nm wg vx peer dev remote : Bytes) (vni : ℕ) (ports : List Bytes)
      → IsShortName (n ∷ nm)
      → IsShortName (w ∷ wg)
      → IsShortName (x ∷ vx)
      → IsShortName peer
      → IsShortName dev
      → IsShortName remote
      → vni < 2 ^ 32
      → All IsShortName ports
      → length ports ≤ nr_br_port_max
      → IsBuilt (record (blank_state (codes "wg_vxlan_bridge")) {
        br_name = n ∷ nm;
        br_ports = ports;
        wg_ifname = w ∷ wg;
        wg_peer_ip = peer;
        wg_route_dev = dev;
        vx_ifname = x ∷ vx;
        vx_vni = vni;
        vx_remote = remote;
        vx_bridge = n ∷ nm;
      })

IsBuilt-Stored : {ds : DesiredState} → IsBuilt ds → Stored ds
IsBuilt-Stored (with_static n u b nm up a g dns ports hn hu ha hg hd ld hp lp) =
    static_Stored n u b nm up a g dns ports hn hu ha hg hd ld hp lp
IsBuilt-Stored (with_dhcp n u b nm up a ports hn hu ha hp lp) =
    dhcp_Stored n u b nm up a ports hn hu ha hp lp
IsBuilt-Stored
      (with_vxlan n w x nm wg vx peer dev remote vni ports hn hw hx hpeer hdev hremote hvni hp lp) =
    vxlan_Stored n w x nm wg vx peer dev remote vni ports hn hw hx hpeer hdev hremote hvni hp lp

cfg_set_from-IsSaved :
    (idx : ℕ) (set : DesiredSet) (out : Bytes)
    → All IsBuilt set
    → HaveOwnIds idx set
    → cfg_set_from idx set ≡ ret out
    → (ns : Nodes) × IsSaved idx set ns
unfolding cfg_set_from cfg_state
cfg_set_from-IsSaved idx [] out h o e = (nil, no_state)
cfg_set_from-IsSaved idx (ds ∷ set) out h o e =
    let (text, a, b) =
      >>=-eq-ret {B = Bytes} (cfg_state ds idx)
        (λ text. cfg_set_from (idx + 1) set >>= λ rest. ret (text ++ rest)) e in
    let (rest, c, d) =
      >>=-eq-ret {B = Bytes} (cfg_set_from (idx + 1) set) (λ rest. ret (text ++ rest)) b in
    let (id, f, g) =
      >>=-eq-ret {B = Bytes} (cfg_state_id ds idx) (λ id. put_fields id (state_fields ds)) a in
    let s = IsBuilt-Stored h.0 in
    let (ns, saved) = cfg_set_from-IsSaved (idx + 1) set rest h.1 o.1 c in
    let good = cfg_state_id-IsKey ds idx s.first s.others id s.named f in
    let free = subst (λ z. IsFree z (idx + 1) set) f o.0 in
    (
      branch id (leaf (codes "scenario") ds.scenario s.rest) ns,
      a_state good.0 f s (find_child-IsFree id saved free) saved,
    )

FitsAt-IsShort : (xs : List Assign) → All (FitsAt [] 5) xs → All IsShort xs
FitsAt-IsShort [] h = tt
FitsAt-IsShort (a ∷ xs) h = ((omega (arith, h.0.0), h.0.1), FitsAt-IsShort xs h.1)

-- The file is loaded as the tree of the states.
cfg_load-IsSaved :
    (out : Bytes) {set : DesiredSet} {t : CfgType} {m v : Option Bytes} {c next : Nodes}
    → IsSaved 0 set (link t m v c next)
    → cfg_set set ≡ ret out
    → cfg_load out
      ≡ ret (record cfg_init { child = branch (codes "state") (link t m v c next) nil })
unfolding cfg_set codes is_key_start is_key_char is_alpha is_digit find_child child_path
cfg_load-IsSaved out {t} {m} {v} {c} {next} s e =
    let ns = link t m v c next in
    let state = is_key-IsKey (codes "state") refl in
    let text =
      cfg_set_from-text 0 out s e ∙ sym (text_of-under_key [] (codes "state") (assigns ns) state) in
    let whole = append-nil (under_key (codes "state") (assigns ns)) in
    let short =
      FitsAt-IsShort (under_key (codes "state") (assigns ns))
        (under_key-FitsAt [] (codes "state") 4 (assigns ns) state (IsSaved-FitsAt 0 out s e)) in
    ap cfg_load (text ∙ ap (text_of []) (sym whole))
    ∙ cfg_load-text_of (object state refl (IsSaved-IsTree s) empty)
        (subst (All IsShort) (sym whole) short)

IsSaved-load :
    (out : Bytes) {ds : DesiredState} {set : DesiredSet} {ns : Nodes}
    → IsSaved 0 (ds ∷ set) ns
    → length (ds ∷ set) ≤ nr_des_state_max
    → cfg_set (ds ∷ set) ≡ ret out
    → yaml_load_desired_set out ≡ ret (ds ∷ set)
unfolding yaml_load_desired_set required obj_find find_child codes streq
IsSaved-load out (a_state {id} {ds} {set} {next} x f s free h) l e =
    let saved = a_state x f s free h in
    rw (cfg_load-IsSaved out saved e, ◌>>=◌, state_items-IsSaved nr_des_state_max saved l) refl

-- A set of one to 16 desired states, as they are built from an OpenWrt configuration, that `cfg_set` can
-- write is loaded by `yaml_load_desired_set` from what it has written as the same set, if the ids that
-- the states are written under differ.
pub yaml_load_desired_set-cfg_set :
    (ds : DesiredState) (set : DesiredSet) (out : Bytes)
    → All IsBuilt (ds ∷ set)
    → length (ds ∷ set) ≤ nr_des_state_max
    → HaveOwnIds 0 (ds ∷ set)
    → cfg_set (ds ∷ set) ≡ ret out
    → yaml_load_desired_set out ≡ ret (ds ∷ set)
unfolding cfg_set
yaml_load_desired_set-cfg_set ds set out h l o e =
    let (ns, saved) = cfg_set_from-IsSaved 0 (ds ∷ set) out h o e in IsSaved-load out saved l e
