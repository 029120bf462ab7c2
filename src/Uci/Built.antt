-- ===== src/Uci/Built.antt =====
-- uci.c: the desired states that `uci_build_desired_set` fills in.
use netrec.Prelude.{
  ℕ, ◌^◌, ◌≤◌, ◌<◌, ◌≡◌, refl, sym, subst, ◌⊎◌, inl, inr, Bool-cases, Option-cases, true, false,
  not, ◌&&◌, ◌||◌, Option, none, some, List, [], ◌∷◌, ◌++◌, arith, Bytes, codes, streq, decimal,
  is_empty, length, length-take, take, All, Result-cases, ret, ◌>>=◌,
}
use netrec.State.{DesiredState, addr_static, addr_dhcp, nr_des_dns4_max, inet_addrstrlen}
use netrec.Yaml.Load.{blank_state}
use netrec.Uci.Words.{uci_cpy}
use netrec.Uci.Db.{UciDb, db_get, some_text}
use netrec.Uci.Proto.{fill_static, fill_bridge_proto, mask_to_prefix, split_ip_list}
use netrec.Uci.Read.{IsShortName}
use netrec.Uci.Reload.{IsBuilt, with_static, with_dhcp, with_vxlan}
use netrec.Uci.Kept.{length-uci_cpy, WithPorts, split_ip_list-short}

abbrev pub blank_bridge : Bytes → DesiredState
blank_bridge nm = record (blank_state (codes "uplink_bridge")) { br_name = nm }

pub static_IsBuilt :
    (nm up a g : Bytes) (dns : List Bytes) (d : DesiredState)
    → is_empty nm ≡ false
    → is_empty up ≡ false
    → is_empty a ≡ false
    → IsShortName nm
    → IsShortName up
    → length a < 32
    → IsShortName g
    → All IsShortName dns
    → length dns ≤ nr_des_dns4_max
    → WithPorts
        (record (blank_bridge nm) {
          br_addr_mode = addr_static;
          br_addr = a;
          br_gateway = g;
          br_dns = dns;
          up_ifname = up;
        })
        d
    → IsBuilt d
static_IsBuilt [] up a g dns d x y z hn hu ha hg hd ld p = cc x
static_IsBuilt (n ∷ nm) [] a g dns d x y z hn hu ha hg hd ld p = cc y
static_IsBuilt (n ∷ nm) (u ∷ up) [] g dns d x y z hn hu ha hg hd ld p = cc z
static_IsBuilt (n ∷ nm) (u ∷ up) (b ∷ a) g dns d x y z hn hu ha hg hd ld p =
    subst IsBuilt (sym p.same)
      (with_static n u b nm up a g dns p.ports hn hu ha hg hd ld p.short p.room)

pub dhcp_IsBuilt :
    (nm up a : Bytes) (d : DesiredState)
    → is_empty nm ≡ false
    → is_empty up ≡ false
    → is_empty a ≡ false
    → IsShortName nm
    → IsShortName up
    → length a < 128
    → WithPorts
        (record (blank_bridge nm) { br_addr_mode = addr_dhcp; br_dhcp_cmd = a; up_ifname = up })
        d
    → IsBuilt d
dhcp_IsBuilt [] up a d x y z hn hu ha p = cc x
dhcp_IsBuilt (n ∷ nm) [] a d x y z hn hu ha p = cc y
dhcp_IsBuilt (n ∷ nm) (u ∷ up) [] d x y z hn hu ha p = cc z
dhcp_IsBuilt (n ∷ nm) (u ∷ up) (b ∷ a) d x y z hn hu ha p =
    subst IsBuilt (sym p.same) (with_dhcp n u b nm up a p.ports hn hu ha p.short p.room)

-- A VXLAN has a WireGuard interface with a name.
abbrev pub HasTunnel : DesiredState → Type 0
HasTunnel ds = (not (is_empty ds.vx_ifname) && is_empty ds.wg_ifname) ≡ false

pub vxlan_IsBuilt :
    (nm wg vx peer : Bytes) (vni : ℕ) (d : DesiredState)
    → is_empty nm ≡ false
    → is_empty vx ≡ false
    → IsShortName nm
    → IsShortName wg
    → IsShortName vx
    → IsShortName peer
    → vni < 2 ^ 32
    → WithPorts
        (record (blank_state (codes "wg_vxlan_bridge")) {
          br_name = nm;
          vx_ifname = vx;
          vx_vni = vni;
          wg_ifname = wg;
          wg_peer_ip = peer;
          wg_route_dev = wg;
          vx_remote = peer;
          vx_bridge = nm;
        })
        d
    → HasTunnel d
    → IsBuilt d
vxlan_IsBuilt [] wg vx peer vni d x y hn hw hx hp hv p t = cc x
vxlan_IsBuilt (n ∷ nm) wg [] peer vni d x y hn hw hx hp hv p t = cc y
vxlan_IsBuilt (n ∷ nm) [] (v ∷ vx) peer vni d x y hn hw hx hp hv p t = cc (subst HasTunnel p.same t)
vxlan_IsBuilt (n ∷ nm) (w ∷ wg) (v ∷ vx) peer vni d x y hn hw hx hp hv p t =
    subst IsBuilt (sym p.same)
      (with_vxlan n w v nm wg vx peer (w ∷ wg) peer vni p.ports hn hw hx hp hw hp hv p.short p.room)

take-slash : (xs ys : Bytes) → is_empty (take 31 (xs ++ b'/' ∷ ys)) ≡ false
take-slash [] ys = refl
take-slash (x ∷ xs) ys = refl

-- The address that `fill_bridge_proto` fills in, for a static one and under DHCP.
pub record Static (nm : Bytes) (d : DesiredState) : Type 0 where
  pub addr : Bytes
  pub gateway : Bytes
  pub dns : List Bytes
  pub same : d ≡ record (blank_bridge nm) {
    br_addr_mode = addr_static;
    br_addr = addr;
    br_gateway = gateway;
    br_dns = dns;
  }
  pub there : is_empty addr ≡ false
  pub addr_short : length addr < 32
  pub gateway_short : IsShortName gateway
  pub dns_short : All IsShortName dns
  pub dns_few : length dns ≤ nr_des_dns4_max

pub record Dhcp (nm : Bytes) (d : DesiredState) : Type 0 where
  pub cmd : Bytes
  pub same : d ≡ record (blank_bridge nm) { br_addr_mode = addr_dhcp; br_dhcp_cmd = cmd }
  pub there : is_empty cmd ≡ false
  pub short : length cmd < 128

abbrev gateway_of : Option Bytes → Bytes
gateway_of o = elim o [ none ↦ [] | some g ↦ uci_cpy inet_addrstrlen (some g) ]

gateway_of-IsShortName : (o : Option Bytes) → IsShortName (gateway_of o)
gateway_of-IsShortName none = omega arith
gateway_of-IsShortName (some g) = length-uci_cpy inet_addrstrlen g (omega arith)

fill_static-Static :
    (inet_pton : Bytes → Option ℕ) (db : UciDb) (sect nm : Bytes) (d : DesiredState)
    → fill_static inet_pton db sect (blank_bridge nm) ≡ ret d
    → Static nm d
unfolding fill_static codes
fill_static-Static inet_pton db sect nm d h =
    elim (Option-cases (db_get db (codes "network") sect (codes "ipaddr"))) [
      | inl e ↦ cc (rw (e, fill_static) at h)
      | inr (ip, e) ↦ elim (Option-cases (db_get db (codes "network") sect (codes "netmask"))) [
        | inl f ↦ cc (rw (e, f, fill_static) at h)
        | inr (mask, f) ↦ elim (Result-cases (mask_to_prefix inet_pton mask)) [
          | inl (x, k) ↦ cc (rw (e, f, k, fill_static, ◌>>=◌) at h)
          | inr (prefix, k) ↦
              elim (Result-cases
                (split_ip_list (db_get db (codes "network") sect (codes "dns")) nr_des_dns4_max)) [
                  | inl (x, l) ↦ cc (rw (e, f, k, l, fill_static, ◌>>=◌) at h)
                  | inr (dns, l) ↦
                      let gate = db_get db (codes "network") sect (codes "gateway") in
                      let (dns_short, few) =
                        split_ip_list-short (db_get db (codes "network") sect (codes "dns"))
                          nr_des_dns4_max dns l in
                      record {
                        addr = take 31 (ip ++ (b'/' ∷ decimal prefix));
                        gateway = gateway_of gate;
                        dns = dns;
                        same = sym (cc (rw (e, f, k, l, fill_static, ◌>>=◌) at h));
                        there = take-slash ip (decimal prefix);
                        addr_short = omega (arith, length-take 31 (ip ++ (b'/' ∷ decimal prefix)));
                        gateway_short = gateway_of-IsShortName gate;
                        dns_short = dns_short;
                        dns_few = few;
                      }
                ]
        ]
      ]
    ]

dhcp_cmd_there : is_empty (uci_cpy 128 (some (codes "udhcpc -i $iface -q -n"))) ≡ false
unfolding uci_cpy codes
dhcp_cmd_there = refl

pub fill_bridge_proto-cases :
    (inet_pton : Bytes → Option ℕ) (db : UciDb) (sect nm proto : Bytes) (d : DesiredState)
    → some_text (db_get db (codes "network") sect (codes "proto")) ≡ some proto
    → streq proto (codes "static") || streq proto (codes "dhcp") ≡ true
    → fill_bridge_proto inet_pton db sect (blank_bridge nm) ≡ ret d
    → Static nm d ⊎ Dhcp nm d
unfolding fill_bridge_proto codes
fill_bridge_proto-cases inet_pton db sect nm proto d e p h =
    elim (Bool-cases (streq proto (codes "static"))) [
      | inl y ↦ inl (fill_static-Static inet_pton db sect nm d (rw (e, y, fill_bridge_proto) at h))
      | inr n ↦
          let dhcp : streq proto (codes "dhcp") ≡ true = rw n at p in
          let cmd = uci_cpy 128 (some (codes "udhcpc -i $iface -q -n")) in
          let same : record (blank_bridge nm) { br_addr_mode = addr_dhcp; br_dhcp_cmd = cmd } ≡ d =
            cc (rw (e, n, dhcp, fill_bridge_proto) at h) in
          inr (record {
            cmd = cmd;
            same = sym same;
            there = dhcp_cmd_there;
            short = length-uci_cpy 128 (codes "udhcpc -i $iface -q -n") (omega arith);
          })
    ]
