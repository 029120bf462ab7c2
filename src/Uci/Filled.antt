-- ===== src/Uci/Filled.antt =====
-- uci.c: every set that `uci_build_desired_set` builds, and the way it takes through the file.
use netrec.Prelude.{
  ℕ, ◌-◌, ◌^◌, ◌<◌, ◌≡◌, refl, ◌∙◌, ap, subst, inl, inr, Bool-cases, Option-cases, true, false, not,
  ◌||◌, Option, some, [], ◌∷◌, arith, Bytes, codes, streq, is_empty, ltb, Result-cases, ret, ◌>>=◌,
}
use netrec.State.{DesiredState, addr_static, addr_dhcp, ifnamsiz, inet_addrstrlen}
use netrec.Prelude.Libc.{strtoul, unsigned_value}
use netrec.Yaml.Fields.{parse_u32_str}
use netrec.Yaml.Load.{blank_state}
use netrec.Uci.Words.{uci_cpy, uci_parse_u32_str}
use netrec.Uci.Db.{UciDb, db_get, some_text, holds}
use netrec.Uci.Ports.{add_wireless_ports, add_device_ports, first_device_port}
use netrec.Uci.Proto.{fill_bridge_proto, find_wg_for_remote}
use netrec.Uci.Build.{fill_uplink_bridge, vxlan_of, fill_wg_vxlan_bridge}
use netrec.Uci.Read.{IsShortName}
use netrec.Uci.Reload.{IsBuilt}
use netrec.Uci.Kept.{
  length-uci_cpy, uci_cpy-is_empty, WithPorts, add_device_ports-WithPorts,
  add_wireless_ports-WithPorts, first_device_port-short,
}
use netrec.Uci.Built.{
  blank_bridge, static_IsBuilt, dhcp_IsBuilt, vxlan_IsBuilt, HasTunnel, fill_bridge_proto-cases,
}

no_ports : (base ds : DesiredState) → ds ≡ base → base.br_ports ≡ [] → WithPorts base ds
no_ports base ds same none_yet = record {
  ports = [];
  same = same ∙ ap (λ z. record base { br_ports = z }) none_yet;
  short = tt;
  room = omega arith;
}

-- The steps of `fill_uplink_bridge`, one after the other.
uplinked :
    (inet_pton : Bytes → Option ℕ) (net wifi : UciDb) (if_sect : Bytes) (ports : Option Bytes)
    (nm proto : Bytes) (ds : DesiredState) (up : Bytes) (m d : DesiredState)
    → is_empty nm ≡ false
    → IsShortName nm
    → some_text (db_get net (codes "network") if_sect (codes "proto")) ≡ some proto
    → streq proto (codes "static") || streq proto (codes "dhcp") ≡ true
    → fill_bridge_proto inet_pton net if_sect (blank_bridge nm) ≡ ret ds
    → first_device_port ports ifnamsiz ≡ ret up
    → add_device_ports ports (record ds { up_ifname = up }) true ≡ ret m
    → add_wireless_ports wifi if_sect m ≡ ret d
    → IsBuilt d
uplinked inet_pton net wifi if_sect ports nm proto ds up m d named short e p a b c k =
    let link : DesiredState → DesiredState = λ z. record z { up_ifname = up } in
    let (up_there, up_short) = first_device_port-short ports ifnamsiz up b in
    elim (fill_bridge_proto-cases inet_pton net if_sect nm proto ds e p a) [
      | inl s ↦
          let base = record (blank_bridge nm) {
            br_addr_mode = addr_static;
            br_addr = s.addr;
            br_gateway = s.gateway;
            br_dns = s.dns;
            up_ifname = up;
          } in
          static_IsBuilt nm up s.addr s.gateway s.dns d named up_there s.there short up_short
            s.addr_short s.gateway_short s.dns_short s.dns_few
            (add_wireless_ports-WithPorts base m d wifi if_sect
              (add_device_ports-WithPorts base (link ds) m ports true
                (no_ports base (link ds) (ap link s.same) refl) c)
              k)
      | inr s ↦
          let base = record (blank_bridge nm) {
            br_addr_mode = addr_dhcp;
            br_dhcp_cmd = s.cmd;
            up_ifname = up;
          } in
          dhcp_IsBuilt nm up s.cmd d named up_there s.there short up_short s.short (
            add_wireless_ports-WithPorts base m d wifi if_sect
              (add_device_ports-WithPorts base (link ds) m ports true
                (no_ports base (link ds) (ap link s.same) refl) c)
              k)
    ]

pub fill_uplink_bridge-IsBuilt :
    (inet_pton : Bytes → Option ℕ) (net wifi : UciDb) (dev_sect if_sect br_name proto : Bytes)
    (d : DesiredState)
    → is_empty br_name ≡ false
    → some_text (db_get net (codes "network") if_sect (codes "proto")) ≡ some proto
    → streq proto (codes "static") || streq proto (codes "dhcp") ≡ true
    → fill_uplink_bridge inet_pton net wifi dev_sect if_sect br_name ≡ ret d
    → IsBuilt d
unfolding fill_uplink_bridge
fill_uplink_bridge-IsBuilt inet_pton net wifi dev_sect if_sect br_name proto d named e p h =
    let ports = db_get net (codes "network") dev_sect (codes "ports") in
    let nm = uci_cpy ifnamsiz (some br_name) in
    elim (Result-cases (fill_bridge_proto inet_pton net if_sect (blank_bridge nm))) [
      | inl (x, a) ↦ cc (rw (a, fill_uplink_bridge, ◌>>=◌) at h)
      | inr (ds, a) ↦ elim (Result-cases (first_device_port ports ifnamsiz)) [
        | inl (x, b) ↦ cc (rw (a, b, fill_uplink_bridge, ◌>>=◌) at h)
        | inr (up, b) ↦
            elim (Result-cases (add_device_ports ports (record ds { up_ifname = up }) true)) [
              | inl (x, c) ↦ cc (rw (a, b, c, fill_uplink_bridge, ◌>>=◌) at h)
              | inr (m, c) ↦
                  uplinked inet_pton net wifi if_sect ports nm proto ds up m d
                    (uci_cpy-is_empty br_name named) (length-uci_cpy ifnamsiz br_name (omega arith))
                    e p a b c (rw (a, b, c, fill_uplink_bridge, ◌>>=◌) at h)
            ]
      ]
    ]

parse_u32_str-bound : (s : Bytes) (n : ℕ) → parse_u32_str s ≡ ret n → n < 2 ^ 32
unfolding parse_u32_str
parse_u32_str-bound [] n h = cc h
parse_u32_str-bound (c ∷ cs) n h =
    let p = strtoul (c ∷ cs) in
    elim (Bool-cases (p.overflow || not (is_empty p.rest) || ltb (2 ^ 32 - 1) (unsigned_value p))) [
      | inl y ↦ cc (rw y at h)
      | inr b ↦
          let same : unsigned_value p ≡ n = cc (rw b at h) in
          let room : ltb (2 ^ 32 - 1) (unsigned_value p) ≡ false = ground arith in
          subst (λ z. z < 2 ^ 32) same (ground arith)
    ]

vxlan_of-bound :
    (net : UciDb) (vx peer wg : Bytes) (vni : ℕ)
    → vxlan_of net vx ≡ ret (vni, peer, wg)
    → vni < 2 ^ 32
unfolding vxlan_of codes
vxlan_of-bound net vx peer wg vni h =
    let get = db_get net (codes "network") vx in
    elim (Bool-cases (not (holds (get (codes "proto")) (codes "vxlan")))) [
      | inl y ↦ cc (rw (y, vxlan_of) at h)
      | inr b ↦ elim (Option-cases (get (codes "vid"))) [
        | inl e ↦ cc (rw (b, e, vxlan_of) at h)
        | inr (vid, e) ↦ elim (Option-cases (get (codes "peeraddr"))) [
          | inl f ↦ cc (rw (b, e, f, vxlan_of) at h)
          | inr (a, f) ↦ elim (Result-cases (uci_parse_u32_str vid)) [
            | inl (x, k) ↦ cc (rw (b, e, f, k, vxlan_of, ◌>>=◌) at h)
            | inr (n, k) ↦ elim (Result-cases (find_wg_for_remote net a)) [
              | inl (x, l) ↦ cc (rw (b, e, f, k, l, vxlan_of, ◌>>=◌) at h)
              | inr (w, l) ↦
                  let same : ◌≡◌ {A = ℕ × Bytes × Bytes} (n, a, w) (vni, peer, wg) =
                    cc (rw (b, e, f, k, l, vxlan_of, ◌>>=◌) at h) in
                  subst (λ z. z < 2 ^ 32) (ap (λ z. z.0) same) (parse_u32_str-bound vid n k)
            ]
          ]
        ]
      ]
    ]

pub fill_wg_vxlan_bridge-IsBuilt :
    (net wifi : UciDb) (dev_sect if_sect br_name : Bytes) (d : DesiredState)
    → is_empty br_name ≡ false
    → fill_wg_vxlan_bridge net wifi dev_sect if_sect br_name ≡ ret d
    → HasTunnel d
    → IsBuilt d
unfolding fill_wg_vxlan_bridge
fill_wg_vxlan_bridge-IsBuilt net wifi dev_sect if_sect br_name d named h t =
    let ports = db_get net (codes "network") dev_sect (codes "ports") in
    elim (Result-cases (first_device_port ports ifnamsiz)) [
      | inl (x, a) ↦ cc (rw (a, fill_wg_vxlan_bridge, ◌>>=◌) at h)
      | inr (vx, a) ↦ elim (Result-cases (vxlan_of net vx)) [
        | inl (x, b) ↦ cc (rw (a, b, fill_wg_vxlan_bridge, ◌>>=◌) at h)
        | inr ((vni, peer, wg), b) ↦
            let base = record (blank_state (codes "wg_vxlan_bridge")) {
              br_name = uci_cpy ifnamsiz (some br_name);
              vx_ifname = vx;
              vx_vni = vni;
              wg_ifname = uci_cpy ifnamsiz (some wg);
              wg_peer_ip = uci_cpy inet_addrstrlen (some peer);
              wg_route_dev = uci_cpy ifnamsiz (some wg);
              vx_remote = uci_cpy inet_addrstrlen (some peer);
              vx_bridge = uci_cpy ifnamsiz (some br_name);
            } in
            elim (Result-cases (add_device_ports ports base true)) [
              | inl (x, c) ↦ cc (rw (a, b, c, fill_wg_vxlan_bridge, ◌>>=◌) at h)
              | inr (m, c) ↦
                  let (vx_there, vx_short) = first_device_port-short ports ifnamsiz vx a in
                  vxlan_IsBuilt (uci_cpy ifnamsiz (some br_name)) (uci_cpy ifnamsiz (some wg)) vx
                    (uci_cpy inet_addrstrlen (some peer)) vni d (uci_cpy-is_empty br_name named)
                    vx_there (length-uci_cpy ifnamsiz br_name (omega arith))
                    (length-uci_cpy ifnamsiz wg (omega arith)) vx_short
                    (length-uci_cpy inet_addrstrlen peer (omega arith))
                    (vxlan_of-bound net vx peer wg vni b)
                    (add_wireless_ports-WithPorts base m d wifi if_sect
                      (add_device_ports-WithPorts base base m ports true
                        (no_ports base base refl refl) c)
                      (rw (a, b, c, fill_wg_vxlan_bridge, ◌>>=◌) at h))
                    t
            ]
      ]
    ]
