-- ===== src/Netlink/Within.antt =====
-- netlink.c: what a message adds stays within the limits of state.h.
use netrec.Prelude.{
  ℕ, ◌-◌, ◌≤◌, ◌≡◌, inl, inr, Bool-cases, Option-cases, Bool, true, false, Option, none, some, List,
  [], ◌∷◌, ◌++◌, arith, Bytes, codes, length, length-append, leb, ltb, if◌then◌else◌, Result, ret,
  err, enospc, ◌>>=◌, Holds, Holds-keeps,
}
use netrec.State.{
  RealState, Addr4, Route4, nr_iface_max, nr_addr4_max, nr_route4_max, nr_vxlan_max, nr_vlan_max,
}
use netrec.Netlink.Attr.{drop, u32, Table, parse_rtattr}
use netrec.Netlink.Messages.{
  with_payload, first_of, ifla_max, kind_data, iface_of, vxlan_of, vlan_of, add_iface, add_vxlan,
  add_vlan, addr_of, route_of, parse_link_msg, parse_addr_msg, parse_route_msg,
}

pub record IsWithin (rs : RealState) : Type 0 where
  pub ifaces : length rs.ifaces ≤ nr_iface_max
  pub addr4 : length rs.addr4 ≤ nr_addr4_max
  pub route4 : length rs.route4 ≤ nr_route4_max
  pub vxlan : length rs.vxlan ≤ nr_vxlan_max
  pub vlan : length rs.vlan ≤ nr_vlan_max

abbrev pub AllWithin : Result RealState → Type 0
AllWithin = Holds IsWithin

one_more {ℓ} :
    {A : Type ℓ} (n : ℕ) (xs : List A) (x : A)
    → leb n (length xs) ≡ false
    → length (xs ++ x ∷ []) ≤ n
one_more n xs x h = rw (length-append xs (x ∷ [])) (ground arith)

add_iface-IsWithin :
    (rs : RealState) (ifi : Bytes) (tb : Table) → IsWithin rs → AllWithin (add_iface rs ifi tb)
unfolding add_iface
add_iface-IsWithin rs ifi tb h = elim (Option-cases (tb 3)) [
  | inl e ↦ rw (e, add_iface) h
  | inr (name, e) ↦ elim (Bool-cases (leb nr_iface_max (length rs.ifaces))) [
    | inl full ↦ rw (e, full, add_iface) tt
    | inr room ↦
        rw (e, room, add_iface)
          (record {
            ifaces = one_more nr_iface_max rs.ifaces (iface_of ifi name tb) room;
            addr4 = h.addr4;
            route4 = h.route4;
            vxlan = h.vxlan;
            vlan = h.vlan;
          })
  ]
]

add_vxlan-IsWithin :
    (rs : RealState) (ifi : Bytes) (tb : Table) → IsWithin rs → AllWithin (add_vxlan rs ifi tb)
unfolding add_vxlan
add_vxlan-IsWithin rs ifi tb h = elim (Option-cases (tb 3)) [
  | inl e ↦ rw (e, add_vxlan) h
  | inr (name, e) ↦ elim (Option-cases (kind_data tb (codes "vxlan"))) [
    | inl f ↦ rw (e, f, add_vxlan) h
    | inr (info, f) ↦ elim (Bool-cases (leb nr_vxlan_max (length rs.vxlan))) [
      | inl full ↦ rw (e, f, full, add_vxlan) tt
      | inr room ↦
          rw (e, f, room, add_vxlan)
            (record {
              ifaces = h.ifaces;
              addr4 = h.addr4;
              route4 = h.route4;
              vxlan = one_more nr_vxlan_max rs.vxlan (vxlan_of ifi name info) room;
              vlan = h.vlan;
            })
    ]
  ]
]

add_vlan-IsWithin :
    (rs : RealState) (ifi : Bytes) (tb : Table) → IsWithin rs → AllWithin (add_vlan rs ifi tb)
unfolding add_vlan
add_vlan-IsWithin rs ifi tb h = elim (Option-cases (tb 3)) [
  | inl e ↦ rw (e, add_vlan) h
  | inr (name, e) ↦ elim (Option-cases (kind_data tb (codes "vlan"))) [
    | inl f ↦ rw (e, f, add_vlan) h
    | inr (info, f) ↦ elim (Bool-cases (leb nr_vlan_max (length rs.vlan))) [
      | inl full ↦ rw (e, f, full, add_vlan) tt
      | inr room ↦
          rw (e, f, room, add_vlan)
            (record {
              ifaces = h.ifaces;
              addr4 = h.addr4;
              route4 = h.route4;
              vxlan = h.vxlan;
              vlan = one_more nr_vlan_max rs.vlan (vlan_of ifi name info tb) room;
            })
    ]
  ]
]

pub parse_link_msg-IsWithin :
    (rs : RealState) (nh : Bytes) → IsWithin rs → AllWithin (parse_link_msg rs nh)
unfolding parse_link_msg
parse_link_msg-IsWithin rs nh h = elim (Bool-cases (ltb (u32 0 nh) 32)) [
  | inl y ↦ rw (y, parse_link_msg) tt
  | inr n ↦
      let ifi = drop 16 nh in
      let tb = parse_rtattr ifla_max (drop 16 ifi) (u32 0 nh - 32) in
      rw (n, parse_link_msg)
        (Holds-keeps IsWithin (add_iface rs ifi tb)
          (λ r. add_vxlan r ifi tb >>= λ q. add_vlan q ifi tb)
          (λ r w.
            Holds-keeps IsWithin (add_vxlan r ifi tb) (λ q. add_vlan q ifi tb)
              (λ q. add_vlan-IsWithin q ifi tb) (add_vxlan-IsWithin r ifi tb w))
          (add_iface-IsWithin rs ifi tb h))
]

-- A test that returns early keeps what holds of both ways.
pub early :
    (b : Bool) (r s : Result RealState) → AllWithin r → AllWithin s → AllWithin (if b then r else s)
early true r s h k = h
early false r s h k = k

add_addr4-IsWithin :
    (rs : RealState) (a : Addr4)
    → IsWithin rs
    → AllWithin (
        if leb nr_addr4_max (length rs.addr4)
        then err enospc
        else ret (record rs { addr4 = rs.addr4 ++ a ∷ [] }))
add_addr4-IsWithin rs a h = elim (Bool-cases (leb nr_addr4_max (length rs.addr4))) [
  | inl full ↦ rw full tt
  | inr room ↦ rw room (record {
    ifaces = h.ifaces;
    addr4 = one_more nr_addr4_max rs.addr4 a room;
    route4 = h.route4;
    vxlan = h.vxlan;
    vlan = h.vlan;
  })
]

add_src-IsWithin :
    (rs : RealState) (ifa : Bytes) (src : Option Bytes)
    → IsWithin rs
    → AllWithin (elim src [
      | none ↦ ret rs
      | some p ↦
          if leb nr_addr4_max (length rs.addr4)
          then err enospc
          else ret (record rs { addr4 = rs.addr4 ++ addr_of ifa p ∷ [] })
    ])
add_src-IsWithin rs ifa none h = h
add_src-IsWithin rs ifa (some p) h = add_addr4-IsWithin rs (addr_of ifa p) h

pub parse_addr_msg-IsWithin :
    (rs : RealState) (nh : Bytes) → IsWithin rs → AllWithin (parse_addr_msg rs nh)
unfolding parse_addr_msg
parse_addr_msg-IsWithin rs nh h =
    let tb = parse_rtattr 11 (drop 8 (drop 16 nh)) (u32 0 nh - 24) in
    let added = add_src-IsWithin rs (drop 16 nh) (with_payload 4 (first_of (tb 2) (tb 1))) h in
    search (early, added, h)

add_route4-IsWithin :
    (rs : RealState) (r : Route4)
    → IsWithin rs
    → AllWithin (
        if leb nr_route4_max (length rs.route4)
        then err enospc
        else ret (record rs { route4 = rs.route4 ++ r ∷ [] }))
add_route4-IsWithin rs r h = elim (Bool-cases (leb nr_route4_max (length rs.route4))) [
  | inl full ↦ rw full tt
  | inr room ↦ rw room (record {
    ifaces = h.ifaces;
    addr4 = h.addr4;
    route4 = one_more nr_route4_max rs.route4 r room;
    vxlan = h.vxlan;
    vlan = h.vlan;
  })
]

pub parse_route_msg-IsWithin :
    (rs : RealState) (nh : Bytes) → IsWithin rs → AllWithin (parse_route_msg rs nh)
unfolding parse_route_msg
parse_route_msg-IsWithin rs nh h =
    let added =
      add_route4-IsWithin rs
        (route_of (drop 16 nh) (parse_rtattr 30 (drop 12 (drop 16 nh)) (u32 0 nh - 28))) h in
    search (early, added, h)
