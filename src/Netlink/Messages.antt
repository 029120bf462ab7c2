-- ===== src/Netlink/Messages.antt =====
-- netlink.c: a message of a dump becomes entries of the snapshot. A message is the bytes from its
-- header on. `struct ifinfomsg` has 16 bytes, `struct ifaddrmsg` 8, `struct rtmsg` 12, and each stands
-- behind the 16 bytes of `struct nlmsghdr`.
use netrec.Prelude.{
  ℕ, ◌-◌, Bool, true, false, not, ◌&&◌, Option, none, some, [], ◌∷◌, ◌++◌, Bytes, codes, streq,
  length, take, ◌==◌, ltb, leb, if◌then◌else◌, Result, ret, err, enospc, eio, ◌>>=◌,
}
use netrec.State.{
  RealState, Iface, Addr4, Route4, Vxlan, Vlan, ifnamsiz, nr_iface_max, nr_addr4_max, nr_route4_max,
  nr_vxlan_max, nr_vlan_max,
}
use netrec.Netlink.Attr.{byte_at, drop, u16, u32, int32, Rtattr, payload, Table, parse_rtattr}

-- The text at a pointer, up to its NUL, and `snprintf(dst, len, "%s", p)`.
abbrev pub c_string : Bytes → Bytes
c_string [] = []
c_string (b ∷ bs) = let rest = c_string bs in if b == 0 then [] else b ∷ rest

abbrev pub copy_string : ℕ → Bytes → Bytes
copy_string len p = take (len - 1) (c_string p)

-- `tb[i] && RTA_PAYLOAD(tb[i]) >= size`
abbrev pub with_payload : ℕ → Option Rtattr → Option Bytes
with_payload size none = none
with_payload size (some a) = if leb size (payload a) then some a.content else none

abbrev pub is_some {ℓ} : {A : Type ℓ} → Option A → Bool
is_some none = false
is_some (some _) = true

-- A number of the attribute, 0 without it.
abbrev pub number : (Bytes → ℕ) → Option Bytes → ℕ
number read none = 0
number read (some p) = read p

-- IFLA_IFNAME 3, IFLA_LINK 5, IFLA_MASTER 10, IFLA_LINKINFO 18, IFLA_CARRIER 33; IFLA_INFO_KIND 1,
-- IFLA_INFO_DATA 2. The code reads no type above 33, so newer headers with more types change nothing.
abbrev pub ifla_max : ℕ
ifla_max = 61

abbrev pub info_max : ℕ
info_max = 5

unfoldable pub link_info : Rtattr → Table
unfolding parse_rtattr
link_info a = parse_rtattr info_max a.content (payload a)

unfoldable pub link_kind : Table → ℕ → Bytes
unfolding link_info
link_kind tb len = if len == 0 then [] else elim (tb 18) [
  | none ↦ []
  | some a ↦ elim (link_info a 1) [ none ↦ [] | some k ↦ copy_string len k.content ]
]

unfoldable pub iface_of : Bytes → Rtattr → Table → Iface
unfolding link_kind int32
iface_of ifi name tb = record {
  name = copy_string ifnamsiz name.content;
  kind = link_kind tb 16;
  ifindex = int32 (u32 4 ifi);
  flags = u32 8 ifi;
  has_carrier = is_some (with_payload 1 (tb 33));
  carrier = number (byte_at 0) (with_payload 1 (tb 33));
  master = int32 (number (u32 0) (with_payload 4 (tb 10)));
  link = int32 (number (u32 0) (with_payload 4 (tb 5)));
  has_link = is_some (with_payload 4 (tb 5));
}

unfoldable pub add_iface : RealState → Bytes → Table → Result RealState
unfolding iface_of
add_iface rs ifi tb = elim (tb 3) [
  | none ↦ ret rs
  | some name ↦
      if leb nr_iface_max (length rs.ifaces)
      then err enospc
      else ret (record rs { ifaces = rs.ifaces ++ iface_of ifi name tb ∷ [] })
]

-- What `add_vxlan` and `add_vlan` begin with: the name and the data of a link of the kind.
unfoldable pub kind_data : Table → Bytes → Option Rtattr
unfolding link_info
kind_data tb kind = elim (tb 18) [
  | none ↦ none
  | some a ↦ elim (link_info a 1) [
    | none ↦ none
    | some k ↦ if streq (c_string k.content) kind then link_info a 2 else none
  ]
]

-- IFLA_VXLAN_ID 1, IFLA_VXLAN_GROUP 2, IFLA_VXLAN_LINK 3.
unfoldable pub vxlan_of : Bytes → Rtattr → Rtattr → Vxlan
unfolding parse_rtattr int32
vxlan_of ifi name info =
    let vx = parse_rtattr 30 info.content (payload info) in
    record {
      ifname = copy_string ifnamsiz name.content;
      ifindex = int32 (u32 4 ifi);
      vni = number (u32 0) (with_payload 4 (vx 1));
      has_vni = is_some (with_payload 4 (vx 1));
      remote = number (u32 0) (with_payload 4 (vx 2));
      has_remote = is_some (with_payload 4 (vx 2));
      link = int32 (number (u32 0) (with_payload 4 (vx 3)));
      has_link = is_some (with_payload 4 (vx 3));
    }

unfoldable pub add_vxlan : RealState → Bytes → Table → Result RealState
unfolding kind_data vxlan_of codes
add_vxlan rs ifi tb = elim (tb 3) [
  | none ↦ ret rs
  | some name ↦ elim (kind_data tb (codes "vxlan")) [
    | none ↦ ret rs
    | some info ↦
        if leb nr_vxlan_max (length rs.vxlan)
        then err enospc
        else ret (record rs { vxlan = rs.vxlan ++ vxlan_of ifi name info ∷ [] })
  ]
]

-- IFLA_VLAN_ID 1; the parent is the link's own IFLA_LINK.
unfoldable pub vlan_of : Bytes → Rtattr → Rtattr → Table → Vlan
unfolding parse_rtattr int32
vlan_of ifi name info tb =
    let vl = parse_rtattr 5 info.content (payload info) in
    record {
      ifname = copy_string ifnamsiz name.content;
      ifindex = int32 (u32 4 ifi);
      id = number (u16 0) (with_payload 2 (vl 1));
      has_id = is_some (with_payload 2 (vl 1));
      link = int32 (number (u32 0) (with_payload 4 (tb 5)));
      has_link = is_some (with_payload 4 (tb 5));
    }

unfoldable pub add_vlan : RealState → Bytes → Table → Result RealState
unfolding kind_data vlan_of codes
add_vlan rs ifi tb = elim (tb 3) [
  | none ↦ ret rs
  | some name ↦ elim (kind_data tb (codes "vlan")) [
    | none ↦ ret rs
    | some info ↦
        if leb nr_vlan_max (length rs.vlan)
        then err enospc
        else ret (record rs { vlan = rs.vlan ++ vlan_of ifi name info tb ∷ [] })
  ]
]

unfoldable pub parse_link_msg : RealState → Bytes → Result RealState
unfolding parse_rtattr add_iface add_vxlan add_vlan
parse_link_msg rs nh =
    if ltb (u32 0 nh) 32
    then err eio
    else let ifi = drop 16 nh in
      let tb = parse_rtattr ifla_max (drop 16 ifi) (u32 0 nh - 32) in
      do rs ← add_iface rs ifi tb; rs ← add_vxlan rs ifi tb; add_vlan rs ifi tb

abbrev pub first_of {ℓ} : {A : Type ℓ} → Option A → Option A → Option A
first_of (some a) _ = some a
first_of none b = b

unfoldable pub addr_of : Bytes → Bytes → Addr4
unfolding int32
addr_of ifa src = record { ifindex = int32 (u32 4 ifa); addr = u32 0 src; prefix = byte_at 1 ifa }

-- AF_INET 2; IFA_ADDRESS 1, IFA_LOCAL 2.
unfoldable pub parse_addr_msg : RealState → Bytes → Result RealState
unfolding parse_rtattr addr_of
parse_addr_msg rs nh =
    let ifa = drop 16 nh in
    let tb = parse_rtattr 11 (drop 8 ifa) (u32 0 nh - 24) in
    if ltb (u32 0 nh) 24
    then err eio
    else if not (byte_at 0 ifa == 2)
    then ret rs
    else elim (with_payload 4 (first_of (tb 2) (tb 1))) [
      | none ↦ ret rs
      | some src ↦
          if leb nr_addr4_max (length rs.addr4)
          then err enospc
          else ret (record rs { addr4 = rs.addr4 ++ addr_of ifa src ∷ [] })
    ]

-- RTA_TABLE 15. RT_TABLE_MAIN is 254, the same as an `int` and as a `uint32_t`.
unfoldable pub route_table : Bytes → Table → ℕ
route_table rtm tb = elim (with_payload 4 (tb 15)) [ none ↦ byte_at 4 rtm | some p ↦ u32 0 p ]

-- RTA_DST 1, RTA_OIF 4, RTA_GATEWAY 5.
unfoldable pub route_of : Bytes → Table → Route4
unfolding int32
route_of rtm tb = record {
  dst = number (u32 0) (with_payload 4 (tb 1));
  prefix = byte_at 1 rtm;
  gw = number (u32 0) (with_payload 4 (tb 5));
  has_gw = is_some (with_payload 4 (tb 5));
  oif = int32 (number (u32 0) (with_payload 4 (tb 4)));
}

-- RTN_UNICAST 1, RTN_LOCAL 2.
unfoldable pub parse_route_msg : RealState → Bytes → Result RealState
unfolding parse_rtattr route_table route_of
parse_route_msg rs nh =
    let rtm = drop 16 nh in
    let tb = parse_rtattr 30 (drop 12 rtm) (u32 0 nh - 28) in
    if ltb (u32 0 nh) 28
    then err eio
    else if not (byte_at 0 rtm == 2)
    then ret rs
    else if not (byte_at 7 rtm == 1) && not (byte_at 7 rtm == 2)
    then ret rs
    else if not (route_table rtm tb == 254)
    then ret rs
    else if leb nr_route4_max (length rs.route4)
    then err enospc
    else ret (record rs { route4 = rs.route4 ++ route_of rtm tb ∷ [] })
