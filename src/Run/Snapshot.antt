-- ===== src/Run/Snapshot.antt =====
-- run.c with netlink.c and state.c: the snapshot that a pass reads.
use netrec.Prelude.{
  ℕ, ◌≤◌, ◌≡◌, subst, inl, inr, Bool-cases, Option, none, some, List, arith, Bytes, [], enospc,
  length, leb, ret, err, >>=-eq-ret,
}
use netrec.State.{RealState, nr_dns4_max}
use netrec.State.Resolv.{
  fgets_loop, nameservers, rs_load_resolv_conf, rs_load_resolv_conf-nameservers,
}
use netrec.Netlink.Dump.{NlHost, nl_load_state}
use netrec.Netlink.Within.{IsWithin}
use netrec.Netlink.Limits.{nl_load_state-IsWithin}
use netrec.Run.{System, load_real}

-- The snapshots of the system are those that netlink.c reads from its sockets.
abbrev pub Answers : System → (List (List Bytes) → NlHost) → Type 0
Answers sys hosts =
    (ran : List (List Bytes))
    → (closed : List ℕ) × (nl_load_state (hosts ran) ≡ some (sys.nl_load_state ran, closed))

-- Links, addresses and routes, and name servers, within their arrays.
abbrev pub IsWhole : RealState → Type 0
IsWhole rs = IsWithin rs × (length rs.dns4 ≤ nr_dns4_max)

with_servers :
    (rs : RealState) (servers : List ℕ) → IsWithin rs → IsWithin (record rs { dns4 = servers })
with_servers rs servers h = record {
  ifaces = h.ifaces;
  addr4 = h.addr4;
  route4 = h.route4;
  vxlan = h.vxlan;
  vlan = h.vlan;
}

rs_load_resolv_conf-IsWhole :
    (net : Bytes → Option ℕ) (r rs : RealState) (file : Option Bytes)
    → IsWithin r
    → rs_load_resolv_conf net r file ≡ ret rs
    → IsWhole rs
unfolding rs_load_resolv_conf
rs_load_resolv_conf-IsWhole net r rs none w h =
    let same : record r { dns4 = [] } ≡ rs = cc h in
    subst IsWhole same (with_servers r [] w, omega arith)
rs_load_resolv_conf-IsWhole net r rs (some file) w h =
    let servers = nameservers net (fgets_loop 255 file) in
    let e = rs_load_resolv_conf-nameservers net r file in
    elim (Bool-cases (leb (length servers) nr_dns4_max)) [
      | inl y ↦
          let f : rs_load_resolv_conf net r (some file) ≡ ret (record r { dns4 = servers }) =
            rw y at e in
          let same : record r { dns4 = servers } ≡ rs = cc (f, h) in
          subst IsWhole same (with_servers r servers w, ground arith)
      | inr n ↦ let f : rs_load_resolv_conf net r (some file) ≡ err enospc = rw n at e in cc (f, h)
    ]

-- Every snapshot that a pass takes from the kernel and from resolv.conf has at most as many entries as
-- the arrays of state.h have room for, if the sockets answer, whatever they give.
pub load_real-IsWhole :
    (sys : System) (hosts : List (List Bytes) → NlHost) (ran : List (List Bytes)) (rs : RealState)
    → Answers sys hosts
    → load_real sys ran ≡ ret rs
    → IsWhole rs
unfolding load_real
load_real-IsWhole sys hosts ran rs answers h =
    let (r, e, f) =
      >>=-eq-ret {B = RealState} (sys.nl_load_state ran)
        (λ r. rs_load_resolv_conf sys.uci.inet_pton r (sys.resolv_conf ran)) h in
    let (closed, a) = answers ran in
    let read : nl_load_state (hosts ran) ≡ some (ret r, closed) = cc (a, e) in
    rs_load_resolv_conf-IsWhole sys.uci.inet_pton r rs (sys.resolv_conf ran)
      (nl_load_state-IsWithin (hosts ran) r closed read) f
