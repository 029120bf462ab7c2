-- ===== src/Netlink/Limits.antt =====
-- netlink.c: a snapshot that was read, and the socket behind it.
use netrec.Prelude.{
  ℕ, zero, suc, ◌-◌, ◌≡◌, refl, subst, inl, inr, ◌⊎◌, Bool-cases, Option-cases, Result-cases, Bool,
  true, false, Option, none, some, List, [], ◌∷◌, arith, Bytes, leb, if◌then◌else◌, Result, ret,
  err, Holds-ret,
}
use netrec.State.{RealState}
use netrec.Netlink.Attr.{drop, u32, align4}
use netrec.Netlink.Unroll.{Handled-cases}
use netrec.Netlink.Dump.{
  NlHost, Recv, interrupted, failed, received, handle_msg, go_on, finish, returned, walked,
  nlmsg_ok, nl_err, parse_msg, msg_loop, recv_dump, dump, dump_links, dump_addr4, dump_route4,
  next_dump, nl_send, nl_open, empty_real, nl_load_state, Handled, Walk,
}
use netrec.Netlink.Encode.{zeros}
use netrec.Netlink.Within.{
  IsWithin, AllWithin, early, parse_link_msg-IsWithin, parse_addr_msg-IsWithin,
  parse_route_msg-IsWithin,
}

parse_msg-IsWithin :
    (type : ℕ) (rs : RealState) (nh : Bytes) → IsWithin rs → AllWithin (parse_msg type rs nh)
unfolding parse_msg
parse_msg-IsWithin type rs nh h =
    let link = parse_link_msg-IsWithin rs nh h in
    let addr = parse_addr_msg-IsWithin rs nh h in
    let route = parse_route_msg-IsWithin rs nh h in search (early, link, addr, route)

nl_err-IsWithin : (rs : RealState) (nh : Bytes) → IsWithin rs → AllWithin (nl_err rs nh)
unfolding nl_err
nl_err-IsWithin rs nh h = search (early, h)

abbrev HandledWithin : Handled → Type 0
HandledWithin (go_on r) = IsWithin r
HandledWithin (finish r) = AllWithin r

early_handled :
    (b : Bool) (m n : Handled)
    → HandledWithin m
    → HandledWithin n
    → HandledWithin (if b then m else n)
early_handled true m n h k = h
early_handled false m n h k = k

read-HandledWithin :
    (r : Result RealState)
    → AllWithin r
    → HandledWithin (elim r [ err e ↦ finish (err e) | ret q ↦ go_on q ])
read-HandledWithin (ret q) h = h
read-HandledWithin (err e) h = tt

handle_msg-HandledWithin :
    (seq type : ℕ) (rs : RealState) (nh : Bytes)
    → IsWithin rs
    → HandledWithin (handle_msg seq type rs nh)
unfolding handle_msg
handle_msg-HandledWithin seq type rs nh h =
    let ended = nl_err-IsWithin rs nh h in
    let read = read-HandledWithin (parse_msg type rs nh) (parse_msg-IsWithin type rs nh h) in
    search (early_handled, ended, read, h)

abbrev WalkWithin : Walk → Type 0
WalkWithin (returned r) = AllWithin r
WalkWithin (walked b r) = IsWithin r

msg_loop-WalkWithin :
    (fuel seq type : ℕ) (rs : RealState) (rem : ℕ) (nh : Bytes)
    → IsWithin rs
    → WalkWithin (msg_loop fuel seq type rs rem nh)
unfolding msg_loop
msg_loop-WalkWithin zero seq type rs rem nh h = h
msg_loop-WalkWithin (suc fuel) seq type rs rem nh h = elim (Bool-cases (nlmsg_ok rem nh)) [
  | inr n ↦ rw (n, msg_loop) h
  | inl y ↦
      let safe = handle_msg-HandledWithin seq type rs nh h in
      elim (Handled-cases (handle_msg seq type rs nh)) [
        | inr (r, e) ↦ rw (y, e, msg_loop) (subst HandledWithin e safe)
        | inl (r, e) ↦
            let kept : IsWithin r = subst HandledWithin e safe in
            elim (Bool-cases (leb (align4 (u32 0 nh)) rem)) [
              | inr n ↦ rw (y, e, n, msg_loop) kept
              | inl t ↦
                  rw (y, e, t, msg_loop)
                    (msg_loop-WalkWithin fuel seq type r (rem - align4 (u32 0 nh))
                      (drop (align4 (u32 0 nh)) nh) kept)
            ]
      ]
]

abbrev Dumped : Type 0
Dumped = Option (Result RealState × List Recv)

abbrev DumpWithin : Dumped → Type 0
DumpWithin none = Unit
DumpWithin (some (r, more)) = AllWithin r

pub Walk-cases :
    (w : Walk)
    → ((r : Result RealState) × (w ≡ returned r))
      ⊎ ((b : Bool) × (r : RealState) × (w ≡ walked b r))
Walk-cases (returned r) = inl (r, refl)
Walk-cases (walked b r) = inr (b, r, refl)

recv_dump-DumpWithin :
    (seq type : ℕ) (rs : RealState) (more : List Recv)
    → IsWithin rs
    → DumpWithin (recv_dump seq type rs more)
unfolding recv_dump
recv_dump-DumpWithin seq type rs [] h = tt
recv_dump-DumpWithin seq type rs (interrupted ∷ more) h = recv_dump-DumpWithin seq type rs more h
recv_dump-DumpWithin seq type rs (failed e ∷ more) h = tt
recv_dump-DumpWithin seq type rs (received zero buf ∷ more) h = tt
recv_dump-DumpWithin seq type rs (received (suc n) buf ∷ more) h =
    let safe = msg_loop-WalkWithin (suc n) seq type rs (suc n) buf h in
    elim (Walk-cases (msg_loop (suc n) seq type rs (suc n) buf)) [
      | inl (r, e) ↦ rw (e, recv_dump) (subst WalkWithin e safe)
      | inr (true, r, e) ↦
          rw (e, recv_dump) (recv_dump-DumpWithin seq type r more (subst WalkWithin e safe))
      | inr (false, r, e) ↦ rw (e, recv_dump) tt
    ]

dump-DumpWithin :
    (host : NlHost) (get : ℕ) (body : Bytes) (seq type : ℕ) (rs : RealState) (more : List Recv)
    → IsWithin rs
    → DumpWithin (dump host get body seq type rs more)
unfolding dump
dump-DumpWithin host get body seq type rs more h = elim (Result-cases (nl_send host get body seq)) [
  | inl (e, f) ↦ rw (f, dump) tt
  | inr (t, f) ↦ rw (f, dump) (recv_dump-DumpWithin seq type rs more h)
]

next_dump-DumpWithin :
    (d : Dumped) (k : RealState → List Recv → Dumped)
    → ((r : RealState) (more : List Recv) → IsWithin r → DumpWithin (k r more))
    → DumpWithin d
    → DumpWithin (next_dump d k)
unfolding next_dump
next_dump-DumpWithin none k f h = tt
next_dump-DumpWithin (some (err e, more)) k f h = tt
next_dump-DumpWithin (some (ret r, more)) k f h = f r more h

-- The three dumps of `nl_load_state`.
abbrev dumps : NlHost → Dumped
dumps host =
    next_dump (next_dump (dump_links host 0 empty_real host.receives) (dump_addr4 host 1))
      (dump_route4 host 2)

dumps-DumpWithin : (host : NlHost) → DumpWithin (dumps host)
unfolding dump_links dump_addr4 dump_route4
dumps-DumpWithin host =
    let none_yet : IsWithin empty_real = record {
      ifaces = omega arith;
      addr4 = omega arith;
      route4 = omega arith;
      vxlan = omega arith;
      vlan = omega arith;
    } in
    let links = dump-DumpWithin host 18 (0 ∷ []) 1 16 empty_real host.receives none_yet in
    next_dump-DumpWithin
      (next_dump (dump_links host 0 empty_real host.receives) (dump_addr4 host 1))
      (dump_route4 host 2)
      (λ r more. dump-DumpWithin host 26 (2 ∷ 0 ∷ 0 ∷ 0 ∷ 254 ∷ zeros 7) 3 24 r more)
      (next_dump-DumpWithin (dump_links host 0 empty_real host.receives) (dump_addr4 host 1)
        (λ r more. dump-DumpWithin host 22 (2 ∷ zeros 7) 2 20 r more) links)

-- A snapshot that `nl_load_state` gives has at most as many links, addresses, routes, VXLAN and VLAN
-- links as the arrays of state.h have room for, whatever the socket gave.
pub nl_load_state-IsWithin :
    (host : NlHost) (rs : RealState) (closed : List ℕ)
    → nl_load_state host ≡ some (ret rs, closed)
    → IsWithin rs
unfolding nl_load_state
nl_load_state-IsWithin host rs closed h = elim (Result-cases (nl_open host).0) [
  | inl (e, f) ↦ cc (rw (f, nl_load_state) at h)
  | inr (fd, f) ↦ elim (Option-cases (dumps host)) [
    | inl w ↦ cc (rw (f, w, nl_load_state) at h)
    | inr ((r, more), w) ↦
        let same : r ≡ ret rs = cc (rw (f, w, nl_load_state) at h) in
        let safe : DumpWithin (some (r, more)) = subst DumpWithin w (dumps-DumpWithin host) in
        Holds-ret IsWithin r safe same
  ]
]

-- Once the socket is there, every return of `nl_load_state`, with the snapshot or with an error, comes
-- behind the closing of this descriptor, once, and of no other.
pub nl_load_state-closed :
    (host : NlHost) (fd : ℕ) (r : Result RealState) (closed : List ℕ)
    → host.socket ≡ ret fd
    → nl_load_state host ≡ some (r, closed)
    → closed ≡ fd ∷ []
unfolding nl_load_state nl_open
nl_load_state-closed host fd r closed s h = elim (Option-cases host.bind) [
  | inr (e, b) ↦ cc (rw (s, b, nl_load_state, nl_open) at h)
  | inl b ↦ elim (Option-cases (dumps host)) [
    | inl w ↦ cc (rw (s, b, w, nl_load_state, nl_open) at h)
    | inr ((q, more), w) ↦ cc (rw (s, b, w, nl_load_state, nl_open) at h)
  ]
]
