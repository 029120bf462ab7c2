-- ===== src/Netlink/Dump.antt =====
-- netlink.c: the socket, the requests for a dump and the reading of the answers. What the socket
-- calls give is a parameter; `receives` is what the calls of `recv` give one after the other, and a
-- `recv` behind the last of them waits.
use netrec.Prelude.{
  ℕ, zero, suc, ◌+◌, ◌-◌, Bool, true, false, not, Option, none, some, List, [], ◌∷◌, ◌++◌, Bytes,
  length, ◌==◌, ltb, leb, ◌&&◌, if◌then◌else◌, Errno, given, Result, ret, err, einval, eio,
}
use netrec.State.{RealState}
use netrec.Netlink.Attr.{drop, u16, u32, int32, align4, put16, put32}
use netrec.Netlink.Messages.{parse_link_msg, parse_addr_msg, parse_route_msg}

-- A call of `recv`: `EINTR`, another error, or the number of bytes, with the buffer behind the call.
pub data Recv : Type 0 where
  interrupted : Recv
  failed : Errno → Recv
  received : ℕ → Bytes → Recv

pub record NlHost : Type 0 where
  pub socket : Result ℕ
  pub bind : Option Errno
  pub sendto : Bytes → Result ℕ
  pub receives : List Recv

-- The descriptor or the error, and the descriptors closed on the way.
unfoldable pub nl_open : NlHost → Result ℕ × List ℕ
nl_open host = elim host.socket [
  | err e ↦ (err e, [])
  | ret fd ↦ elim host.bind [ none ↦ (ret fd, []) | some e ↦ (err e, fd ∷ []) ]
]

-- `struct nlmsghdr` with NLM_F_REQUEST | NLM_F_DUMP, and the body.
unfoldable pub request : ℕ → Bytes → ℕ → Bytes
request type body seq =
    put32 (16 + length body) ++ put16 type ++ put16 769 ++ put32 seq ++ put32 0 ++ body

unfoldable pub nl_send : NlHost → ℕ → Bytes → ℕ → Result {0} Unit
unfolding request
nl_send host type body seq =
    if ltb 256 (align4 (16 + length body))
    then err einval
    else elim (host.sendto (request type body seq)) [
      | err e ↦ err e
      | ret n ↦ if n == 16 + length body then ret tt else err eio
    ]

-- A `struct nlmsgerr` has 20 bytes. Its `error` 0 ends the dump as `NLMSG_DONE` does.
unfoldable pub nl_err : RealState → Bytes → Result RealState
unfolding int32
nl_err rs nh =
    if ltb (u32 0 nh) 36
    then err eio
    else if u32 16 nh == 0
    then ret rs
    else err (given (int32 (u32 16 nh)))

-- RTM_NEWLINK 16, RTM_NEWADDR 20, RTM_NEWROUTE 24.
unfoldable pub parse_msg : ℕ → RealState → Bytes → Result RealState
unfolding parse_link_msg parse_addr_msg parse_route_msg
parse_msg type rs nh =
    if type == 16
    then parse_link_msg rs nh
    else if type == 20
    then parse_addr_msg rs nh
    else if type == 24
    then parse_route_msg rs nh
    else err einval

-- A message is skipped or read, or it ends the dump.
pub data Handled : Type 0 where
  go_on : RealState → Handled
  finish : Result RealState → Handled

-- NLMSG_ERROR 2, NLMSG_DONE 3.
unfoldable pub handle_msg : ℕ → ℕ → RealState → Bytes → Handled
unfolding nl_err parse_msg
handle_msg seq type rs nh =
    if not (u32 8 nh == seq)
    then go_on rs
    else if u16 4 nh == 3
    then finish (ret rs)
    else if u16 4 nh == 2
    then finish (nl_err rs nh)
    else if not (u16 4 nh == type)
    then go_on rs
    else elim (parse_msg type rs nh) [ err e ↦ finish (err e) | ret r ↦ go_on r ]

-- What the messages of a buffer come to: the dump's end, or whether all bytes were messages.
pub data Walk : Type 0 where
  returned : Result RealState → Walk
  walked : Bool → RealState → Walk

-- `NLMSG_OK(nh, rem)`
abbrev pub nlmsg_ok : ℕ → Bytes → Bool
nlmsg_ok rem nh = leb 16 rem && leb 16 (u32 0 nh) && leb (u32 0 nh) rem

-- The inner loop of `recv_dump`. A last message whose aligned length is more than `rem` leaves a
-- negative `rem`, which ends the loop and is not 0.
unfoldable pub msg_loop : ℕ → ℕ → ℕ → RealState → ℕ → Bytes → Walk
unfolding handle_msg
msg_loop zero seq type rs rem nh = walked (rem == 0) rs
msg_loop (suc fuel) seq type rs rem nh =
    let step = align4 (u32 0 nh) in
    elim (nlmsg_ok rem nh) [
      | false ↦ walked (rem == 0) rs
      | true ↦ elim (handle_msg seq type rs nh) [
        | finish r ↦ returned r
        | go_on r ↦ elim (leb step rem) [
          | true ↦ msg_loop fuel seq type r (rem - step) (drop step nh)
          | false ↦ walked false r
        ]
      ]
    ]

-- What `recv_dump` returns, with the receives that are left; `none` while it waits.
unfoldable pub recv_dump : ℕ → ℕ → RealState → List Recv → Option (Result RealState × List Recv)
unfolding msg_loop
recv_dump seq type rs [] = none
recv_dump seq type rs (interrupted ∷ more) = recv_dump seq type rs more
recv_dump seq type rs (failed e ∷ more) = some (err e, more)
recv_dump seq type rs (received zero buf ∷ more) = some (err eio, more)
recv_dump seq type rs (received (suc n) buf ∷ more) =
    elim (msg_loop (suc n) seq type rs (suc n) buf) [
      | returned r ↦ some (r, more)
      | walked true r ↦ recv_dump seq type r more
      | walked false r ↦ some (err eio, more)
    ]

-- `dump_links`, `dump_addr4` and `dump_route4`: the request and its answers.
unfoldable pub dump :
    NlHost → ℕ → Bytes → ℕ → ℕ → RealState → List Recv → Option (Result RealState × List Recv)
unfolding nl_send recv_dump
dump host get body seq type rs more = elim (nl_send host get body seq) [
  | err e ↦ some (err e, more)
  | ret _ ↦ recv_dump seq type rs more
]

-- RTM_GETLINK 18 with a `struct rtgenmsg` of AF_UNSPEC.
unfoldable pub dump_links :
    NlHost → ℕ → RealState → List Recv → Option (Result RealState × List Recv)
unfolding dump
dump_links host seq = dump host 18 (0 ∷ []) (seq + 1) 16

-- RTM_GETADDR 22 with a `struct ifaddrmsg` of AF_INET.
unfoldable pub dump_addr4 :
    NlHost → ℕ → RealState → List Recv → Option (Result RealState × List Recv)
unfolding dump
dump_addr4 host seq = dump host 22 (2 ∷ 0 ∷ 0 ∷ 0 ∷ 0 ∷ 0 ∷ 0 ∷ 0 ∷ []) (seq + 1) 20

-- RTM_GETROUTE 26 with a `struct rtmsg` of AF_INET and the main table.
unfoldable pub dump_route4 :
    NlHost → ℕ → RealState → List Recv → Option (Result RealState × List Recv)
unfolding dump
dump_route4 host seq =
    dump host 26 (2 ∷ 0 ∷ 0 ∷ 0 ∷ 254 ∷ 0 ∷ 0 ∷ 0 ∷ 0 ∷ 0 ∷ 0 ∷ 0 ∷ []) (seq + 1) 24

-- `if (rc) goto out;`
unfoldable pub next_dump :
    Option (Result RealState × List Recv)
    → (RealState → List Recv → Option (Result RealState × List Recv))
    → Option (Result RealState × List Recv)
next_dump none k = none
next_dump (some (err e, more)) k = some (err e, more)
next_dump (some (ret rs, more)) k = k rs more

abbrev pub empty_real : RealState
empty_real = record { ifaces = []; addr4 = []; route4 = []; dns4 = []; vxlan = []; vlan = [] }

-- The snapshot or the error, and the descriptors closed; `none` while it waits.
unfoldable pub nl_load_state : NlHost → Option (Result RealState × List ℕ)
unfolding nl_open dump_links dump_addr4 dump_route4 next_dump
nl_load_state host = elim (nl_open host).0 [
  | err e ↦ some (err e, (nl_open host).1)
  | ret fd ↦
      elim (next_dump (next_dump (dump_links host 0 empty_real host.receives) (dump_addr4 host 1))
        (dump_route4 host 2)) [ none ↦ none | some (r, more) ↦ some (r, fd ∷ []) ]
]
