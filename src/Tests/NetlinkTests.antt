-- ===== src/Tests/NetlinkTests.antt =====
-- The theorems on netlink.c at concrete inputs, and dumps that are read.
use netrec.Prelude.{
  ℕ, ◌+◌, ◌≡◌, refl, true, false, none, some, List, [], ◌∷◌, ◌++◌, arith, Bytes, codes, length, pos,
  Result, ret,
}
use netrec.State.Resolv.{rs_load_resolv_conf}
use netrec.Run.{System, load_real}
use netrec.Run.Snapshot.{IsWhole, load_real-IsWhole}
use netrec.Tests.RunTests
use netrec.State.{RealState}
use netrec.Netlink.Attr.{put16, put32, parse_rtattr, int32}
use netrec.Netlink.Messages.{parse_link_msg, parse_addr_msg}
use netrec.Netlink.Dump.{NlHost, Recv, interrupted, received, nl_load_state, recv_dump, empty_real}
use netrec.Netlink.Encode.{Attr, encode_attrs, read_attr, parse_rtattr-encode_attrs}
use netrec.Netlink.Returns.{recv_dump-StartsDone}
use netrec.Netlink.Link.{link_msg, parse_link_msg-link_msg}
use netrec.Netlink.Address.{addr_msg, parse_addr_msg-addr_msg}
use netrec.Netlink.Limits.{nl_load_state-closed}

abbrev attr : ℕ → Bytes → Attr
attr n body = record { number = n; body = body }

-- A name, then an MTU with the flag for nested attributes, then another name.
abbrev two_names : List Attr
two_names =
    attr 3 (codes "lo" ++ 0 ∷ []) ∷ attr 32772 (put32 1500) ∷ attr 3 (codes "eth0" ++ 0 ∷ []) ∷ []

parse_rtattr-encode_attrs_example :
    read_attr
      (parse_rtattr 61 (encode_attrs two_names ++ 7 ∷ []) (length (encode_attrs two_names)) 3)
    ≡ some (codes "eth0" ++ 0 ∷ [])
unfolding codes
parse_rtattr-encode_attrs_example =
    parse_rtattr-encode_attrs 61 3 two_names (7 ∷ [])
      ((omega arith, omega arith), ((omega arith, omega arith), ((omega arith, omega arith), tt)))
      (omega arith)

abbrev message : ℕ → ℕ → Bytes → Bytes
message type seq body =
    put32 (16 + length body) ++ put16 type ++ put16 2 ++ put32 seq ++ put32 0 ++ body

abbrev done : ℕ → Bytes
done seq = message 3 seq (put32 0)

-- A link of index 2, up, with a name; an address for it.
abbrev link_body : Bytes
link_body =
    0 ∷ 0 ∷ put16 1
    ++ put32 2
    ++ put32 1
    ++ put32 0
    ++ encode_attrs (attr 3 (codes "br0" ++ 0 ∷ []) ∷ attr 33 (1 ∷ []) ∷ [])

abbrev addr_body : Bytes
addr_body = 2 ∷ 24 ∷ 0 ∷ 0 ∷ put32 2 ++ encode_attrs (attr 2 (10 ∷ 0 ∷ 0 ∷ 1 ∷ []) ∷ [])

abbrev packet : Bytes → Recv
packet bytes = received (length bytes) bytes

abbrev host : NlHost
host = record {
  socket = ret 5;
  bind = none;
  sendto = λ bytes. ret (length bytes);
  receives =
      packet (message 16 1 link_body ++ done 1)
      ∷ interrupted
      ∷ packet (message 20 2 addr_body)
      ∷ packet (done 2)
      ∷ packet (done 3)
      ∷ [];
}

abbrev read_host : RealState
read_host = record empty_real {
  ifaces =
      record {
        name = codes "br0";
        kind = [];
        ifindex = pos 2;
        flags = 1;
        has_carrier = true;
        carrier = 1;
        master = pos 0;
        link = pos 0;
        has_link = false;
      }
      ∷ [];
  addr4 = record { ifindex = pos 2; addr = 10 + 16777216; prefix = 24 } ∷ [];
}

host-read : nl_load_state host ≡ some (ret read_host, 5 ∷ [])
unfolding nl_load_state codes int32
host-read = refl

nl_load_state-closed_example : ◌≡◌ {A = List ℕ} (5 ∷ []) (5 ∷ [])
nl_load_state-closed_example = nl_load_state-closed host 5 (ret read_host) (5 ∷ []) refl host-read

parse_addr_msg-addr_msg_example :
    parse_addr_msg empty_real
      (addr_msg 20 2 0 24 0 0 2 (attr 1 (put32 9) ∷ attr 2 (put32 167772161) ∷ []) (7 ∷ []))
    ≡ ret (record empty_real {
      addr4 = record { ifindex = pos 2; addr = 167772161; prefix = 24 } ∷ [];
    })
unfolding int32
parse_addr_msg-addr_msg_example =
    parse_addr_msg-addr_msg empty_real 20 2 0 24 0 0 2 167772161
      (attr 1 (put32 9) ∷ attr 2 (put32 167772161) ∷ []) (7 ∷ []) (omega arith) (omega arith)
      (omega arith) ((omega arith, omega arith), ((omega arith, omega arith), tt)) refl
      (omega arith)

-- The end of the dump stands behind a packet of another dump.
recv_dump-StartsDone_example :
    (out : Result RealState × List Recv) × (recv_dump 1 16 empty_real
        (interrupted ∷ packet (done 9) ∷ packet (done 1) ∷ [])
      ≡ some out)
recv_dump-StartsDone_example =
    recv_dump-StartsDone 1 16 19 empty_real (done 1) (interrupted ∷ packet (done 9) ∷ []) []
      (record { whole = refl; same_seq = refl; done = refl })

-- The system of the tests of run.c on this kernel.
abbrev system : System
system = record RunTests.host { nl_load_state = λ ran. ret read_host }

system-read : load_real system [] ≡ ret read_host
unfolding load_real rs_load_resolv_conf
system-read = refl

load_real-IsWhole_example : IsWhole read_host
load_real-IsWhole_example =
    load_real-IsWhole system (λ ran. host) [] read_host (λ ran. (5 ∷ [], host-read)) system-read

abbrev bridge_port : List Attr
bridge_port =
    attr 3 (codes "eth0" ++ 0 ∷ [])
    ∷ attr 4 (put32 1500)
    ∷ attr 10 (put32 7)
    ∷ attr 33 (1 ∷ [])
    ∷ []

parse_link_msg-link_msg_example :
    parse_link_msg empty_real (link_msg 16 1 0 1 2 4099 0 bridge_port (9 ∷ []))
    ≡ ret (record empty_real {
      ifaces =
          record {
            name = codes "eth0";
            kind = [];
            ifindex = int32 2;
            flags = 4099;
            has_carrier = true;
            carrier = 1;
            master = int32 7;
            link = pos 0;
            has_link = false;
          }
          ∷ [];
    })
unfolding codes
parse_link_msg-link_msg_example =
    parse_link_msg-link_msg empty_real 16 1 0 1 2 4099 0 7 1 (codes "eth0") bridge_port (9 ∷ [])
      (omega arith) (omega arith) (omega arith) (omega arith) (refl, (refl, (refl, (refl, tt))))
      (omega arith)
      (
        (omega arith, omega arith),
        (
          (omega arith, omega arith),
          ((omega arith, omega arith), ((omega arith, omega arith), tt)),
        ),
      )
      refl refl refl refl refl (omega arith)
