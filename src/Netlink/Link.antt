-- ===== src/Netlink/Link.antt =====
-- netlink.c: a link message as the kernel writes it, and what `parse_link_msg` reads of it.
use netrec.Prelude.{
  ℕ, zero, suc, ◌+◌, ◌-◌, ◌^◌, ◌≤◌, ◌<◌, ◌≡◌, refl, sym, ◌∙◌, ap, inl, inr, Option-cases, true,
  false, Option, none, some, List, [], ◌∷◌, ◌++◌, arith, Bytes, length, take, take-of_le, All, leb,
  ltb, ◌==◌, ret, pos,
}
use netrec.State.{RealState, nr_iface_max, ifnamsiz}
use netrec.Netlink.Attr.{
  byte_at, drop, u32, int32, put16, put32, Rtattr, payload, Table, parse_rtattr,
}
use netrec.Netlink.Messages.{
  c_string, copy_string, with_payload, ifla_max, link_kind, kind_data, iface_of, add_iface,
  add_vxlan, add_vlan, parse_link_msg,
}
use netrec.Netlink.Encode.{
  Attr, encode_attrs, IsAttr, last_of, read_attr, parse_rtattr-encode_attrs,
}
use netrec.Netlink.Address.{four_bytes, byte_at-take, length-take_le}

-- Header, `struct ifinfomsg`, attributes, and what stands behind them in the buffer.
abbrev pub link_msg : ℕ → ℕ → ℕ → ℕ → ℕ → ℕ → ℕ → List Attr → Bytes → Bytes
link_msg type seq port kind index flags change xs more =
    put32 (32 + length (encode_attrs xs))
    ++ put16 type
    ++ put16 2
    ++ put32 seq
    ++ put32 port
    ++ 0 ∷ 0 ∷ []
    ++ put16 kind
    ++ put32 index
    ++ put32 flags
    ++ put32 change
    ++ (encode_attrs xs ++ more)

abbrev pub NoNul : Bytes → Type 0
NoNul = All (λ c. (c == 0) ≡ false)

head_of : {a b : ℕ} {p q : Bytes} → ◌≡◌ {A = Bytes} (a ∷ p) (b ∷ q) → a ≡ b
head_of e = cc e

c_string-take :
    (n : ℕ) (p name : Bytes) → NoNul name → take n p ≡ name ++ 0 ∷ [] → c_string p ≡ name
c_string-take zero p [] h e = cc e
c_string-take zero p (c ∷ cs) h e = cc e
c_string-take (suc n) [] [] h e = cc e
c_string-take (suc n) [] (c ∷ cs) h e = cc e
c_string-take (suc n) (b ∷ p) [] h e = let nul : b ≡ 0 = head_of e in rw nul refl
c_string-take (suc n) (b ∷ p) (c ∷ cs) h e =
    let same : b ≡ c = cc e in
    let rest : take n p ≡ cs ++ 0 ∷ [] = cc e in rw (same, h.0, c_string-take n p cs h.1 rest) refl

-- The name of an attribute.
name_read :
    (o : Option Rtattr) (name : Bytes)
    → NoNul name
    → length name < ifnamsiz
    → read_attr o ≡ some (name ++ 0 ∷ [])
    → (a : Rtattr) × (o ≡ some a) × (copy_string ifnamsiz a.content ≡ name)
name_read none name h k e = cc e
name_read (some a) name h k e =
    let same : take (payload a) a.content ≡ name ++ 0 ∷ [] = cc e in
    (
      a,
      refl,
      rw (c_string-take (payload a) a.content name h same) (take-of_le 15 name (omega arith)),
    )

-- The byte of an attribute.
one_byte :
    (o : Option Rtattr) (c : ℕ)
    → read_attr o ≡ some (c ∷ [])
    → (p : Bytes) × (with_payload 1 o ≡ some p) × (byte_at 0 p ≡ c)
one_byte none c e = cc e
one_byte (some a) c e =
    let same : take (payload a) a.content ≡ c ∷ [] = cc e in
    let one : length (take (payload a) a.content) ≡ 1 = rw same refl in
    let enough : leb 1 (payload a) ≡ true =
      let few = length-take_le (payload a) a.content in ground arith in
    (
      a.content,
      rw enough refl,
      sym (byte_at-take (payload a) 0 a.content (rw one (omega arith))) ∙ ap (byte_at 0) same,
    )

read_attr-none : (o : Option Rtattr) → read_attr o ≡ none → o ≡ none
read_attr-none none e = refl
read_attr-none (some a) e = cc e

add_iface-adds :
    (rs : RealState) (ifi : Bytes) (tb : Table) (name : Rtattr)
    → tb 3 ≡ some name
    → leb nr_iface_max (length rs.ifaces) ≡ false
    → add_iface rs ifi tb ≡ ret (record rs { ifaces = rs.ifaces ++ iface_of ifi name tb ∷ [] })
unfolding add_iface
add_iface-adds rs ifi tb name named free = rw (named, free, add_iface) refl

add_vxlan-plain :
    (rs : RealState) (ifi : Bytes) (tb : Table) → tb 18 ≡ none → add_vxlan rs ifi tb ≡ ret rs
unfolding add_vxlan kind_data
add_vxlan-plain rs ifi tb plain = elim (Option-cases (tb 3)) [
  | inl e ↦ rw (e, add_vxlan) refl
  | inr (a, e) ↦ rw (e, plain, add_vxlan, kind_data) refl
]

add_vlan-plain :
    (rs : RealState) (ifi : Bytes) (tb : Table) → tb 18 ≡ none → add_vlan rs ifi tb ≡ ret rs
unfolding add_vlan kind_data
add_vlan-plain rs ifi tb plain = elim (Option-cases (tb 3)) [
  | inl e ↦ rw (e, add_vlan) refl
  | inr (a, e) ↦ rw (e, plain, add_vlan, kind_data) refl
]

-- The message passes every test, and is of no kind of its own.
parse_link_msg-adds :
    (rs : RealState) (nh body : Bytes) (len : ℕ) (name : Rtattr)
    → ltb (u32 0 nh) 32 ≡ false
    → drop 16 (drop 16 nh) ≡ body
    → u32 0 nh - 32 ≡ len
    → parse_rtattr ifla_max body len 3 ≡ some name
    → parse_rtattr ifla_max body len 18 ≡ none
    → leb nr_iface_max (length rs.ifaces) ≡ false
    → parse_link_msg rs nh
      ≡ ret (record rs {
        ifaces = rs.ifaces ++ iface_of (drop 16 nh) name (parse_rtattr ifla_max body len) ∷ [];
      })
unfolding parse_link_msg
parse_link_msg-adds rs nh body len name long e f named plain free =
    let ifi = drop 16 nh in
    let tb = parse_rtattr ifla_max body len in
    let added = record rs { ifaces = rs.ifaces ++ iface_of ifi name tb ∷ [] } in
    rw
      (
        long,
        e,
        f,
        add_iface-adds rs ifi tb name named free,
        add_vxlan-plain added ifi tb plain,
        add_vlan-plain added ifi tb plain,
      )
      refl

-- The interface, from what was read of each attribute.
iface_of-read :
    (ifi : Bytes) (a : Rtattr) (tb : Table) (name m c : Bytes) (index flags master carrier : ℕ)
    → copy_string ifnamsiz a.content ≡ name
    → tb 18 ≡ none
    → u32 4 ifi ≡ index
    → u32 8 ifi ≡ flags
    → with_payload 1 (tb 33) ≡ some c
    → byte_at 0 c ≡ carrier
    → with_payload 4 (tb 10) ≡ some m
    → u32 0 m ≡ master
    → tb 5 ≡ none
    → iface_of ifi a tb ≡ record {
      name = name;
      kind = [];
      ifindex = int32 index;
      flags = flags;
      has_carrier = true;
      carrier = carrier;
      master = int32 master;
      link = pos 0;
      has_link = false;
    }
unfolding iface_of link_kind int32
iface_of-read ifi a tb name m c index flags master carrier e1 e2 e3 e4 e5 e6 e7 e8 e9 =
    rw (e1, e2, e3, e4, e5, e6, e7, e8, e9) refl

-- A message of a link with a name of at most 15 bytes, a master and a carrier, and without a kind and a
-- parent, adds exactly
-- this interface, under the index and with the flags that the message names, while there is room; the
-- last attribute of each type counts.
pub parse_link_msg-link_msg :
    (rs : RealState) (type seq port kind index flags change master carrier : ℕ) (name : Bytes)
    (xs : List Attr) (more : Bytes)
    → 32 + length (encode_attrs xs) < 2 ^ 32
    → index < 2 ^ 32
    → flags < 2 ^ 32
    → master < 2 ^ 32
    → NoNul name
    → length name < ifnamsiz
    → All IsAttr xs
    → last_of 3 xs ≡ some (name ++ 0 ∷ [])
    → last_of 5 xs ≡ none
    → last_of 10 xs ≡ some (put32 master)
    → last_of 18 xs ≡ none
    → last_of 33 xs ≡ some (carrier ∷ [])
    → length rs.ifaces < nr_iface_max
    → parse_link_msg rs (link_msg type seq port kind index flags change xs more)
      ≡ ret (record rs {
        ifaces =
            rs.ifaces
            ++ record {
              name = name;
              kind = [];
              ifindex = int32 index;
              flags = flags;
              has_carrier = true;
              carrier = carrier;
              master = int32 master;
              link = pos 0;
              has_link = false;
            }
              ∷ [];
      })
parse_link_msg-link_msg rs type seq port kind index flags change master carrier name xs more size hi
      hf hm clean short good named no_link enslaved plain carried room =
    let body = encode_attrs xs ++ more in
    let nh = link_msg type seq port kind index flags change xs more in
    let len : u32 0 nh ≡ 32 + length (encode_attrs xs) = omega (arith, size) in
    let left : u32 0 nh - 32 ≡ length (encode_attrs xs) = rw len (omega arith) in
    let long : ltb (u32 0 nh) 32 ≡ false = rw len (ground arith) in
    let tb = parse_rtattr ifla_max body (length (encode_attrs xs)) in
    let read = λ (t : ℕ) (h : t ≤ ifla_max). parse_rtattr-encode_attrs ifla_max t xs more good h in
    let (a, at_name, same_name) =
      name_read (tb 3) name clean short (read 3 (omega arith) ∙ named) in
    let (m, at_master, same_master) =
      four_bytes (tb 10) master hm (read 10 (omega arith) ∙ enslaved) in
    let (c, at_carrier, same_carrier) =
      one_byte (tb 33) carrier (read 33 (omega arith) ∙ carried) in
    let no_parent = read_attr-none (tb 5) (read 5 (omega arith) ∙ no_link) in
    let no_kind = read_attr-none (tb 18) (read 18 (omega arith) ∙ plain) in
    let index_read : u32 4 (drop 16 nh) ≡ index = omega (arith, hi) in
    let flags_read : u32 8 (drop 16 nh) ≡ flags = omega (arith, hf) in
    let free : leb nr_iface_max (length rs.ifaces) ≡ false = ground arith in
    parse_link_msg-adds rs nh body (length (encode_attrs xs)) a long refl left at_name no_kind free
    ∙ ap (λ i. ret (record rs { ifaces = rs.ifaces ++ i ∷ [] }))
        (iface_of-read (drop 16 nh) a tb name m c index flags master carrier same_name no_kind
          index_read flags_read at_carrier same_carrier at_master same_master no_parent)
