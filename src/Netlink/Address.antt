-- ===== src/Netlink/Address.antt =====
-- netlink.c: an address message as the kernel writes it, and what `parse_addr_msg` reads of it.
use netrec.Prelude.{
  ℕ, zero, suc, ◌+◌, ◌-◌, ◌^◌, ◌≤◌, ◌<◌, ◌≡◌, refl, sym, ◌∙◌, ap, true, false, Option, none, some,
  List, [], ◌∷◌, ◌++◌, arith, Bytes, length, take, All, leb, ltb, ◌==◌, ret,
}
use netrec.State.{RealState, nr_addr4_max}
use netrec.Netlink.Attr.{byte_at, drop, u32, int32, put16, put32, Rtattr, payload, parse_rtattr}
use netrec.Netlink.Messages.{with_payload, first_of, addr_of, parse_addr_msg}
use netrec.Netlink.Encode.{
  Attr, encode_attrs, IsAttr, last_of, read_attr, parse_rtattr-encode_attrs,
}

-- Header, `struct ifaddrmsg` of AF_INET, attributes, and what stands behind them in the buffer.
abbrev pub addr_msg : ℕ → ℕ → ℕ → ℕ → ℕ → ℕ → ℕ → List Attr → Bytes → Bytes
addr_msg type seq port prefix flags scope index xs more =
    put32 (24 + length (encode_attrs xs))
    ++ put16 type
    ++ put16 2
    ++ put32 seq
    ++ put32 port
    ++ 2 ∷ prefix ∷ flags ∷ scope ∷ []
    ++ put32 index
    ++ (encode_attrs xs ++ more)

pub byte_at-take :
    (n i : ℕ) (p : Bytes) → i < length (take n p) → byte_at i (take n p) ≡ byte_at i p
byte_at-take zero i p h = absurd (omega arith)
byte_at-take (suc n) i [] h = refl
byte_at-take (suc n) zero (b ∷ p) h = refl
byte_at-take (suc n) (suc i) (b ∷ p) h = byte_at-take n i p (omega arith)

pub length-take_le : (n : ℕ) (p : Bytes) → length (take n p) ≤ n
length-take_le zero p = omega arith
length-take_le (suc n) [] = omega arith
length-take_le (suc n) (b ∷ p) = let ih = length-take_le n p in omega arith

u32-put32 : (n : ℕ) → n < 2 ^ 32 → u32 0 (put32 n) ≡ n
u32-put32 n h = omega arith

-- The four bytes of an attribute, read as a number.
pub four_bytes :
    (o : Option Rtattr) (n : ℕ)
    → n < 2 ^ 32
    → read_attr o ≡ some (put32 n)
    → (p : Bytes) × (with_payload 4 o ≡ some p) × (u32 0 p ≡ n)
four_bytes none n h e = cc e
four_bytes (some a) n h e =
    let same : take (payload a) a.content ≡ put32 n = cc e in
    let four : length (take (payload a) a.content) ≡ 4 = rw same refl in
    let enough : leb 4 (payload a) ≡ true =
      let few = length-take_le (payload a) a.content in ground arith in
    let at = λ (i : ℕ) (h : i < 4).
      sym (byte_at-take (payload a) i a.content (rw four h)) ∙ ap (byte_at i) same in
    (
      a.content,
      rw enough refl,
      rw (at 0 (omega arith), at 1 (omega arith), at 2 (omega arith), at 3 (omega arith))
          (u32-put32 n h),
    )

first_of-read_attr :
    (a b : Option Rtattr) → read_attr (first_of a b) ≡ first_of (read_attr a) (read_attr b)
first_of-read_attr none b = refl
first_of-read_attr (some a) b = refl

-- The message passes every test.
parse_addr_msg-adds :
    (rs : RealState) (nh body p : Bytes) (len : ℕ)
    → ltb (u32 0 nh) 24 ≡ false
    → (byte_at 0 (drop 16 nh) == 2) ≡ true
    → drop 8 (drop 16 nh) ≡ body
    → u32 0 nh - 24 ≡ len
    → with_payload 4 (first_of (parse_rtattr 11 body len 2) (parse_rtattr 11 body len 1)) ≡ some p
    → leb nr_addr4_max (length rs.addr4) ≡ false
    → parse_addr_msg rs nh ≡ ret (record rs { addr4 = rs.addr4 ++ addr_of (drop 16 nh) p ∷ [] })
unfolding parse_addr_msg
parse_addr_msg-adds rs nh body p len long inet e f found free =
    rw (long, inet, e, f, found, free) refl

-- A message of an IPv4 address adds exactly this address, under the link and with the prefix that the
-- message names: the one of its last IFA_LOCAL, or of its last IFA_ADDRESS if it has no IFA_LOCAL,
-- while there is room.
pub parse_addr_msg-addr_msg :
    (rs : RealState) (type seq port prefix flags scope index addr : ℕ) (xs : List Attr)
    (more : Bytes)
    → 24 + length (encode_attrs xs) < 2 ^ 32
    → index < 2 ^ 32
    → addr < 2 ^ 32
    → All IsAttr xs
    → first_of (last_of 2 xs) (last_of 1 xs) ≡ some (put32 addr)
    → length rs.addr4 < nr_addr4_max
    → parse_addr_msg rs (addr_msg type seq port prefix flags scope index xs more)
      ≡ ret (record rs {
        addr4 = rs.addr4 ++ record { ifindex = int32 index; addr = addr; prefix = prefix } ∷ [];
      })
unfolding parse_addr_msg addr_of
parse_addr_msg-addr_msg rs type seq port prefix flags scope index addr xs more size hi ha good src
      room =
    let body = encode_attrs xs ++ more in
    let nh = addr_msg type seq port prefix flags scope index xs more in
    let len : u32 0 nh ≡ 24 + length (encode_attrs xs) = omega (arith, size) in
    let left : u32 0 nh - 24 ≡ length (encode_attrs xs) = rw len (omega arith) in
    let long : ltb (u32 0 nh) 24 ≡ false = rw len (ground arith) in
    let tb = parse_rtattr 11 body (length (encode_attrs xs)) in
    let read : read_attr (first_of (tb 2) (tb 1)) ≡ some (put32 addr) =
      first_of-read_attr (tb 2) (tb 1)
      ∙ rw
          (
            parse_rtattr-encode_attrs 11 2 xs more good (omega arith),
            parse_rtattr-encode_attrs 11 1 xs more good (omega arith),
          )
          src in
    let (p, found, value) = four_bytes (first_of (tb 2) (tb 1)) addr ha read in
    let free : leb nr_addr4_max (length rs.addr4) ≡ false = ground arith in
    let link : u32 4 (drop 16 nh) ≡ index = omega (arith, hi) in
    let entry : addr_of (drop 16 nh) p
        ≡ record { ifindex = int32 index; addr = addr; prefix = prefix } =
      rw (addr_of, link, value) refl in
    parse_addr_msg-adds rs nh body p (length (encode_attrs xs)) long refl refl left found free
    ∙ ap (λ a. ret (record rs { addr4 = rs.addr4 ++ a ∷ [] })) entry
