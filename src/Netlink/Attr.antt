-- ===== src/Netlink/Attr.antt =====
-- netlink.c: numbers and attributes in a received buffer, `parse_rtattr`. A pointer into the buffer
-- is the list of the bytes from there to the buffer's end. Numbers stand in the host's byte order,
-- little-endian here. The sizes and numbers are those of linux/netlink.h and linux/rtnetlink.h.
use netrec.Prelude.{
  ℕ, zero, suc, ◌+◌, ◌-◌, ◌*◌, ◌/◌, ◌%◌, ◌^◌, Bool, ◌&&◌, Option, none, some, [], ◌∷◌, ◌++◌, Bytes,
  ◌==◌, ltb, leb, if◌then◌else◌, ℤ, pos, negsuc,
}

-- Behind the buffer's end: 0.
abbrev pub byte_at : ℕ → Bytes → ℕ
byte_at _ [] = 0
byte_at zero (b ∷ _) = b
byte_at (suc n) (_ ∷ bs) = byte_at n bs

-- The pointer, moved on.
abbrev pub drop : ℕ → Bytes → Bytes
drop zero bs = bs
drop (suc n) [] = []
drop (suc n) (_ ∷ bs) = drop n bs

-- `*(uint16_t *)(p + n)` and `*(uint32_t *)(p + n)`
abbrev pub u16 : ℕ → Bytes → ℕ
u16 n p = byte_at n p + byte_at (n + 1) p * 256

abbrev pub u32 : ℕ → Bytes → ℕ
u32 n p = u16 n p + u16 (n + 2) p * 65536

-- The same numbers, written.
abbrev pub put16 : ℕ → Bytes
put16 n = n % 256 ∷ n / 256 % 256 ∷ []

abbrev pub put32 : ℕ → Bytes
put32 n = put16 (n % 65536) ++ put16 (n / 65536)

-- A `uint32_t` stored in an `int`.
unfoldable pub int32 : ℕ → ℤ
int32 n = if ltb n (2 ^ 31) then pos n else negsuc (2 ^ 32 - 1 - n)

-- `RTA_ALIGN` and `NLMSG_ALIGN`
abbrev pub align4 : ℕ → ℕ
align4 n = (n + 3) / 4 * 4

-- `struct rtattr`, with `RTA_DATA`.
pub record Rtattr : Type 0 where
  pub rta_len : ℕ
  pub rta_type : ℕ
  pub content : Bytes

-- `RTA_PAYLOAD`
abbrev pub payload : Rtattr → ℕ
payload a = a.rta_len - 4

abbrev pub attr_at : Bytes → Rtattr
attr_at p = record { rta_len = u16 0 p; rta_type = u16 2 p; content = drop 4 p }

-- `struct rtattr *tb[max + 1]`, as what stands at an index.
abbrev pub Table : Type 0
Table = ℕ → Option Rtattr

-- `memset(tb, 0, ...)`
abbrev pub no_attrs : Table
no_attrs _ = none

-- `RTA_OK(rta, len)`
abbrev pub rta_ok : ℕ → Bytes → Bool
rta_ok len p = leb 4 len && leb 4 (u16 0 p) && leb (u16 0 p) len

-- One attribute of the loop: `NLA_TYPE_MASK` leaves the low 14 bits.
unfoldable pub put_attr : ℕ → Table → Bytes → Table
put_attr max tb p =
    if leb (u16 2 p % 2 ^ 14) max
    then (λ i. if i == u16 2 p % 2 ^ 14 then some (attr_at p) else tb i)
    else tb

-- The loop of `parse_rtattr`. Where the aligned length is more than `len`, the code's `len` is
-- negative behind it and the loop ends; here it is 0, and it ends as well.
unfoldable pub attr_loop : ℕ → ℕ → Table → ℕ → Bytes → Table
unfolding put_attr
attr_loop zero max tb len p = tb
attr_loop (suc fuel) max tb len p =
    let step = align4 (u16 0 p) in
    let rest = attr_loop fuel max (put_attr max tb p) (len - step) (drop step p) in
    if rta_ok len p then rest else tb

unfoldable pub parse_rtattr : ℕ → Bytes → ℕ → Table
unfolding attr_loop
parse_rtattr max p len = attr_loop len max no_attrs len p
