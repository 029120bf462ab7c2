-- ===== src/Netlink/Unroll.antt =====
-- netlink.c: the loops over the attributes and over the messages, without their fuel.
use netrec.Prelude.{
  ℕ, zero, suc, ◌-◌, ◌≤◌, ◌≡◌, refl, inl, inr, ◌⊎◌, Bool-cases, false, arith, Bytes, leb,
  if◌then◌else◌,
}
use netrec.State.{RealState}
use netrec.Netlink.Attr.{drop, u16, u32, align4, rta_ok, Table, put_attr, attr_loop}
use netrec.Netlink.Dump.{handle_msg, Handled, go_on, finish, nlmsg_ok, msg_loop}

-- Rounds beyond the bytes change nothing.
attr_loop-enough :
    (f g max : ℕ) (tb : Table) (len : ℕ) (p : Bytes)
    → len ≤ f
    → len ≤ g
    → attr_loop f max tb len p ≡ attr_loop g max tb len p
unfolding attr_loop
attr_loop-enough zero zero max tb len p h k = refl
attr_loop-enough zero (suc g) max tb len p h k =
    let stop : rta_ok len p ≡ false = ground arith in rw stop refl
attr_loop-enough (suc f) zero max tb len p h k =
    let stop : rta_ok len p ≡ false = ground arith in rw stop refl
attr_loop-enough (suc f) (suc g) max tb len p h k = elim (Bool-cases (rta_ok len p)) [
  | inl y ↦
      let step = align4 (u16 0 p) in
      let less : len - step ≤ f × (len - step ≤ g) = ground arith in
      rw y (attr_loop-enough f g max (put_attr max tb p) (len - step) (drop step p) less.0 less.1)
  | inr n ↦ rw n refl
]

-- The loop over the attributes, started with as many rounds as there are bytes, does what the C loop
-- says: while there is an attribute, it is put into the table and the loop goes on behind it.
pub attr_loop-unroll :
    (max : ℕ) (tb : Table) (len : ℕ) (p : Bytes)
    → attr_loop len max tb len p ≡ (
        if rta_ok len p
        then attr_loop
            (len - align4 (u16 0 p))
            max
            (put_attr max tb p)
            (len - align4 (u16 0 p))
            (drop (align4 (u16 0 p)) p)
        else tb)
unfolding attr_loop
attr_loop-unroll max tb zero p = refl
attr_loop-unroll max tb (suc n) p = elim (Bool-cases (rta_ok (suc n) p)) [
  | inl y ↦
      let step = align4 (u16 0 p) in
      let less : suc n - step ≤ n = ground arith in
      rw y (
        attr_loop-enough n (suc n - step) max (put_attr max tb p) (suc n - step) (drop step p) less
          (omega arith))
  | inr n ↦ rw n refl
]

pub Handled-cases : (m : Handled) → ((r : RealState) × (m ≡ go_on r)) ⊎ ((r : _) × (m ≡ finish r))
Handled-cases (go_on r) = inl (r, refl)
Handled-cases (finish r) = inr (r, refl)

-- Rounds of the loop over the messages beyond the bytes that are left change nothing.
msg_loop-enough :
    (f g seq type : ℕ) (rs : RealState) (rem : ℕ) (nh : Bytes)
    → rem ≤ f
    → rem ≤ g
    → msg_loop f seq type rs rem nh ≡ msg_loop g seq type rs rem nh
unfolding msg_loop
msg_loop-enough zero zero seq type rs rem nh h k = refl
msg_loop-enough zero (suc g) seq type rs rem nh h k =
    let stop : nlmsg_ok rem nh ≡ false = ground arith in rw (stop, msg_loop) refl
msg_loop-enough (suc f) zero seq type rs rem nh h k =
    let stop : nlmsg_ok rem nh ≡ false = ground arith in rw (stop, msg_loop) refl
msg_loop-enough (suc f) (suc g) seq type rs rem nh h k = elim (Bool-cases (nlmsg_ok rem nh)) [
  | inr n ↦ rw (n, msg_loop) refl
  | inl y ↦ elim (Handled-cases (handle_msg seq type rs nh)) [
    | inr (r, e) ↦ rw (y, e, msg_loop) refl
    | inl (r, e) ↦ elim (Bool-cases (leb (align4 (u32 0 nh)) rem)) [
      | inr n ↦ rw (y, e, n, msg_loop) refl
      | inl t ↦
          let step = align4 (u32 0 nh) in
          let less : rem - step ≤ f × (rem - step ≤ g) = ground arith in
          rw (y, e, t, msg_loop)
            (msg_loop-enough f g seq type r (rem - step) (drop step nh) less.0 less.1)
    ]
  ]
]
