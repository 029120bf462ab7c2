-- ===== src/State/Resolv.antt =====
-- state.c: `rs_load_resolv_conf`.
pub mod Scan
pub mod Print
use netrec.Prelude.{
  ℕ, zero, suc, ◌-◌, ◌≡◌, refl, inl, inr, Bool-cases, Option-cases, true, false, ◌||◌, Option, none,
  some, List, [], ◌∷◌, ◌++◌, append_assoc, append-nil, Bytes, codes, streq, length, length-append,
  ◌==◌, leb, is_empty, if◌then◌else◌, arith, Result, ret, err, enospc,
}
use netrec.Prelude.Libc.{is_space, skip_space}
use netrec.State.{RealState, nr_dns4_max}

abbrev pub onto_first : ℕ → List Bytes → List Bytes
onto_first c [] = (c ∷ []) ∷ []
onto_first c (l ∷ ls) = (c ∷ l) ∷ ls

-- What `fgets` with `char line[256]` returns, call by call: a line with its newline, or 255 bytes of
-- it. `room` is what the current call may still store.
unfoldable pub fgets_loop : ℕ → Bytes → List Bytes
fgets_loop room [] = []
fgets_loop room (c ∷ cs) =
    let ends = (c ∷ []) ∷ fgets_loop 255 cs in
    let more = onto_first c (fgets_loop (room - 1) cs) in
    if c == b'\n' || leb room 1 then ends else more

-- A `%s` with the width `n`, behind the white space: the bytes read, and what follows them.
unfoldable pub scan_bytes : ℕ → Bytes → Bytes × Bytes
unfolding is_space
scan_bytes zero cs = ([], cs)
scan_bytes (suc n) [] = ([], [])
scan_bytes (suc n) (c ∷ cs) =
    let (w, rest) = scan_bytes n cs in if is_space c then ([], c ∷ cs) else (c ∷ w, rest)

-- `sscanf(line, "%31s %63s", key, val)`, if it converts both.
unfoldable pub scan_two : Bytes → Option (Bytes × Bytes)
unfolding scan_bytes
scan_two line =
    let (k, more) = scan_bytes 31 (skip_space line) in
    let (v, rest) = scan_bytes 63 (skip_space more) in
    if is_empty k || is_empty v then none else some (k, v)

-- The address of a `nameserver` line, if the line is one.
unfoldable pub nameserver : (Bytes → Option ℕ) → Bytes → Option ℕ
unfolding scan_two codes
nameserver inet_pton line = elim (scan_two line) [
  | none ↦ none
  | some (k, v) ↦ if streq k (codes "nameserver") then inet_pton v else none
]

-- The loop over the lines, with the addresses stored so far.
unfoldable pub resolv_loop : (Bytes → Option ℕ) → List ℕ → List Bytes → Result (List ℕ)
resolv_loop inet_pton stored [] = ret stored
resolv_loop inet_pton stored (l ∷ ls) = elim (nameserver inet_pton l) [
  | none ↦ resolv_loop inet_pton stored ls
  | some a ↦
      let go = resolv_loop inet_pton (stored ++ a ∷ []) ls in
      if leb nr_dns4_max (length stored) then err enospc else go
]

-- `file` is what the file holds, if `fopen` succeeds.
unfoldable pub rs_load_resolv_conf :
    (Bytes → Option ℕ) → RealState → Option Bytes → Result RealState
rs_load_resolv_conf inet_pton rs none = ret (record rs { dns4 = [] })
rs_load_resolv_conf inet_pton rs (some file) =
    elim (resolv_loop inet_pton [] (fgets_loop 255 file)) [
      | err e ↦ err e
      | ret servers ↦ ret (record rs { dns4 = servers })
    ]

-- The addresses that the pieces of the file give, in order.
unfoldable pub nameservers : (Bytes → Option ℕ) → List Bytes → List ℕ
nameservers inet_pton [] = []
nameservers inet_pton (l ∷ ls) = elim (nameserver inet_pton l) [
  | none ↦ nameservers inet_pton ls
  | some a ↦ a ∷ nameservers inet_pton ls
]

resolv_loop_lem :
    (net : Bytes → Option ℕ) (stored : List ℕ) (ls : List Bytes)
    → leb (length stored) nr_dns4_max ≡ true
    → resolv_loop net stored ls ≡ (
        if leb (length (stored ++ nameservers net ls)) nr_dns4_max
        then ret (stored ++ nameservers net ls)
        else err enospc)
unfolding resolv_loop nameservers
resolv_loop_lem net stored [] h = rw (append-nil stored, h)
resolv_loop_lem net stored (l ∷ ls) h = elim (Option-cases (nameserver net l)) [
  | inl e ↦ rw (e, resolv_loop, nameservers) (resolv_loop_lem net stored ls h)
  | inr (a, e) ↦ elim (Bool-cases (leb nr_dns4_max (length stored))) [
    | inl full ↦
        let over : leb (length (stored ++ a ∷ nameservers net ls)) nr_dns4_max ≡ false =
          rw (length-append stored (a ∷ nameservers net ls)) (ground arith) in
        rw (e, full, resolv_loop, nameservers) (rw over)
    | inr room ↦
        let fits : leb (length (stored ++ a ∷ [])) nr_dns4_max ≡ true =
          rw (length-append stored (a ∷ [])) (ground arith) in
        let ih = resolv_loop_lem net (stored ++ a ∷ []) ls fits in
        rw (e, room, resolv_loop, nameservers)
          (rw (append_assoc stored (a ∷ []) (nameservers net ls)) at ih)
  ]
]

-- The loop, which stops at the 17th address, as one list of addresses.
pub rs_load_resolv_conf-nameservers :
    (net : Bytes → Option ℕ) (rs : RealState) (file : Bytes)
    → rs_load_resolv_conf net rs (some file) ≡ (
        if leb (length (nameservers net (fgets_loop 255 file))) nr_dns4_max
        then ret (record rs { dns4 = nameservers net (fgets_loop 255 file) })
        else err enospc)
unfolding rs_load_resolv_conf
rs_load_resolv_conf-nameservers net rs file =
    let loop = resolv_loop_lem net [] (fgets_loop 255 file) refl in
    elim (Bool-cases (leb (length (nameservers net (fgets_loop 255 file))) nr_dns4_max)) [
      | inl y ↦ rw y (rw (rw y at loop, rs_load_resolv_conf))
      | inr y ↦ rw y (rw (rw y at loop, rs_load_resolv_conf))
    ]
