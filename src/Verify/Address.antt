-- ===== src/Verify/Address.antt =====
-- verify.c: `parse_addr_prefix`, `parse_ip4`, the searches in the snapshot's addresses and routes,
-- in `Subst` `subst_iface`. `inet_pton` is the system's parser of dotted IPv4 addresses.
pub mod Subst
pub mod Laws
use netrec.Prelude.{
  ℕ, ℤ, Bool, false, not, ◌&&◌, ◌||◌, Option, none, some, List, [], ◌∷◌, Bytes, split_first,
  is_empty, is_nonpos, ◌==◌, ◌==ℤ◌, ltb, if◌then◌else◌, take, any_of, Result, ret, err, einval,
}
use netrec.Prelude.Libc.{Parsed, strtol}
use netrec.State.{RealState, Route4, Addr4}

-- The test behind `strtol` in `parse_addr_prefix`, and the store to `*prefix`.
unfoldable pub prefix_of : Parsed → Result ℕ
prefix_of v =
    if v.overflow
      || not (is_empty v.rest)
      || (v.negative && ltb 0 v.magnitude)
      || ltb 32 v.magnitude
    then err einval
    else ret v.magnitude

module _ (inet_pton : Bytes → Option ℕ) where
  unfoldable pub parse_addr_prefix : Bytes → Result (ℕ × ℕ)
  unfolding prefix_of
  parse_addr_prefix s = if is_empty s then err einval else elim (split_first b'/' (take 63 s)) [
    | none ↦ err einval
    | some (buf, p) ↦ elim (inet_pton buf) [
      | none ↦ err einval
      | some addr ↦ elim (prefix_of (strtol p)) [ err e ↦ err e | ret prefix ↦ ret (addr, prefix) ]
    ]
  ]

  unfoldable pub parse_ip4 : Bytes → Result ℕ
  parse_ip4 s = elim (inet_pton s) [ none ↦ err einval | some addr ↦ ret addr ]

-- The tests of one round of `route_exact`.
unfoldable pub route_matches : ℕ → ℕ → ℤ → ℕ → Bool → Route4 → Bool
route_matches dst prefix oif gw has_gw r =
    if not (r.oif ==ℤ oif)
    then false
    else if not (r.prefix == prefix)
    then false
    else if not (r.dst == dst)
    then false
    else if has_gw && (not r.has_gw || not (r.gw == gw))
    then false
    else not (not has_gw && r.has_gw)

unfoldable pub route_exact : RealState → ℕ → ℕ → ℤ → ℕ → Bool → Bool
unfolding any_of route_matches
route_exact rs dst prefix oif gw has_gw =
    if is_nonpos oif then false else any_of (route_matches dst prefix oif gw has_gw) rs.route4

-- The tests of one round of `addr_exists`.
unfoldable pub addr_matches : ℤ → ℕ → ℕ → Addr4 → Bool
addr_matches ifindex addr prefix a =
    if not (a.ifindex ==ℤ ifindex)
    then false
    else if not (a.prefix == prefix)
    then false
    else a.addr == addr

unfoldable pub addr_exists : RealState → ℤ → ℕ → ℕ → Bool
unfolding any_of addr_matches
addr_exists rs ifindex addr prefix = any_of (addr_matches ifindex addr prefix) rs.addr4

unfoldable pub addr_any_exists : RealState → ℤ → Bool
unfolding any_of
addr_any_exists rs ifindex = any_of (λ a. a.ifindex ==ℤ ifindex) rs.addr4
