-- ===== src/Verify/Sound/Lookups.antt =====
-- The Boolean helpers of the checks, and the entries of the snapshot that they stand for.
use netrec.Prelude.{
  ℕ, ◌≡◌, ◌↔◌, inl, inr, Bool-cases, Option-cases, Bool, true, false, false≢true, arith, Bytes,
  Memᴰ, ==ℤ_iff, ◌==ℤ◌, ◌==◌, is_nonpos, any_of-of_mem, mem-of_any_of,
}
use mathlib.Core.List.Memᴰ
use netrec.State.{RealState, Iface, Addr4, Route4, rs_find_iface, rs_dns4_exists}
use netrec.Verify.Address.{route_matches, route_exact, addr_matches, addr_exists, addr_any_exists}
use netrec.Verify.Bridge.{is_up, has_any_addr, has_addr, has_route}
use netrec.Verify.Links.{has_master}
use netrec.Verify.Spec.{Named, IsUp, HasMaster, AnyAddr, HasAddr, HasRoute, GatewayIs}

pub rs_dns4_exists_iff : (rs : RealState) (a : ℕ) → (rs_dns4_exists rs a ≡ true) ↔ Memᴰ a rs.dns4
unfolding rs_dns4_exists
rs_dns4_exists_iff rs a = (
  λ h.
      let (x, m, t) = mem-of_any_of (λ x. x == a) rs.dns4 h in
      let same : a ≡ x = ground arith in Memᴰ.cast same m,
  λ m. any_of-of_mem (λ x. x == a) rs.dns4 m (ground arith),
)

pub addr_any_exists_iff :
    (rs : RealState) (i : Iface) → (addr_any_exists rs i.ifindex ≡ true) ↔ AnyAddr rs i
unfolding addr_any_exists
addr_any_exists_iff rs i = (
  λ h. let (x, m, t) = mem-of_any_of _ rs.addr4 h in (x, m, (==ℤ_iff _ _).0 t),
  λ s.
      let (x, m, t) = s in
      any_of-of_mem (λ a. a.ifindex ==ℤ i.ifindex) rs.addr4 m ((==ℤ_iff _ _).1 t),
)

addr_matches_iff :
    (k : _) (addr prefix : ℕ) (a : Addr4)
    → (addr_matches k addr prefix a ≡ true)
      ↔ ((a.ifindex ≡ k) × (a.prefix ≡ prefix) × (a.addr ≡ addr))
unfolding addr_matches
addr_matches_iff k addr prefix a = (
  λ h. (ground (arith, ==ℤ_iff a.ifindex k), ground arith, ground arith),
  λ s. ground (arith, ==ℤ_iff a.ifindex k),
)

pub addr_exists_iff :
    (rs : RealState) (i : Iface) (addr prefix : ℕ)
    → (addr_exists rs i.ifindex addr prefix ≡ true) ↔ HasAddr rs i addr prefix
unfolding addr_exists
addr_exists_iff rs i addr prefix = (
  λ h.
      let (x, m, t) = mem-of_any_of _ rs.addr4 h in
      let (a, b, c) = (addr_matches_iff i.ifindex addr prefix x).0 t in (x, m, a, b, c),
  λ s.
      let (x, m, a, b, c) = s in
      any_of-of_mem (addr_matches i.ifindex addr prefix) rs.addr4 m
        ((addr_matches_iff i.ifindex addr prefix x).1 (a, b, c)),
)

route_matches_iff :
    (dst prefix : ℕ) (k : _) (gw : ℕ) (g : Bool) (r : Route4)
    → (route_matches dst prefix k gw g r ≡ true)
      ↔ ((r.oif ≡ k) × (r.prefix ≡ prefix) × (r.dst ≡ dst) × GatewayIs g gw r)
unfolding route_matches
route_matches_iff dst prefix k gw true r = (
  λ h. (ground (arith, ==ℤ_iff r.oif k), ground arith, ground arith, ground arith),
  λ s. ground (arith, ==ℤ_iff r.oif k),
)
route_matches_iff dst prefix k gw false r = (
  λ h. (ground (arith, ==ℤ_iff r.oif k), ground arith, ground arith, ground arith),
  λ s. ground (arith, ==ℤ_iff r.oif k),
)

pub has_any_addr_iff :
    (rs : RealState) (n : Bytes)
    → (has_any_addr rs (rs_find_iface rs n) ≡ true) ↔ ((br : Iface) × Named rs n br × AnyAddr rs br)
unfolding has_any_addr
has_any_addr_iff rs n = (
  λ h. elim (Option-cases (rs_find_iface rs n)) [
    | inl e ↦ absurd (false≢true (rw e at h))
    | inr (br, e) ↦ (br, e, (addr_any_exists_iff rs br).0 (rw e at h))
  ],
  λ s. let (br, e, a) = s in rw e ((addr_any_exists_iff rs br).1 a),
)

pub has_addr_iff :
    (rs : RealState) (n : Bytes) (addr prefix : ℕ)
    → (has_addr rs (rs_find_iface rs n) addr prefix ≡ true)
      ↔ ((br : Iface) × Named rs n br × HasAddr rs br addr prefix)
unfolding has_addr
has_addr_iff rs n addr prefix = (
  λ h. elim (Option-cases (rs_find_iface rs n)) [
    | inl e ↦ absurd (false≢true (rw e at h))
    | inr (br, e) ↦ (br, e, (addr_exists_iff rs br addr prefix).0 (rw e at h))
  ],
  λ s. let (br, e, a) = s in rw e ((addr_exists_iff rs br addr prefix).1 a),
)

pub has_route_iff :
    (rs : RealState) (dev : Bytes) (dst prefix gw : ℕ) (g : Bool)
    → (has_route rs (rs_find_iface rs dev) dst prefix gw g ≡ true) ↔ HasRoute rs dev dst prefix gw g
unfolding has_route route_exact
has_route_iff rs dev dst prefix gw g = (
  λ h. elim (Option-cases (rs_find_iface rs dev)) [
    | inl e ↦ absurd (false≢true (rw e at h))
    | inr (i, e) ↦ elim (Bool-cases (is_nonpos i.ifindex)) [
      | inl bad ↦ absurd (false≢true (rw (e, bad) at h))
      | inr good ↦
          let (r, m, t) = mem-of_any_of _ rs.route4 (rw (e, good) at h) in
          let (a, b, c, d) = (route_matches_iff dst prefix i.ifindex gw g r).0 t in
          (i, e, good, r, m, a, b, c, d)
    ]
  ],
  λ s.
      let (i, e, good, r, m, a, b, c, d) = s in
      rw (e, good)
        (any_of-of_mem (route_matches dst prefix i.ifindex gw g) rs.route4 m
          ((route_matches_iff dst prefix i.ifindex gw g r).1 (a, b, c, d))),
)

pub has_master_iff :
    (rs : RealState) (i : Iface) (n : Bytes)
    → (has_master i (rs_find_iface rs n) ≡ true) ↔ HasMaster rs i n
unfolding has_master
has_master_iff rs i n = (
  λ h. elim (Option-cases (rs_find_iface rs n)) [
    | inl e ↦ absurd (false≢true (rw e at h))
    | inr (br, e) ↦ (br, e, (==ℤ_iff i.master br.ifindex).0 (rw e at h))
  ],
  λ s. let (br, e, a) = s in rw e ((==ℤ_iff i.master br.ifindex).1 a),
)

pub is_up_iff : (i : Iface) → (is_up i ≡ true) ↔ IsUp i
unfolding is_up
is_up_iff i = (λ h. ground arith, λ h. ground arith)
