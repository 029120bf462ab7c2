-- ===== src/Uci/Mask.antt =====
-- uci.c: which netmasks `mask_to_prefix` takes.
use Prim.Native.Nat.{◌<◌}
use native.Mathlib.Nat.{div-add-mod, mul-add-mod_self_left, mod-eq_of_lt, mod-lt, pow-succ'}
use netrec.Prelude.{sym, subst, ◌∙◌, ◌↔◌, Option-cases}
use netrec.Prelude.{
  ℕ, zero, suc, ◌+◌, ◌-◌, ◌*◌, ◌/◌, ◌%◌, ◌^◌, ◌≤◌, ◌≡◌, refl, ap, inl, inr, Bool-cases, Bool, true,
  false, ◌&&◌, Option, some, arith, Bytes, ◌==◌, leb, ret,
}
use netrec.Uci.Proto.{ntohl, no_gap, ones, mask_to_prefix}

regroup : (m a b r q : ℕ) → q ≡ 2 * a + b → m * q + r ≡ 2 * m * a + (b * m + r)
regroup m a b r q e = rw e (grind arith)

mod_double : (v m : ℕ) → 0 < m → v % (2 * m) ≡ v / m % 2 * m + v % m
mod_double v m h =
    let q = v / m in
    let below : q % 2 * m + v % m < 2 * m = grind (arith, mod-lt v h) in
    let whole : v ≡ 2 * m * (q / 2) + (q % 2 * m + v % m) =
      sym (div-add-mod v m) ∙ regroup m (q / 2) (q % 2) (v % m) q (omega arith) in
    ap (λ z. z % (2 * m)) whole
    ∙ mul-add-mod_self_left (2 * m) (q / 2) (q % 2 * m + v % m)
    ∙ mod-eq_of_lt below

pow_pos : (n : ℕ) → 0 < 2 ^ n
pow_pos zero = omega arith
pow_pos (suc n) = rw (pow-succ' 2 n) (omega (arith, pow_pos n))

mod_step : (n v : ℕ) → v % 2 ^ suc n ≡ v / 2 ^ n % 2 * 2 ^ n + v % 2 ^ n
mod_step n v = rw (pow-succ' 2 n) (mod_double v (2 ^ n) (pow_pos n))

no_gap-clear : (n v : ℕ) → no_gap n true v ≡ true → v % 2 ^ n ≡ 0
unfolding no_gap
no_gap-clear zero v h = omega arith
no_gap-clear (suc n) v h = elim (Bool-cases (v / 2 ^ n % 2 == 1)) [
  | inl y ↦ cc (rw y at h)
  | inr y ↦
      let rest = no_gap-clear n v (rw y at h) in
      let even : v / 2 ^ n % 2 ≡ 0 = ground arith in mod_step n v ∙ rw even (omega (arith, rest))
]

-- A text of ones with zeros behind them.
no_gap-set : (n v : ℕ) → no_gap n false v ≡ true → (k : ℕ) × (k ≤ n) × (v % 2 ^ n + 2 ^ k ≡ 2 ^ n)
unfolding no_gap
no_gap-set zero v h = (0, omega arith, omega arith)
no_gap-set (suc n) v h = elim (Bool-cases (v / 2 ^ n % 2 == 1)) [
  | inl y ↦
      let (k, le, e) = no_gap-set n v (rw y at h) in
      let odd : v / 2 ^ n % 2 ≡ 1 = ground arith in
      (k, omega arith, rw (mod_step n v, odd, pow-succ' 2 n) (omega (arith, e)))
  | inr y ↦
      let rest = no_gap-clear n v (rw y at h) in
      let even : v / 2 ^ n % 2 ≡ 0 = ground arith in
      (suc n, omega arith, rw (mod_step n v, even, rest) (omega arith))
]

pow-le : (k j : ℕ) → 2 ^ k ≤ 2 ^ (k + j)
pow-le k zero = let same : k ≡ k + 0 = omega arith in subst (λ z. 2 ^ k ≤ 2 ^ z) same (omega arith)
pow-le k (suc j) =
    let same : suc (k + j) ≡ k + suc j = omega arith in
    subst (λ z. 2 ^ k ≤ 2 ^ z) same (omega (arith, pow-le k j, pow-succ' 2 (k + j)))

-- The number of ones, counted from the top.
ones_lem : (fuel k v : ℕ) → k ≤ 32 → 32 ≤ fuel + k → v + 2 ^ k ≡ 2 ^ 32 → ones fuel v + k ≡ 32
unfolding ones
ones_lem zero k v le enough e = omega arith
ones_lem (suc fuel) k v le enough e = elim (Bool-cases (leb 32 k)) [
  | inl y ↦
      let last : k ≡ 32 = ground arith in
      let full : v + 2 ^ 32 ≡ 2 ^ 32 = rw last at e in
      let zero_left : v ≡ 0 = omega (arith, full) in rw (zero_left, last)
  | inr n ↦
      let j : ℕ = 31 - k in
      let same : k + j ≡ 31 = ground arith in
      let small : 2 ^ k ≤ 2 ^ 31 = subst (λ z. 2 ^ k ≤ 2 ^ z) same (pow-le k j) in
      let top : leb (2 ^ 31) v ≡ true = ground arith in
      let shifted : v * 2 % 2 ^ 32 + 2 ^ suc k ≡ 2 ^ 32 = omega (arith, pow-succ' 2 k, pow_pos k) in
      rw top
        (omega (arith, ones_lem fuel (suc k) (v * 2 % 2 ^ 32) (ground arith) (omega arith) shifted))
]

ntohl-lt : (a : ℕ) → ntohl a < 2 ^ 32
unfolding ntohl
ntohl-lt a = omega arith

-- Every mask of ones and zeros behind them, checked by evaluation.
masks_below : ℕ → Bool
masks_below zero = true
masks_below (suc p) = no_gap 32 false (2 ^ 32 - 2 ^ (32 - p)) && masks_below p

masks_below-no_gap :
    (n p : ℕ) → masks_below n ≡ true → p < n → no_gap 32 false (2 ^ 32 - 2 ^ (32 - p)) ≡ true
unfolding masks_below
masks_below-no_gap zero p h lt = absurd (omega arith)
masks_below-no_gap (suc n) p h lt = elim (Bool-cases (p == n)) [
  | inl y ↦ let same : p ≡ n = ground arith in rw same (ground arith)
  | inr y ↦ masks_below-no_gap n p (ground arith) (ground arith)
]

all_masks : masks_below 33 ≡ true
unfolding masks_below no_gap
all_masks = refl

-- `mask_to_prefix` gives a prefix exactly for the netmasks that `inet_pton` takes and whose 32 bits are as
-- many ones as the prefix says, at the top, and zeros behind them.
pub mask_to_prefix_iff :
    (net : Bytes → Option ℕ) (mask : Bytes) (p : ℕ)
    → (mask_to_prefix net mask ≡ ret p)
      ↔ ((a : ℕ) × (net mask ≡ some a) × (p ≤ 32) × (ntohl a + 2 ^ (32 - p) ≡ 2 ^ 32))
unfolding mask_to_prefix
mask_to_prefix_iff net mask p = (to, back)
  where
    to :
        mask_to_prefix net mask ≡ ret p
        → (a : ℕ) × (net mask ≡ some a) × (p ≤ 32) × (ntohl a + 2 ^ (32 - p) ≡ 2 ^ 32)
    to h = elim (Option-cases (net mask)) [
      | inl e ↦ cc (rw (e, mask_to_prefix) at h)
      | inr (a, e) ↦ elim (Bool-cases (no_gap 32 false (ntohl a))) [
        | inr n ↦ cc (rw (e, n, mask_to_prefix) at h)
        | inl y ↦
            let (k, le, sum) = no_gap-set 32 (ntohl a) y in
            let whole : ntohl a + 2 ^ k ≡ 2 ^ 32 = omega (arith, sum, ntohl-lt a) in
            let count = ones_lem 32 k (ntohl a) le (omega arith) whole in
            let same : ones 32 (ntohl a) ≡ p = cc (rw (e, y, mask_to_prefix) at h) in
            let k_of : k ≡ 32 - p = omega (arith, count, same) in
            (a, e, omega (arith, count, same), subst (λ z. ntohl a + 2 ^ z ≡ 2 ^ 32) k_of whole)
      ]
    ]

    back :
        ((a : ℕ) × (net mask ≡ some a) × (p ≤ 32) × (ntohl a + 2 ^ (32 - p) ≡ 2 ^ 32))
        → mask_to_prefix net mask ≡ ret p
    back (a, e, le, whole) =
        let v : ntohl a ≡ 2 ^ 32 - 2 ^ (32 - p) = omega (arith, whole) in
        let shaped : no_gap 32 false (ntohl a) ≡ true =
          rw v (masks_below-no_gap 33 p all_masks (omega arith)) in
        let count = ones_lem 32 (32 - p) (ntohl a) (omega arith) (omega arith) whole in
        let same : ones 32 (ntohl a) ≡ p = omega (arith, count) in
        rw (e, shaped, same, mask_to_prefix)
