-- ===== src/Verify/Address/Laws.antt =====
-- What `parse_addr_prefix` and `subst_iface` return.
use netrec.Prelude.{
  ℕ, zero, suc, ◌+◌, ◌≤◌, ◌<◌, ◌≡◌, refl, ap, ◌∙◌, inl, inr, Bool-cases, true, false, Option, some,
  [], ◌∷◌, ◌++◌, arith, Bytes, split_first, is_empty, ◌==◌, leb, if◌then◌else◌, take-of_le, length,
  length-append, Result, ret, err, einval, enospc, decimal, Bool, ◌^◌, ◌>>=◌,
}
use netrec.Prelude.Decimal.{signed, strtol-decimal, length-decimal}
use netrec.Verify.Address.{prefix_of, parse_addr_prefix}
use netrec.Verify.Address.Subst.{starts_with, key, subst_loop, subst_iface}

-- The test of a number that was read to its end.
prefix_of-decimal :
    (neg : Bool) (addr n : ℕ)
    → ◌≡◌ {A = Result (ℕ × ℕ)}
        (elim (prefix_of (record { negative = neg; magnitude = n; overflow = false; rest = [] })) [
          | err e ↦ err e
          | ret prefix ↦ ret (addr, prefix)
        ])
        (if leb n (if neg then 0 else 32) then ret (addr, n) else err einval)
unfolding prefix_of
prefix_of-decimal true addr n = ground arith
prefix_of-decimal false addr n = ground arith

length-signed : (neg : Bool) (n : ℕ) → length (signed neg (decimal n)) ≤ 11
length-signed true n = omega (arith, length-decimal n)
length-signed false n = omega (arith, length-decimal n)

-- No byte of the text is `c`.
abbrev pub Free : ℕ → Bytes → Type 0
Free c [] = Unit
Free c (x ∷ xs) = (x == c ≡ false) × Free c xs

pub split_first-at : (c : ℕ) (h t : Bytes) → Free c h → split_first c (h ++ c ∷ t) ≡ some (h, t)
unfolding split_first
split_first-at c [] t f = ground arith
split_first-at c (x ∷ h) t f = rw (f.0, split_first-at c h t f.1)

is_empty-append_cons : (h : Bytes) (c : ℕ) (t : Bytes) → is_empty (h ++ c ∷ t) ≡ false
is_empty-append_cons [] c t = refl
is_empty-append_cons (x ∷ h) c t = refl

module _ (net : Bytes → Option ℕ) where
  -- An address that `inet_pton` accepts, a slash and a number as `%u` prints it, with a minus in front
  -- or not, is accepted with this prefix if the number is at most 32, with a minus if it is 0, and is
  -- EINVAL otherwise, if the address has no slash and less than 52 bytes and the number is below 2^32.
  pub parse_addr_prefix-decimal :
      (neg : Bool) (buf : Bytes) (addr n : ℕ)
      → Free b'/' buf
      → length buf < 52
      → net buf ≡ some addr
      → n < 2 ^ 32
      → parse_addr_prefix net (buf ++ b'/' ∷ signed neg (decimal n))
        ≡ (if leb n (if neg then 0 else 32) then ret (addr, n) else err einval)
  unfolding parse_addr_prefix
  parse_addr_prefix-decimal neg buf addr n f lt e b =
      let digits = signed neg (decimal n) in
      let fits : length (buf ++ b'/' ∷ digits) ≤ 63 =
        omega (arith, length-append buf (b'/' ∷ digits), length-signed neg n) in
      let cut = take-of_le 63 (buf ++ b'/' ∷ digits) fits in
      rw
        (
          is_empty-append_cons buf b'/' digits,
          cut,
          split_first-at b'/' buf digits f,
          e,
          strtol-decimal neg n b,
        )
        (prefix_of-decimal neg addr n)

-- `$iface` replaced everywhere, with no limit; `skip` as in `subst_loop`.
abbrev pub expand : Bytes → ℕ → Bytes → Bytes
expand ifname skip [] = []
expand ifname (suc skip) (c ∷ cs) = expand ifname skip cs
expand ifname zero (c ∷ cs) =
    let hit = starts_with key (c ∷ cs) in
    (if hit then ifname else c ∷ []) ++ expand ifname (if hit then 5 else 0) cs

-- One round of the loop, over the result of the others.
module _ (sz n : ℕ) (piece rest : Bytes) where
  round_full :
      leb sz (n + length piece) ≡ true
      → err enospc
        ≡ (if leb sz (n + length (piece ++ rest)) then err enospc else ret (piece ++ rest))
  round_full h = ground (arith, length-append piece rest)

  round_fits :
      leb sz (n + length piece) ≡ false
      → ((if leb sz (n + length piece + length rest) then err enospc else ret rest) >>= λ r.
          ret (piece ++ r))
        ≡ (if leb sz (n + length (piece ++ rest)) then err enospc else ret (piece ++ rest))
  round_fits h = ground (arith, length-append piece rest)

  lt-of_fits : leb sz (n + length piece) ≡ false → n + length piece < sz
  lt-of_fits h = ground arith

subst_loop-expand :
    (sz : ℕ) (ifname : Bytes) (n skip : ℕ) (src : Bytes)
    → n < sz
    → subst_loop sz ifname n skip src ≡ (
        if leb sz (n + length (expand ifname skip src))
        then err enospc
        else ret (expand ifname skip src))
unfolding subst_loop
subst_loop-expand sz ifname n zero [] lt = ground arith
subst_loop-expand sz ifname n (suc skip) [] lt = ground arith
subst_loop-expand sz ifname n (suc skip) (c ∷ cs) lt = subst_loop-expand sz ifname n skip cs lt
subst_loop-expand sz ifname n zero (c ∷ cs) lt =
    let hit = starts_with key (c ∷ cs) in
    let piece : Bytes = if hit then ifname else c ∷ [] in
    let skip' : ℕ = if hit then 5 else 0 in
    let rest : Bytes = expand ifname skip' cs in
    elim (Bool-cases (leb sz (n + length piece))) [
      | inl full ↦ rw full (round_full sz n piece rest full)
      | inr fits ↦
          let later =
            subst_loop-expand sz ifname (n + length piece) skip' cs
              (lt-of_fits sz n piece rest fits) in
          rw fits (ap (λ m. m >>= λ r. ret (piece ++ r)) later ∙ round_fits sz n piece rest fits)
    ]

-- `subst_iface` fills the buffer with the whole substituted command if that fits with its NUL, and
-- fails with ENOSPC otherwise; it never returns a part of it.
pub subst_iface-expand :
    (sz : ℕ) (src ifname : Bytes)
    → subst_iface sz src ifname
      ≡ (if leb sz (length (expand ifname 0 src)) then err enospc else ret (expand ifname 0 src))
unfolding subst_iface
subst_iface-expand zero src ifname = ground arith
subst_iface-expand (suc sz) src ifname =
    ground (arith, subst_loop-expand (suc sz) ifname 0 0 src (omega arith))
