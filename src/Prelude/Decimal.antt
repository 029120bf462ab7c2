-- ===== src/Prelude/Decimal.antt =====
-- Numbers printed by `%u`, and what `strtoul` in base 0 and `strtol` read of them.
use Prim.Native.Nat.{ℕ, zero, suc, ◌+◌, ◌-◌, ◌*◌, ◌/◌, ◌%◌, ◌^◌, ◌≤◌, ◌<◌}
use mathlib.Core.Path.{◌≡◌, refl, ap, subst, ◌∙◌}
use mathlib.Core.Logic.{inl, inr}
use mathlib.Core.Bool.{Bool, true, false}
use mathlib.Core.List.{[], ◌∷◌}
use native.Mathlib.Omega.{arith}
use netrec.Prelude.Tests.{◌==◌, ltb, Bool-cases}
use netrec.Prelude.Lists.{length}
use netrec.Prelude.Text.{Bytes, is_empty, digits_onto, decimal}
use netrec.Prelude.Libc.{
  skip_space, is_space, is_digit, digit_value, read_digits, finish, take_sign, auto_base, strtol,
  strtoul,
}

digit_value-digit : (d : ℕ) → d < 10 → digit_value (48 + d) ≡ d
unfolding digit_value is_digit
digit_value-digit d h = ground arith

read_digits-digit :
    (n d : ℕ) (cs : Bytes)
    → d < 10
    → read_digits 10 n ((48 + d) ∷ cs) ≡ read_digits 10 (n * 10 + d) cs
unfolding read_digits
read_digits-digit n d cs h =
    let small : ltb d 10 ≡ true = ground arith in rw (digit_value-digit d h, small) refl

-- The number has at most so many digits and one more.
abbrev Fits : ℕ → ℕ → Type 0
Fits zero n = n < 10
Fits (suc f) n = Fits f (n / 10)

read_digits-digits_onto :
    (f n : ℕ) (acc : Bytes)
    → Fits f n
    → read_digits 10 0 (digits_onto (suc f) n acc) ≡ read_digits 10 n acc
unfolding digits_onto
read_digits-digits_onto zero n acc h =
    let small : ltb n 10 ≡ true = ground arith in
    let none_before : 0 * 10 + n ≡ n = omega arith in
    rw small (read_digits-digit 0 n acc h ∙ ap (λ z. read_digits 10 z acc) none_before)
read_digits-digits_onto (suc f) n acc h = elim (Bool-cases (ltb n 10)) [
  | inl y ↦
      let none_before : 0 * 10 + n ≡ n = omega arith in
      rw y (read_digits-digit 0 n acc (ground arith) ∙ ap (λ z. read_digits 10 z acc) none_before)
  | inr b ↦
      let whole : n / 10 * 10 + n % 10 ≡ n = omega arith in
      rw b (
        read_digits-digits_onto f (n / 10) ((48 + n % 10) ∷ acc) h
        ∙ read_digits-digit (n / 10) (n % 10) acc (omega arith)
        ∙ ap (λ z. read_digits 10 z acc) whole)
]

-- A text that starts with a digit other than 0.
record IsNumeral (s : Bytes) : Type 0 where
  head : ℕ
  tail : Bytes
  shape : s ≡ head ∷ tail
  low : 49 ≤ head
  high : head ≤ 57

digits_onto-IsNumeral :
    (f n : ℕ) (acc : Bytes) → 1 ≤ n → Fits f n → IsNumeral (digits_onto (suc f) n acc)
unfolding digits_onto
digits_onto-IsNumeral zero n acc l h =
    let small : ltb n 10 ≡ true = ground arith in
    rw small
      (record { head = 48 + n; tail = acc; shape = refl; low = omega arith; high = omega arith })
digits_onto-IsNumeral (suc f) n acc l h = elim (Bool-cases (ltb n 10)) [
  | inl y ↦
      let small : n < 10 = ground arith in
      rw y
        (record { head = 48 + n; tail = acc; shape = refl; low = omega arith; high = omega arith })
  | inr b ↦
      let more : 1 ≤ n / 10 = ground arith in
      rw b (digits_onto-IsNumeral f (n / 10) ((48 + n % 10) ∷ acc) more h)
]

auto_base-digit : (c : ℕ) (cs : Bytes) → 49 ≤ c → auto_base (c ∷ cs) ≡ (10, c ∷ cs)
unfolding auto_base
auto_base-digit c [] h = ground arith
auto_base-digit c (x ∷ []) h = ground arith
auto_base-digit c (x ∷ d ∷ cs) h = ground arith

digit_start :
    (c : ℕ) (cs : Bytes)
    → 49 ≤ c
    → c ≤ 57
    → (skip_space (c ∷ cs) ≡ c ∷ cs) × (take_sign (c ∷ cs) ≡ (false, c ∷ cs))
unfolding take_sign is_space
digit_start c cs l h =
    let solid : is_space c ≡ false = ground arith in
    let plus : (c == b'+') ≡ false = ground arith in
    let minus : (c == b'-') ≡ false = ground arith in (rw solid refl, rw (plus, minus) refl)

digit_below : (c : ℕ) → 49 ≤ c → c ≤ 57 → ltb (digit_value c) 10 ≡ true
digit_below c l h =
    let same : 48 + (c - 48) ≡ c = omega arith in
    subst (λ z. ltb (digit_value z) 10 ≡ true) same
      (rw (digit_value-digit (c - 48) (omega arith)) (ground arith))

finish-digits :
    (c n : ℕ) (s cs : Bytes)
    → ltb (digit_value c) 10 ≡ true
    → read_digits 10 0 (c ∷ cs) ≡ (n, [])
    → n < 2 ^ 32
    → finish 10 false (2 ^ 64 - 1) (2 ^ 64 - 1) s (c ∷ cs)
      ≡ record { negative = false; magnitude = n; overflow = false; rest = [] }
unfolding finish read_digits
finish-digits c n s cs d e b =
    let fits : ltb (2 ^ 64 - 1) n ≡ false = ground arith in
    let more = rw d at e in rw (d, ap (λ z. z.0) more, ap (λ z. z.1) more, fits) refl

-- A numeral that `read_digits` reads to its end.
strtoul-numeral :
    (c n : ℕ) (cs : Bytes)
    → 49 ≤ c
    → c ≤ 57
    → read_digits 10 0 (c ∷ cs) ≡ (n, [])
    → n < 2 ^ 32
    → strtoul (c ∷ cs) ≡ record { negative = false; magnitude = n; overflow = false; rest = [] }
unfolding strtoul
strtoul-numeral c n cs l h e b =
    let (skip, sign) = digit_start c cs l h in
    rw (skip, sign, auto_base-digit c cs l) (finish-digits c n (c ∷ cs) cs (digit_below c l h) e b)

decimal-Fits : (n : ℕ) → n < 2 ^ 32 → Fits 9 n
decimal-Fits n h = omega arith

-- What `%u` prints of a positive 32-bit number, `strtoul` reads as the number, to the end.
pub strtoul-decimal :
    (n : ℕ)
    → 1 ≤ n
    → n < 2 ^ 32
    → strtoul (decimal n) ≡ record { negative = false; magnitude = n; overflow = false; rest = [] }
unfolding decimal read_digits
strtoul-decimal n l h =
    let fits = decimal-Fits n h in
    let first = digits_onto-IsNumeral 9 n [] l fits in
    let read =
      subst (λ z. read_digits 10 0 z ≡ (n, [])) first.shape (read_digits-digits_onto 9 n [] fits) in
    ap strtoul first.shape ∙ strtoul-numeral first.head n first.tail first.low first.high read h

pub decimal-is_empty : (n : ℕ) → 1 ≤ n → n < 2 ^ 32 → is_empty (decimal n) ≡ false
unfolding decimal
decimal-is_empty n l h =
    let first = digits_onto-IsNumeral 9 n [] l (decimal-Fits n h) in ap is_empty first.shape

length-digits_onto : (f n : ℕ) (acc : Bytes) → length (digits_onto f n acc) ≤ f + length acc
unfolding digits_onto
length-digits_onto zero n acc = omega arith
length-digits_onto (suc f) n acc = elim (Bool-cases (ltb n 10)) [
  | inl y ↦ rw y (omega arith)
  | inr b ↦ rw b (omega (arith, length-digits_onto f (n / 10) ((48 + n % 10) ∷ acc)))
]

pub length-decimal : (n : ℕ) → length (decimal n) ≤ 10
unfolding decimal
length-decimal n = omega (arith, length-digits_onto 10 n [])

-- A number with a minus in front, or without one.
abbrev pub signed : Bool → Bytes → Bytes
signed true s = b'-' ∷ s
signed false s = s

finish-signed :
    (neg : Bool) (c n : ℕ) (s cs : Bytes)
    → ltb (digit_value c) 10 ≡ true
    → read_digits 10 0 (c ∷ cs) ≡ (n, [])
    → n < 2 ^ 32
    → finish 10 neg (2 ^ 63 - 1) (2 ^ 63) s (c ∷ cs)
      ≡ record { negative = neg; magnitude = n; overflow = false; rest = [] }
unfolding finish read_digits
finish-signed true c n s cs d e b =
    let fits : ltb (2 ^ 63) n ≡ false = ground arith in
    let more = rw d at e in rw (d, ap (λ z. z.0) more, ap (λ z. z.1) more, fits) refl
finish-signed false c n s cs d e b =
    let fits : ltb (2 ^ 63 - 1) n ≡ false = ground arith in
    let more = rw d at e in rw (d, ap (λ z. z.0) more, ap (λ z. z.1) more, fits) refl

strtol-numeral :
    (neg : Bool) (c n : ℕ) (cs : Bytes)
    → 49 ≤ c
    → c ≤ 57
    → read_digits 10 0 (c ∷ cs) ≡ (n, [])
    → n < 2 ^ 32
    → strtol (signed neg (c ∷ cs))
      ≡ record { negative = neg; magnitude = n; overflow = false; rest = [] }
unfolding strtol take_sign is_space
strtol-numeral true c n cs l h e b =
    finish-signed true c n (b'-' ∷ c ∷ cs) cs (digit_below c l h) e b
strtol-numeral false c n cs l h e b =
    let (skip, sign) = digit_start c cs l h in
    rw (skip, sign) (finish-signed false c n (c ∷ cs) cs (digit_below c l h) e b)

strtol-zero :
    (neg : Bool)
    → strtol (signed neg (decimal 0))
      ≡ record { negative = neg; magnitude = 0; overflow = false; rest = [] }
unfolding decimal digits_onto strtol take_sign finish is_space digit_value is_digit read_digits
strtol-zero true = refl
strtol-zero false = refl

-- What `%u` prints of a 32-bit number, with or without a minus, `strtol` reads to its end.
pub strtol-decimal :
    (neg : Bool) (n : ℕ)
    → n < 2 ^ 32
    → strtol (signed neg (decimal n))
      ≡ record { negative = neg; magnitude = n; overflow = false; rest = [] }
unfolding decimal read_digits
strtol-decimal neg n h = elim (Bool-cases (ltb 0 n)) [
  | inl y ↦
      let fits = decimal-Fits n h in
      let first = digits_onto-IsNumeral 9 n [] (ground arith) fits in
      let read =
        subst (λ z. read_digits 10 0 z ≡ (n, [])) first.shape
          (read_digits-digits_onto 9 n [] fits) in
      ap (λ z. strtol (signed neg z)) first.shape
      ∙ strtol-numeral neg first.head n first.tail first.low first.high read h
  | inr b ↦
      let same : 0 ≡ n = ground arith in
      subst
        (λ z.
          strtol (signed neg (decimal z))
          ≡ record { negative = neg; magnitude = z; overflow = false; rest = [] })
        same (strtol-zero neg)
]
