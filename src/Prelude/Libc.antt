-- ===== src/Prelude/Libc.antt =====
-- The number parsers of the C library, as the program calls them: `strtol` in base 10 and
-- `strtoul` in base 0, for a 64-bit `long`.
use Prim.Native.Nat.{ℕ, ◌+◌, ◌-◌, ◌*◌, ◌^◌, ◌%◌}
use mathlib.Core.Bool.{Bool, true, false, ◌&&◌, ◌||◌}
use mathlib.Core.List.{[], ◌∷◌}
use netrec.Prelude.Tests.{◌==◌, ltb, leb, if◌then◌else◌}
use netrec.Prelude.Text.{Bytes}

-- Value, `errno == ERANGE`, and where `*end` points. With no digits the value is 0 and `*end` is
-- the start of the text.
pub record Parsed : Type 0 where
  pub negative : Bool
  pub magnitude : ℕ
  pub overflow : Bool
  pub rest : Bytes

-- `isspace` in the C locale
unfoldable pub is_space : ℕ → Bool
is_space c = c == 32 || (leb 9 c && leb c 13)

unfoldable pub is_digit : ℕ → Bool
is_digit c = leb b'0' c && leb c b'9'

abbrev pub skip_space : Bytes → Bytes
skip_space [] = []
skip_space (c ∷ cs) = let rest = skip_space cs in if is_space c then rest else c ∷ cs

-- The value of a digit in bases up to 16; 16 for any other byte.
unfoldable pub digit_value : ℕ → ℕ
unfolding is_digit
digit_value c =
    if is_digit c
    then c - b'0'
    else if leb b'a' c && leb c b'f'
    then c - 87
    else if leb b'A' c && leb c b'F'
    then c - 55
    else 16

-- Reads digits below the base from `acc` on.
unfoldable pub read_digits : ℕ → ℕ → Bytes → ℕ × Bytes
unfolding digit_value
read_digits base acc [] = (acc, [])
read_digits base acc (c ∷ cs) =
    let more = read_digits base (acc * base + digit_value c) cs in
    if ltb (digit_value c) base then more else (acc, c ∷ cs)

abbrev starts_digit : ℕ → Bytes → Bool
starts_digit base [] = false
starts_digit base (c ∷ _) = ltb (digit_value c) base

-- `s` is the whole text, for the case with no digits; `t` is what follows the sign.
unfoldable pub finish : ℕ → Bool → ℕ → ℕ → Bytes → Bytes → Parsed
unfolding read_digits
finish base neg pos_max neg_max s t =
    let (n, r) = read_digits base 0 t in
    if starts_digit base t
    then record {
      negative = neg;
      magnitude = n;
      overflow = ltb (if neg then neg_max else pos_max) n;
      rest = r;
    }
    else record { negative = false; magnitude = 0; overflow = false; rest = s }

-- The optional sign.
unfoldable pub take_sign : Bytes → Bool × Bytes
take_sign [] = (false, [])
take_sign (c ∷ cs) =
    if c == b'-' then (true, cs) else if c == b'+' then (false, cs) else (false, c ∷ cs)

-- `strtol(s, &end, 10)`
unfoldable pub strtol : Bytes → Parsed
unfolding finish take_sign is_space
strtol s = let (neg, t) = take_sign (skip_space s) in finish 10 neg (2 ^ 63 - 1) (2 ^ 63) s t

-- The base that base 0 stands for, and the text behind a `0x` that a hexadecimal digit follows.
unfoldable pub auto_base : Bytes → ℕ × Bytes
unfolding digit_value
auto_base (z ∷ x ∷ d ∷ cs) =
    if z == b'0' && (x == b'x' || x == b'X') && ltb (digit_value d) 16
    then (16, d ∷ cs)
    else if z == b'0'
    then (8, z ∷ x ∷ d ∷ cs)
    else (10, z ∷ x ∷ d ∷ cs)
auto_base (z ∷ cs) = if z == b'0' then (8, z ∷ cs) else (10, z ∷ cs)
auto_base [] = (10, [])

-- `strtoul(s, &end, 0)`
unfoldable pub strtoul : Bytes → Parsed
unfolding finish take_sign is_space auto_base
strtoul s =
    let (neg, t) = take_sign (skip_space s) in
    let (base, t') = auto_base t in finish base neg (2 ^ 64 - 1) (2 ^ 64 - 1) s t'

-- The `unsigned long` that `strtoul` returns: a sign negates modulo 2^64.
unfoldable pub unsigned_value : Parsed → ℕ
unsigned_value p = if p.negative then (2 ^ 64 - p.magnitude) % 2 ^ 64 else p.magnitude
