-- ===== src/Cfg/Path.antt =====
-- cfg.c: the tokens of a path, `parse_key_tok`, `parse_index_tok`, `parse_path` and `path_file_ok`.
use netrec.Prelude.{
  ℕ, zero, suc, ◌+◌, ◌^◌, ◌-◌, ℤ, pos, negsuc, Bool, true, false, not, ◌&&◌, ◌||◌, Option, none,
  some, List, [], ◌∷◌, Bytes, ◌==◌, ltb, leb, if◌then◌else◌, Result, ret, err, einval, e2big, ◌>>=◌,
}
use netrec.Prelude.Libc.{Parsed, is_digit, strtol}

pub data Tok : Type 0 where
  key : Bytes → Tok
  index : ℤ → Tok
  append : Tok

abbrev pub cfg_path_seg_max : ℕ
cfg_path_seg_max = 128

abbrev pub cfg_path_depth_max : ℕ
cfg_path_depth_max = 64

-- `isalpha` in the C locale
unfoldable pub is_alpha : ℕ → Bool
is_alpha c = (leb b'a' c && leb c b'z') || (leb b'A' c && leb c b'Z')

unfoldable pub is_key_start : ℕ → Bool
unfolding is_alpha
is_key_start c = is_alpha c || c == b'_'

unfoldable pub is_key_char : ℕ → Bool
unfolding is_alpha is_digit
is_key_char c = is_alpha c || is_digit c || c == b'_'

-- The loop of `parse_key_tok`, with `len` bytes stored: the rest of the key, and what follows it.
unfoldable pub key_loop : ℕ → Bytes → Result (Bytes × Bytes)
key_loop len [] = ret ([], [])
key_loop len (c ∷ cs) =
    let rest = key_loop (len + 1) cs in
    if is_key_char c
    then (if leb cfg_path_seg_max (len + 1) then err e2big else (rest >>= λ r. ret (c ∷ r.0, r.1)))
    else ret ([], c ∷ cs)

unfoldable pub parse_key_tok : Bytes → Result (Tok × Bytes)
parse_key_tok [] = err einval
parse_key_tok (c ∷ cs) =
    if is_key_start c then (key_loop 0 (c ∷ cs) >>= λ r. ret (key r.0, r.1)) else err einval

-- The value that `strtol` read, as an `int`, if it is one.
unfoldable pub int_of : Parsed → Option ℤ
int_of v =
    if v.overflow
    then none
    else if v.negative
    then (if ltb (2 ^ 31) v.magnitude
        then none
        else some (elim v.magnitude [ zero ↦ pos 0 | suc n ↦ negsuc n ]))
    else if ltb (2 ^ 31 - 1) v.magnitude
    then none
    else some (pos v.magnitude)

-- The digits of an index may not begin with a zero that another digit follows.
unfoldable pub digits_ok : Bytes → Bool
digits_ok [] = false
digits_ok (c ∷ []) = is_digit c
digits_ok (c ∷ d ∷ cs) = is_digit c && not (c == b'0' && is_digit d)

-- `if (*p == '-') p++;`
unfoldable pub skip_minus : Bytes → Bytes
skip_minus [] = []
skip_minus (c ∷ cs) = if c == b'-' then cs else c ∷ cs

-- The bracket behind the digits.
unfoldable pub close_index : Option ℤ → Bytes → Result (Tok × Bytes)
close_index none rest = err einval
close_index (some i) [] = err einval
close_index (some i) (c ∷ cs) = if c == b']' then ret (index i, cs) else err einval

-- `parse_index_tok`, on what follows the `[`.
unfoldable pub parse_index_tok : Bytes → Result (Tok × Bytes)
parse_index_tok [] = err einval
parse_index_tok (c ∷ cs) =
    if c == b']'
    then ret (append, cs)
    else if digits_ok (skip_minus (c ∷ cs))
    then close_index (int_of (strtol (c ∷ cs))) (strtol (c ∷ cs)).rest
    else err einval

-- A token behind the first, with its `.` or `[`.
unfoldable pub next_tok : ℕ → Bytes → Result (Tok × Bytes)
next_tok c cs =
    if c == b'.' then parse_key_tok cs else if c == b'[' then parse_index_tok cs else err einval

-- The loop of `parse_path`, with room for so many tokens more.
unfoldable pub path_loop : ℕ → Bytes → Result (List Tok)
path_loop room [] = ret []
path_loop zero (c ∷ cs) = err e2big
path_loop (suc room) (c ∷ cs) = do t ← next_tok c cs; ts ← path_loop room t.1; ret (t.0 ∷ ts)

-- `max` is the size of the token array.
unfoldable pub parse_path : Bytes → ℕ → Result (List Tok)
parse_path [] max = ret []
parse_path (c ∷ cs) zero = err e2big
parse_path (c ∷ cs) (suc room) = do
  t ← parse_key_tok (c ∷ cs)
  ts ← path_loop room t.1
  ret (t.0 ∷ ts)

-- Keys only, and at most one `[]`, at the end.
unfoldable pub toks_file_ok : List Tok → Bool
toks_file_ok [] = true
toks_file_ok (key k ∷ ts) = toks_file_ok ts
toks_file_ok (index i ∷ ts) = false
toks_file_ok (append ∷ []) = true
toks_file_ok (append ∷ t ∷ ts) = false

unfoldable pub path_file_ok : Bytes → Result (Unit {0})
path_file_ok path = do
  ts ← parse_path path cfg_path_depth_max
  if toks_file_ok ts then ret tt else err einval
