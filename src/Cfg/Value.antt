-- ===== src/Cfg/Value.antt =====
-- cfg.c: `trim`, `trim_eol`, `parse_value` and `quote`.
use netrec.Prelude.{
  ℕ, Bool, true, not, ◌&&◌, ◌||◌, [], ◌∷◌, ◌++◌, Bytes, is_blank, is_empty, ◌==◌, if◌then◌else◌,
  Result, ret, err, einval, ◌>>=◌,
}

-- `while (*s == ' ' || *s == '\t') s++;`
unfoldable pub ltrim : Bytes → Bytes
ltrim [] = []
ltrim (c ∷ cs) = let rest = ltrim cs in if is_blank c then rest else c ∷ cs

-- The other loop of `trim`: the text without the blanks at its end.
unfoldable pub rtrim : Bytes → Bytes
rtrim [] = []
rtrim (c ∷ cs) = let rest = rtrim cs in if is_empty rest && is_blank c then [] else c ∷ rest

unfoldable pub trim : Bytes → Bytes
unfolding ltrim rtrim
trim s = rtrim (ltrim s)

unfoldable pub is_eol : ℕ → Bool
is_eol c = c == b'\n' || c == b'\r'

unfoldable pub trim_eol : Bytes → Bytes
unfolding is_eol
trim_eol [] = []
trim_eol (c ∷ cs) = let rest = trim_eol cs in if is_empty rest && is_eol c then [] else c ∷ rest

-- What `\n`, `\t` and any other escaped byte stand for.
unfoldable pub unescape : ℕ → ℕ
unescape c = if c == b'n' then b'\n' else if c == b't' then b'\t' else c

abbrev pub store : ℕ → Result (Bytes × Bytes) → Result (Bytes × Bytes)
store c m = m >>= λ r. ret (c ∷ r.0, r.1)

-- The loop of `parse_value` behind the opening quote: the value, and what follows the closing one.
unfoldable pub unquote : Bytes → Result (Bytes × Bytes)
unfolding unescape
unquote [] = err einval
unquote (c ∷ []) = if c == b'"' then ret ([], []) else err einval
unquote (c ∷ d ∷ cs) =
    let escaped = store (unescape d) (unquote cs) in
    let plain = store c (unquote (d ∷ cs)) in
    if c == b'"' then ret ([], d ∷ cs) else if c == b'\\' then escaped else plain

-- `strchr(src, '#')` and the cut there.
unfoldable pub cut_hash : Bytes → Bytes
cut_hash [] = []
cut_hash (c ∷ cs) = if c == b'#' then [] else c ∷ cut_hash cs

-- Nothing but a comment may follow the closing quote.
unfoldable pub rest_ok : Bytes → Bool
rest_ok [] = true
rest_ok (c ∷ _) = c == b'#'

-- `parse_value`, on the trimmed text.
unfoldable pub value_of : Bytes → Result Bytes
value_of [] = ret []
value_of (c ∷ cs) =
    if not (c == b'"')
    then ret (trim (cut_hash (c ∷ cs)))
    else (do r ← unquote cs; if rest_ok (trim r.1) then ret r.0 else err einval)

unfoldable pub parse_value : Bytes → Result Bytes
parse_value src = value_of (trim src)

-- What `quote` writes for one byte.
unfoldable pub quote_byte : ℕ → Bytes
quote_byte c =
    if c == b'\\' || c == b'"'
    then b'\\' ∷ c ∷ []
    else if c == b'\n'
    then b'\\' ∷ b'n' ∷ []
    else if c == b'\t'
    then b'\\' ∷ b't' ∷ []
    else c ∷ []

-- The loop of `quote` and the closing quote.
unfoldable pub quote_loop : Bytes → Bytes
unfolding quote_byte
quote_loop [] = b'"' ∷ []
quote_loop (c ∷ cs) = quote_byte c ++ quote_loop cs

unfoldable pub quote : Bytes → Bytes
unfolding quote_loop
quote s = b'"' ∷ quote_loop s
