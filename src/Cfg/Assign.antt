-- ===== src/Cfg/Assign.antt =====
-- cfg.c: a line of a configuration file is the assignment that it spells.
use netrec.Prelude.{
  ℕ, zero, suc, ◌≡◌, refl, subst, sym, Bool, true, false, ◌||◌, some, List, [], ◌∷◌, ◌++◌, arith,
  Bytes, codes, is_blank, ◌==◌, if◌then◌else◌, All, All-append, split_first, Result, ret, err,
  einval, ◌>>=◌, >>=-eq-ret,
}
use netrec.Cfg.Path.{
  Tok, key, index, append, is_key_char, parse_key_tok, next_tok, path_loop, parse_path,
  toks_file_ok, path_file_ok, cfg_path_depth_max, is_alpha,
}
use netrec.Prelude.Libc.{is_digit}
use netrec.Cfg.Node.{Node}
use netrec.Cfg.Set.{cfg_set_str}
use netrec.Cfg.Value.{ltrim, rtrim, trim, rest_ok, quote, quote_loop}
use netrec.Cfg.File.{assign, load_line}
use netrec.Cfg.Bounds.{IsKey, TokRead, parse_key_tok-TokRead, next_tok-TokRead}
use netrec.Cfg.Quoted.{Ends-append, quote_loop-Ends, trim-quote, parse_value-quote}

-- The bytes of a path that a file may have: they part it from the blanks and the `=` around it.
abbrev pub is_path_byte : ℕ → Bool
is_path_byte c = is_key_char c || c == b'.' || c == b'[' || c == b']'

abbrev pub IsPath : Bytes → Type 0
IsPath = All (λ c. is_path_byte c ≡ true)

key-IsPath : (k : Bytes) → All (λ c. is_key_char c ≡ true) k → IsPath k
key-IsPath [] h = tt
key-IsPath (c ∷ k) h = (rw h.0, key-IsPath k h.1)

IsKey-IsPath : (k : Bytes) → IsKey k → IsPath k
IsKey-IsPath [] h = tt
IsKey-IsPath (c ∷ k) h = key-IsPath (c ∷ k) h.1

tok-IsPath :
    (t : Tok) (ts : List Tok) (cs rest : Bytes)
    → TokRead cs (t, rest)
    → toks_file_ok (t ∷ ts) ≡ true
    → (IsPath rest → IsPath cs) × (toks_file_ok ts ≡ true)
unfolding toks_file_ok is_key_char
tok-IsPath (key k) ts cs rest t ok = (
  λ h.
      subst IsPath (sym t.spelled)
        (All-append (λ c. is_path_byte c ≡ true) k rest (IsKey-IsPath k t.good) h),
  ok,
)
tok-IsPath (index i) ts cs rest t ok = cc ok
tok-IsPath append [] cs rest t ok = (λ h. subst IsPath (sym t.spelled) (refl, h), refl)
tok-IsPath append (u ∷ ts) cs rest t ok = cc ok

path_loop-IsPath :
    (room : ℕ) (cs : Bytes) (ts : List Tok)
    → path_loop room cs ≡ ret ts
    → toks_file_ok ts ≡ true
    → IsPath cs
unfolding path_loop
path_loop-IsPath room [] ts h ok = tt
path_loop-IsPath zero (c ∷ cs) ts h ok = cc h
path_loop-IsPath (suc room) (c ∷ cs) ts h ok =
    let (t, e, f) =
      >>=-eq-ret (next_tok c cs) (λ t. path_loop room t.1 >>= λ us. ret (t.0 ∷ us)) h in
    let (us, g, k) = >>=-eq-ret {B = List Tok} (path_loop room t.1) (λ us. ret (t.0 ∷ us)) f in
    let same : ts ≡ t.0 ∷ us = cc k in
    let (read, mark) = next_tok-TokRead c cs t e in
    let (whole, more) = tok-IsPath t.0 us cs t.1 read (rw same at ok) in
    (ground arith, whole (path_loop-IsPath room t.1 us g more))

pub path_file_ok-IsPath : (path : Bytes) → path_file_ok path ≡ ret tt → IsPath path
unfolding path_file_ok parse_path
path_file_ok-IsPath [] h = tt
path_file_ok-IsPath (c ∷ cs) h =
    let check : List Tok → Result (Unit {0}) =
      λ ts. if toks_file_ok ts then ret tt else err einval in
    let (ts, e, f) = >>=-eq-ret {B = Unit {0}} (parse_path (c ∷ cs) cfg_path_depth_max) check h in
    let (t, g, k) =
      >>=-eq-ret (parse_key_tok (c ∷ cs)) (λ t. path_loop 63 t.1 >>= λ us. ret (t.0 ∷ us)) e in
    let (us, l, m) = >>=-eq-ret {B = List Tok} (path_loop 63 t.1) (λ us. ret (t.0 ∷ us)) k in
    let same : ts ≡ t.0 ∷ us = cc m in
    let ok : toks_file_ok ts ≡ true = ground arith in
    let (whole, more) =
      tok-IsPath t.0 us (c ∷ cs) t.1 (parse_key_tok-TokRead (c ∷ cs) t g) (rw same at ok) in
    whole (path_loop-IsPath 63 t.1 us l more)

path_byte_apart :
    (c : ℕ)
    → is_path_byte c ≡ true
    → (is_blank c ≡ false) × ((c == b'=') ≡ false) × ((c == b'#') ≡ false)
unfolding is_key_char is_alpha is_digit is_blank
path_byte_apart c h = (ground arith, ground arith, ground arith)

rtrim-IsPath : (path : Bytes) → IsPath path → rtrim (path ++ b' ' ∷ []) ≡ path
unfolding rtrim is_blank
rtrim-IsPath [] h = refl
rtrim-IsPath (c ∷ path) h =
    let apart = path_byte_apart c h.0 in rw (rtrim-IsPath path h.1) (ground arith)

split_first-IsPath :
    (path rest : Bytes)
    → IsPath path
    → split_first b'=' (path ++ (b' ' ∷ b'=' ∷ rest)) ≡ some (path ++ b' ' ∷ [], rest)
unfolding split_first
split_first-IsPath [] rest h = refl
split_first-IsPath (c ∷ path) rest h =
    let apart = path_byte_apart c h.0 in rw (apart.1, split_first-IsPath path rest h.1)

trim_line :
    (c : ℕ) (cs val : Bytes)
    → IsPath (c ∷ cs)
    → trim (c ∷ cs ++ (b' ' ∷ b'=' ∷ b' ' ∷ quote val)) ≡ c ∷ cs ++ (b' ' ∷ b'=' ∷ b' ' ∷ quote val)
unfolding trim ltrim quote
trim_line c cs val h =
    let apart = path_byte_apart c h.0 in
    let tail =
      Ends-append (b' ' ∷ b'=' ∷ b' ' ∷ b'"' ∷ []) (quote_loop val) (quote_loop-Ends val) in
    rw apart.0 (Ends-append (c ∷ cs) (b' ' ∷ b'=' ∷ b' ' ∷ b'"' ∷ quote_loop val) tail).whole

trim_path : (c : ℕ) (cs : Bytes) → IsPath (c ∷ cs) → trim (c ∷ (cs ++ b' ' ∷ [])) ≡ c ∷ cs
unfolding trim ltrim
trim_path c cs h = rw (path_byte_apart c h.0).0 (rtrim-IsPath (c ∷ cs) h)

trim_value : (val : Bytes) → trim (b' ' ∷ quote val) ≡ quote val
unfolding trim ltrim is_blank
trim_value val = trim-quote val

assign-quote :
    (root : Node) (c : ℕ) (cs val : Bytes)
    → path_file_ok (c ∷ cs) ≡ ret tt
    → assign root (c ∷ cs) (quote val) ≡ cfg_set_str root (c ∷ cs) val
unfolding assign
assign-quote root c cs val h = rw (h, parse_value-quote val)

-- The line that a dump has for a value, read back: it sets the path to the value, whatever bytes the
-- value has, if the path is one that a file may have.
pub load_line-quote :
    (root : Node) (c : ℕ) (cs val : Bytes)
    → path_file_ok (c ∷ cs) ≡ ret tt
    → load_line root (c ∷ cs ++ (codes " = " ++ quote val)) ≡ cfg_set_str root (c ∷ cs) val
unfolding load_line codes rest_ok
load_line-quote root c cs val h =
    let path = path_file_ok-IsPath (c ∷ cs) h in
    let whole = trim_line c cs val path in
    let apart = path_byte_apart c path.0 in
    rw
      (
        whole,
        apart.2,
        split_first-IsPath (c ∷ cs) (b' ' ∷ quote val) path,
        trim_path c cs path,
        trim_value val,
      )
      (assign-quote root c cs val h)
