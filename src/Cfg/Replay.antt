-- ===== src/Cfg/Replay.antt =====
-- cfg.c: the lines of assignments are loaded as these assignments.
use netrec.Prelude.{
  ℕ, ◌<◌, ◌≡◌, refl, sym, ◌∙◌, ap, true, false, List, [], ◌∷◌, ◌++◌, append_assoc, arith, Bytes,
  codes, is_empty, length, leb, ◌==◌, All, All-append, ret, ◌>>=◌,
}
use netrec.Cfg.Path.{
  Tok, key, index, append, is_key_char, is_alpha, toks_file_ok, path_file_ok, cfg_path_depth_max,
}
use netrec.Prelude.Libc.{is_digit}
use netrec.Cfg.Node.{Node}
use netrec.Cfg.Set.{set_walk, cfg_set_str}
use netrec.Cfg.Value.{is_eol, trim_eol, quote, quote_loop, quote_byte}
use netrec.Cfg.File.{lines, load_line, load_lines, dump_line}
use netrec.Cfg.Bounds.{IsKey}
use netrec.Cfg.Assign.{IsPath, path_file_ok-IsPath, load_line-quote}
use netrec.Cfg.Assigns.{Assign, Sets}
use netrec.Cfg.Spell.{spell_more, under, IsPlain, parse_path-spelled}

abbrev NoEol : Bytes → Type 0
NoEol = All (λ c. (c == b'\n') ≡ false)

lines-line : (xs rest : Bytes) → NoEol xs → lines (xs ++ b'\n' ∷ rest) ≡ xs ∷ lines rest
unfolding lines
lines-line [] rest h = refl
lines-line (c ∷ cs) rest h = rw (h.0, lines-line cs rest h.1) refl

quote_byte-NoEol : (c : ℕ) → NoEol (quote_byte c)
unfolding quote_byte
quote_byte-NoEol c = ground arith

quote_loop-NoEol : (s : Bytes) → NoEol (quote_loop s)
unfolding quote_loop
quote_loop-NoEol [] = (refl, tt)
quote_loop-NoEol (c ∷ s) =
    All-append (λ b. (b == b'\n') ≡ false) (quote_byte c) (quote_loop s) (quote_byte-NoEol c)
      (quote_loop-NoEol s)

-- Bytes whose end `trim_eol` keeps.
record KeptEnd (s : Bytes) : Type 0 where
  whole : trim_eol s ≡ s
  some_byte : is_empty s ≡ false

KeptEnd-append : (xs ys : Bytes) → KeptEnd ys → KeptEnd (xs ++ ys)
unfolding trim_eol
KeptEnd-append [] ys h = h
KeptEnd-append (x ∷ xs) ys h =
    let rest = KeptEnd-append xs ys h in
    record { whole = rw (rest.whole, rest.some_byte) refl; some_byte = refl }

quote_loop-KeptEnd : (s : Bytes) → KeptEnd (quote_loop s)
unfolding quote_loop trim_eol is_eol
quote_loop-KeptEnd [] = record { whole = refl; some_byte = refl }
quote_loop-KeptEnd (c ∷ s) = KeptEnd-append (quote_byte c) (quote_loop s) (quote_loop-KeptEnd s)

-- A line, without its newline.
abbrev pub line_of : Bytes → Bytes → Bytes
line_of path val = path ++ (codes " = " ++ quote val)

-- An assignment that a line of a file may hold.
abbrev pub IsLoadable : Assign → Type 0
IsLoadable (key k ∷ ts, v) =
    IsKey k
    × All IsPlain ts
    × (toks_file_ok ts ≡ true)
    × (length ts < cfg_path_depth_max)
    × (length (line_of (under [] (key k ∷ ts)) v) < 4095)
IsLoadable ([], v) = ⊥
IsLoadable (append ∷ ts, v) = ⊥
IsLoadable (index i ∷ ts, v) = ⊥

abbrev pub text_of : Bytes → List Assign → Bytes
text_of p [] = []
text_of p (a ∷ xs) = dump_line (under p a.0) a.1 ++ text_of p xs

path-NoEol : (p : Bytes) → IsPath p → NoEol p
unfolding is_key_char is_alpha is_digit
path-NoEol [] h = tt
path-NoEol (c ∷ p) h = (let x = h.0 in ground arith, path-NoEol p h.1)

dump_line-line_of :
    (path val rest : Bytes) → dump_line path val ++ rest ≡ line_of path val ++ b'\n' ∷ rest
unfolding dump_line codes
dump_line-line_of path val rest =
    ap (λ z. z ++ rest) (sym (append_assoc path (codes " = " ++ quote val) (b'\n' ∷ [])))
    ∙ append_assoc (line_of path val) (b'\n' ∷ []) rest

line_of-NoEol : (path val : Bytes) → NoEol path → NoEol (line_of path val)
unfolding codes quote
line_of-NoEol path val h =
    All-append (λ c. (c == b'\n') ≡ false) path (codes " = " ++ quote val) h
      (refl, (refl, (refl, (refl, quote_loop-NoEol val))))

line_of-trim_eol : (path val : Bytes) → trim_eol (line_of path val) ≡ line_of path val
unfolding codes quote
line_of-trim_eol path val =
    (KeptEnd-append path (codes " = " ++ quote val)
      (KeptEnd-append (codes " = \"") (quote_loop val) (quote_loop-KeptEnd val))).whole

load_lines-step :
    (n m : Node) (l : Bytes) (ls : List Bytes)
    → load_line n (trim_eol l) ≡ (m, ret tt)
    → leb 4095 (length l) ≡ false
    → load_lines n (l ∷ ls) ≡ load_lines m ls
unfolding load_lines
load_lines-step n m l ls e f =
    let node : (load_line n (trim_eol l)).0 ≡ m = ap (λ z. z.0) e in
    let rc : (load_line n (trim_eol l)).1 ≡ ret tt = ap (λ z. z.1) e in rw (f, rc, node) refl

-- One line: it is cut off, and sets its path.
load_lines-line :
    (n m : Node) (c : ℕ) (cs val rest : Bytes)
    → path_file_ok (c ∷ cs) ≡ ret tt
    → length (line_of (c ∷ cs) val) < 4095
    → cfg_set_str n (c ∷ cs) val ≡ (m, ret tt)
    → load_lines n (lines (dump_line (c ∷ cs) val ++ rest)) ≡ load_lines m (lines rest)
load_lines-line n m c cs val rest ok short h =
    let path = path-NoEol (c ∷ cs) (path_file_ok-IsPath (c ∷ cs) ok) in
    let split = lines-line (line_of (c ∷ cs) val) rest (line_of-NoEol (c ∷ cs) val path) in
    let fits : leb 4095 (length (line_of (c ∷ cs) val)) ≡ false = ground arith in
    ap (λ z. load_lines n (lines z)) (dump_line-line_of (c ∷ cs) val rest)
    ∙ ap (load_lines n) split
    ∙ load_lines-step n m (line_of (c ∷ cs) val) (lines rest)
        (ap (load_line n) (line_of-trim_eol (c ∷ cs) val) ∙ load_line-quote n c cs val ok ∙ h) fits

path_file_ok-spelled :
    (k : Bytes) (ts : List Tok)
    → IsKey k
    → All IsPlain ts
    → toks_file_ok ts ≡ true
    → length ts < cfg_path_depth_max
    → path_file_ok (k ++ spell_more ts) ≡ ret tt
unfolding path_file_ok toks_file_ok
path_file_ok-spelled k ts h hs ok l = rw (parse_path-spelled k ts h hs l, ok, ◌>>=◌) refl

cfg_set_str-spelled :
    (n : Node) (k val : Bytes) (ts : List Tok)
    → IsKey k
    → All IsPlain ts
    → length ts < cfg_path_depth_max
    → cfg_set_str n (k ++ spell_more ts) val ≡ set_walk (key k ∷ ts) val n
unfolding cfg_set_str
cfg_set_str-spelled n k val ts h hs l = rw (parse_path-spelled k ts h hs l, cfg_set_str) refl

-- Lines of assignments that succeed one after the other are loaded, and leave what they leave.
pub load_lines-text_of :
    (xs : List Assign) (n m : Node)
    → All IsLoadable xs
    → Sets n xs m
    → load_lines n (lines (text_of [] xs)) ≡ ret m
unfolding load_lines lines
load_lines-text_of [] n m h s = ap ret s
load_lines-text_of (([], v) ∷ xs) n m h s = absurd h.0
load_lines-text_of ((append ∷ ts, v) ∷ xs) n m h s = absurd h.0
load_lines-text_of ((index i ∷ ts, v) ∷ xs) n m h s = absurd h.0
load_lines-text_of ((key [] ∷ ts, v) ∷ xs) n m h s = absurd h.0.0
load_lines-text_of ((key (c ∷ k) ∷ ts, v) ∷ xs) n m ((good, plain, ok, deep, short), hs) (x, e, s) =
    load_lines-line n x c (k ++ spell_more ts) v (text_of [] xs)
      (path_file_ok-spelled (c ∷ k) ts good plain ok deep) short
      (cfg_set_str-spelled n (c ∷ k) v ts good plain deep ∙ e)
    ∙ load_lines-text_of xs x m hs s
