-- ===== src/Uci/Lines.antt =====
-- uci.c: the lines that `cfg_state` writes, as paths below the state and values, and as the assignments
-- of a tree.
use netrec.Prelude.{
  ℕ, zero, suc, ◌+◌, ◌/◌, ◌%◌, ◌<◌, ◌≡◌, refl, sym, ◌∙◌, ap, subst, inl, inr, Bool-cases, true,
  false, some, List, [], ◌∷◌, ◌++◌, append_assoc, arith, Bytes, codes, decimal, digits_onto, length,
  ltb, leb, ◌==◌, All, ret, ◌>>=◌, >>=-eq-ret,
}
use netrec.Prelude.Libc.{is_digit}
use netrec.Cfg.Path.{key, index, append}
use netrec.Cfg.Node.{Nodes}
use netrec.Cfg.Value.{quote, quote_loop, quote_byte}
use netrec.Cfg.File.{dump_line, child_path}
use netrec.Cfg.Bounds.{IsKey}
use netrec.Cfg.Assigns.{Assign, under_key}
use netrec.Cfg.Spell.{under, IsFilePath}
use netrec.Cfg.Tree.{assigns, item_assigns}
use netrec.Cfg.Replay.{text_of}
use netrec.Cfg.RoundTrip.{under-child_path}
use netrec.Uci.Dump.{
  Field, field_str, field_u32, if_text, each_field, cfg_line_str, cfg_line_u32, cfg_path, put_field,
  put_fields,
}
use netrec.Uci.Tree.{leaf_if, arr_if, items}

-- The path below the state, and the value.
abbrev pub Line : Type 0
Line = Bytes × Bytes

abbrev pub line_of_field : Field → Line
line_of_field (field_str tail v) = (tail, v)
line_of_field (field_u32 tail n) = (tail, decimal n)

abbrev pub lines_of : List Field → List Line
lines_of [] = []
lines_of (f ∷ fs) = line_of_field f ∷ lines_of fs

-- The lines of assignments below a path.
abbrev pub tails : Bytes → List Assign → List Line
tails p [] = []
tails p (a ∷ xs) = (under p a.0, a.1) ∷ tails p xs

pub tails-append : (p : Bytes) (xs ys : List Assign) → tails p (xs ++ ys) ≡ tails p xs ++ tails p ys
tails-append p [] ys = refl
tails-append p (a ∷ xs) ys = ap (λ z. (under p a.0, a.1) ∷ z) (tails-append p xs ys)

pub lines_of-append : (fs gs : List Field) → lines_of (fs ++ gs) ≡ lines_of fs ++ lines_of gs
lines_of-append [] gs = refl
lines_of-append (f ∷ fs) gs = ap (λ z. line_of_field f ∷ z) (lines_of-append fs gs)

pub tails-under_key :
    (p k : Bytes) (xs : List Assign)
    → IsKey k
    → tails p (under_key k xs) ≡ tails (child_path p (some k)) xs
tails-under_key p k [] h = refl
tails-under_key p k (a ∷ xs) h = rw (under-child_path p k a.0 h, tails-under_key p k xs h) refl

module _ (p k t : Bytes) (fs : List Field) (next : Nodes)
    (h : lines_of fs ≡ tails p (assigns next)) where
  pub lines_of-leaf_if :
      (v : Bytes)
      → t ≡ under p (key k ∷ [])
      → lines_of (if_text t v ++ fs) ≡ tails p (assigns (leaf_if k v next))
  unfolding if_text
  lines_of-leaf_if [] e = h
  lines_of-leaf_if (c ∷ v) e = rw (e, h) refl

  lines_of-items :
      (vs : List Bytes)
      → t ≡ under p (key k ∷ append ∷ [])
      → lines_of (each_field t vs ++ fs)
        ≡ tails p (under_key k (item_assigns (items vs)) ++ assigns next)
  unfolding each_field
  lines_of-items [] e = h
  lines_of-items (v ∷ vs) e = rw (e, lines_of-items vs e) refl

  pub lines_of-arr_if :
      (vs : List Bytes)
      → t ≡ under p (key k ∷ append ∷ [])
      → lines_of (each_field t vs ++ fs) ≡ tails p (assigns (arr_if k vs next))
  unfolding each_field
  lines_of-arr_if [] e = h
  lines_of-arr_if (v ∷ vs) e = lines_of-items (v ∷ vs) e

-- The text of lines below a path.
abbrev pub dumped : Bytes → List Line → Bytes
dumped p [] = []
dumped p (l ∷ ls) = dump_line (p ++ b'.' ∷ l.0) l.1 ++ dumped p ls

pub dumped-tails :
    (c : ℕ) (p : Bytes) (xs : List Assign)
    → All (λ a. IsFilePath a.0) xs
    → dumped (c ∷ p) (tails [] xs) ≡ text_of (c ∷ p) xs
dumped-tails c p [] h = refl
dumped-tails c p (([], v) ∷ xs) h = absurd h.0
dumped-tails c p ((key k ∷ ts, v) ∷ xs) h =
    ap (λ z. dump_line (under (c ∷ p) (key k ∷ ts)) v ++ z) (dumped-tails c p xs h.1)
dumped-tails c p ((append ∷ ts, v) ∷ xs) h = absurd h.0
dumped-tails c p ((index i ∷ ts, v) ∷ xs) h = absurd h.0

-- Digits are quoted as they are.
digits_onto-digits :
    (f n : ℕ) (acc : Bytes)
    → All (λ c. is_digit c ≡ true) acc
    → All (λ c. is_digit c ≡ true) (digits_onto f n acc)
unfolding digits_onto is_digit
digits_onto-digits zero n acc h = h
digits_onto-digits (suc f) n acc h = elim (Bool-cases (ltb n 10)) [
  | inl y ↦ rw y (ground arith, h)
  | inr b ↦ rw b (digits_onto-digits f (n / 10) ((48 + n % 10) ∷ acc) (ground arith, h))
]

quote_loop-digits : (s : Bytes) → All (λ c. is_digit c ≡ true) s → quote_loop s ≡ s ++ b'"' ∷ []
unfolding quote_loop quote_byte is_digit
quote_loop-digits [] h = refl
quote_loop-digits (c ∷ s) h =
    let slash : (c == b'\\') ≡ false = ground arith in
    let mark : (c == b'"') ≡ false = ground arith in
    let line : (c == b'\n') ≡ false = ground arith in
    let tab : (c == b'\t') ≡ false = ground arith in
    rw (slash, mark, line, tab, quote_loop-digits s h.1) refl

decimal-digits : (n : ℕ) → All (λ c. is_digit c ≡ true) (decimal n)
unfolding decimal
decimal-digits n = digits_onto-digits 10 n [] tt

quoted_digits :
    (path s : Bytes)
    → All (λ c. is_digit c ≡ true) s
    → path ++ (codes " = \"" ++ (s ++ codes "\"\n")) ≡ dump_line path s
unfolding dump_line codes quote
quoted_digits path s h = rw (quote_loop-digits s h) (
    ap (λ z. path ++ (b' ' ∷ b'=' ∷ b' ' ∷ b'"' ∷ z))
      (sym (append_assoc s (b'"' ∷ []) (b'\n' ∷ []))))

cfg_line_u32-dump_line : (path : Bytes) (n : ℕ) → cfg_line_u32 path n ≡ dump_line path (decimal n)
unfolding cfg_line_u32
cfg_line_u32-dump_line path n = quoted_digits path (decimal n) (decimal-digits n)

-- The path of the states, and of a state.
abbrev pub state_path : Bytes → Bytes
state_path id = codes "state." ++ id

cfg_path-split :
    (id tail path : Bytes)
    → cfg_path id tail ≡ ret path
    → (path ≡ state_path id ++ b'.' ∷ tail) × (length path < 256)
unfolding cfg_path
cfg_path-split id tail path h =
    elim (Bool-cases (leb 256 (length (codes "state." ++ (id ++ (b'.' ∷ tail)))))) [
      | inl y ↦ cc (rw y at h)
      | inr b ↦
          let same : codes "state." ++ (id ++ (b'.' ∷ tail)) ≡ path = cc (rw b at h) in
          (
            sym same ∙ sym (append_assoc (codes "state.") id (b'.' ∷ tail)),
            subst (λ z. length z < 256) same (ground arith),
          )
    ]

-- A line, where its path fits.
record IsPut (id : Bytes) (l : Line) (out : Bytes) : Type 0 where
  text : out ≡ dump_line (state_path id ++ b'.' ∷ l.0) l.1
  short : length (state_path id ++ b'.' ∷ l.0) < 256

put_field-IsPut :
    (id out : Bytes) (f : Field) → put_field id f ≡ ret out → IsPut id (line_of_field f) out
unfolding put_field cfg_line_str dump_line
put_field-IsPut id out (field_str tail v) h =
    let (path, e, g) =
      >>=-eq-ret {B = Bytes} (cfg_path id tail) (λ path. ret (cfg_line_str path v)) h in
    let (split, short) = cfg_path-split id tail path e in
    let line : dump_line path v ≡ out = cc g in
    record {
      text = sym line ∙ ap (λ z. dump_line z v) split;
      short = subst (λ z. length z < 256) split short;
    }
put_field-IsPut id out (field_u32 tail n) h =
    let (path, e, g) =
      >>=-eq-ret {B = Bytes} (cfg_path id tail) (λ path. ret (cfg_line_u32 path n)) h in
    let (split, short) = cfg_path-split id tail path e in
    let line : cfg_line_u32 path n ≡ out = cc g in
    record {
      text = sym line ∙ cfg_line_u32-dump_line path n ∙ ap (λ z. dump_line z (decimal n)) split;
      short = subst (λ z. length z < 256) split short;
    }

-- What `put_fields` writes is the text of the fields' lines, and all their paths fit.
pub put_fields-dumped :
    (id out : Bytes) (fs : List Field)
    → put_fields id fs ≡ ret out
    → (out ≡ dumped (state_path id) (lines_of fs))
      × All (λ l. length (state_path id ++ b'.' ∷ l.0) < 256) (lines_of fs)
unfolding put_fields
put_fields-dumped id out [] h = let same : ◌≡◌ {A = Bytes} [] out = cc h in (sym same, tt)
put_fields-dumped id out (f ∷ fs) h =
    let (line, e, g) =
      >>=-eq-ret {B = Bytes} (put_field id f)
        (λ line. put_fields id fs >>= λ rest. ret (line ++ rest)) h in
    let (rest, i, j) = >>=-eq-ret {B = Bytes} (put_fields id fs) (λ rest. ret (line ++ rest)) g in
    let whole : line ++ rest ≡ out = cc j in
    let first = put_field-IsPut id line f e in
    let (text, short) = put_fields-dumped id rest fs i in
    (
      sym whole
          ∙ ap (λ z. z ++ rest) first.text
          ∙ ap
              (λ z.
                dump_line (state_path id ++ b'.' ∷ (line_of_field f).0) (line_of_field f).1 ++ z)
              text,
      (first.short, short),
    )
