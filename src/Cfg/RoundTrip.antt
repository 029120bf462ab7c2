-- ===== src/Cfg/RoundTrip.antt =====
-- cfg.c: what `cfg_dump_file` writes, `cfg_load` reads back.
use netrec.Prelude.{
  ℕ, ◌≤◌, ◌<◌, ◌≡◌, refl, sym, ◌∙◌, ap, Bool, true, false, Option, none, some, List, [], ◌∷◌, ◌++◌,
  append_assoc, append-nil, arith, Bytes, codes, length, leb, if◌then◌else◌, All, All-append, ret,
  err, e2big,
}
use netrec.Cfg.Path.{Tok, key, index, append, toks_file_ok, cfg_path_depth_max}
use netrec.Cfg.Node.{CfgType, obj, arr, str, Nodes, nil, link}
use netrec.Cfg.Set.{Rc}
use netrec.Cfg.Access.{cfg_init, val_text}
use netrec.Cfg.File.{cfg_load, dump_line, dump_items, child_path, dump_nodes, cfg_dump_file}
use netrec.Cfg.Bounds.{IsKey}
use netrec.Cfg.Assigns.{Assign, under_key}
use netrec.Cfg.Tree.{
  IsItems, last, more, IsTree, empty, text, list, object, item_assigns, assigns, assigns-build,
  Free-nil,
}
use netrec.Cfg.Spell.{spell_more, under, IsPlain, IsFilePath}
use netrec.Cfg.Replay.{IsLoadable, line_of, text_of, load_lines-text_of}

pub text_of-append :
    (p : Bytes) (xs ys : List Assign) → text_of p (xs ++ ys) ≡ text_of p xs ++ text_of p ys
text_of-append p [] ys = refl
text_of-append p (a ∷ xs) ys =
    ap (λ z. dump_line (under p a.0) a.1 ++ z) (text_of-append p xs ys)
    ∙ sym (append_assoc (dump_line (under p a.0) a.1) (text_of p xs) (text_of p ys))

pub under-child_path :
    (p k : Bytes) (ts : List Tok)
    → IsKey k
    → under p (key k ∷ ts) ≡ under (child_path p (some k)) ts
unfolding child_path
under-child_path p [] ts h = absurd h
under-child_path [] (b ∷ k) ts h = refl
under-child_path (c ∷ p) (b ∷ k) ts h = sym (append_assoc (c ∷ p) (b'.' ∷ b ∷ k) (spell_more ts))

under-nil : (p : Bytes) → under p [] ≡ p
under-nil [] = refl
under-nil (c ∷ p) = append-nil (c ∷ p)

pub text_of-under_key :
    (p k : Bytes) (xs : List Assign)
    → IsKey k
    → text_of p (under_key k xs) ≡ text_of (child_path p (some k)) xs
text_of-under_key p k [] h = refl
text_of-under_key p k (a ∷ xs) h = rw (under-child_path p k a.0 h, text_of-under_key p k xs h) refl

dump_items-text :
    (c : ℕ) (p : Bytes) {ns : Nodes}
    → IsItems ns
    → dump_items (c ∷ p) ns ≡ (text_of (c ∷ p) (item_assigns ns), ret tt)
unfolding dump_items codes
dump_items-text c p (last {v}) = refl
dump_items-text c p (more {v} {next} h) = rw (dump_items-text c p h) refl

-- What `dump_nodes` makes of a child and of the children behind it.
abbrev joined : Bool → Bytes × Rc → Bytes × Rc → Bytes × Rc
joined long here rest =
    if long
    then ([], err e2big)
    else elim here.1 [ err e ↦ (here.0, err e) | ret _ ↦ (here.0 ++ rest.0, rest.1) ]

joined-ret :
    (long : Bool) (here rest : Bytes × Rc)
    → (joined long here rest).1 ≡ ret tt
    → (here.1 ≡ ret tt) × (rest.1 ≡ ret tt) × ((joined long here rest).0 ≡ here.0 ++ rest.0)
joined-ret true here rest h = cc h
joined-ret false (x, err e) rest h = cc h
joined-ret false (x, ret u) rest h = (refl, h, refl)

-- What `dump_nodes` writes for a child.
abbrev child_out : Bytes → CfgType → Option Bytes → Nodes → Bytes × Rc
child_out p str v c = (dump_line p (val_text v), ret tt)
child_out p arr v c = dump_items p c
child_out p obj v c = dump_nodes p c

dump_nodes-link :
    (p k : Bytes) (t : CfgType) (v : Option Bytes) (c next : Nodes)
    → dump_nodes p (link t (some k) v c next)
      ≡ joined
          (leb 512 (length (child_path p (some k))))
          (child_out (child_path p (some k)) t v c)
          (dump_nodes p next)
unfolding dump_nodes
dump_nodes-link p k str v c next = refl
dump_nodes-link p k arr v c next = refl
dump_nodes-link p k obj v c next = refl

items_out :
    (p k : Bytes) {c : Nodes}
    → IsKey k
    → IsItems c
    → (dump_items (child_path p (some k)) c).0 ≡ text_of p (under_key k (item_assigns c))
unfolding child_path
items_out p [] h i = absurd h
items_out [] (b ∷ k) {c} h i =
    ap (λ z. z.0) (dump_items-text b k i) ∙ sym (text_of-under_key [] (b ∷ k) (item_assigns c) h)
items_out (a ∷ p) (b ∷ k) {c} h i =
    ap (λ z. z.0) (dump_items-text a (p ++ (b'.' ∷ b ∷ k)) i)
    ∙ sym (text_of-under_key (a ∷ p) (b ∷ k) (item_assigns c) h)

-- One child, and the children behind it.
child_text :
    (p k : Bytes) (t : CfgType) (v : Option Bytes) (c next : Nodes) (xs ys : List Assign)
    → (dump_nodes p (link t (some k) v c next)).1 ≡ ret tt
    → ((child_out (child_path p (some k)) t v c).1 ≡ ret tt
        → (child_out (child_path p (some k)) t v c).0 ≡ text_of p xs)
    → ((dump_nodes p next).1 ≡ ret tt → (dump_nodes p next).0 ≡ text_of p ys)
    → (dump_nodes p (link t (some k) v c next)).0 ≡ text_of p (xs ++ ys)
child_text p k t v c next xs ys h f g =
    let e = dump_nodes-link p k t v c next in
    let long = leb 512 (length (child_path p (some k))) in
    let here = child_out (child_path p (some k)) t v c in
    let (a, b, d) = joined-ret long here (dump_nodes p next) (ap (λ z. z.1) (sym e) ∙ h) in
    ap (λ z. z.0) e
    ∙ d
    ∙ ap (λ z. z ++ (dump_nodes p next).0) (f a)
    ∙ ap (λ z. text_of p xs ++ z) (g b)
    ∙ sym (text_of-append p xs ys)

-- A dump that succeeds writes the assignments of the tree.
pub dump_nodes-text :
    (p : Bytes) {ns : Nodes}
    → IsTree ns
    → (dump_nodes p ns).1 ≡ ret tt
    → (dump_nodes p ns).0 ≡ text_of p (assigns ns)
unfolding dump_nodes
dump_nodes-text p empty h = refl
dump_nodes-text p (text {k} {v} {next} x y z) h =
    child_text p k str (some v) nil next ((key k ∷ [], v) ∷ []) (assigns next) h
      (λ e.
        ap (λ z. dump_line z v)
          (sym (under-nil (child_path p (some k))) ∙ sym (under-child_path p k [] x))
        ∙ sym (append-nil (dump_line (under p (key k ∷ [])) v)))
      (dump_nodes-text p z)
dump_nodes-text p (list {k} {c} {next} x y w z) h =
    child_text p k arr none c next (under_key k (item_assigns c)) (assigns next) h
      (λ e. items_out p k x w) (dump_nodes-text p z)
dump_nodes-text p (object {k} {t} {m} {v} {c} {d} {next} x y w z) h =
    let child = link t m v c d in
    child_text p k obj none child next (under_key k (assigns child)) (assigns next) h
      (λ e.
        dump_nodes-text (child_path p (some k)) w e ∙ sym (text_of-under_key p k (assigns child) x))
      (dump_nodes-text p z)

under_key-IsFilePath :
    (k : Bytes) (xs : List Assign)
    → IsKey k
    → All (λ a. IsFilePath a.0) xs
    → All (λ a. IsFilePath a.0) (under_key k xs)
under_key-IsFilePath k [] h f = tt
under_key-IsFilePath k (([], v) ∷ xs) h f = absurd f.0
under_key-IsFilePath k ((key l ∷ ts, v) ∷ xs) h f = ((h, f.0), under_key-IsFilePath k xs h f.1)
under_key-IsFilePath k ((append ∷ ts, v) ∷ xs) h f = absurd f.0
under_key-IsFilePath k ((index i ∷ ts, v) ∷ xs) h f = absurd f.0

items-IsFilePath :
    (k : Bytes) (c : Nodes) → IsKey k → All (λ a. IsFilePath a.0) (under_key k (item_assigns c))
items-IsFilePath k nil h = tt
items-IsFilePath k (link t m v c next) h = (h, items-IsFilePath k next h)

pub assigns-IsFilePath : {ns : Nodes} → IsTree ns → All (λ a. IsFilePath a.0) (assigns ns)
assigns-IsFilePath empty = tt
assigns-IsFilePath (text x y z) = (x, assigns-IsFilePath z)
assigns-IsFilePath (list {k} {c} {next} x y w z) =
    All-append (λ a. IsFilePath a.0) (under_key k (item_assigns c)) (assigns next)
      (items-IsFilePath k c x) (assigns-IsFilePath z)
assigns-IsFilePath (object {k} {t} {m} {v} {c} {d} {next} x y w z) =
    All-append (λ a. IsFilePath a.0) (under_key k (assigns (link t m v c d))) (assigns next)
      (under_key-IsFilePath k (assigns (link t m v c d)) x (assigns-IsFilePath w))
      (assigns-IsFilePath z)

file_path-IsPlain :
    (k : Bytes) (ts : List Tok)
    → IsFilePath (key k ∷ ts)
    → IsKey k × All IsPlain ts × (toks_file_ok ts ≡ true)
unfolding toks_file_ok
file_path-IsPlain k [] h = (h, tt, refl)
file_path-IsPlain k (append ∷ []) h = (h, (tt, tt), refl)
file_path-IsPlain k (append ∷ u ∷ ts) h = absurd h
file_path-IsPlain k (index i ∷ ts) h = absurd h
file_path-IsPlain k (key l ∷ ts) h =
    let (good, plain, ok) = file_path-IsPlain l ts h.1 in (h.0, (good, plain), ok)

-- At most 64 keys, and at most 4094 bytes of a line.
abbrev pub IsShort : Assign → Type 0
IsShort a = (length a.0 ≤ cfg_path_depth_max) × (length (line_of (under [] a.0) a.1) < 4095)

loadable : (xs : List Assign) → All (λ a. IsFilePath a.0) xs → All IsShort xs → All IsLoadable xs
loadable [] h s = tt
loadable (([], v) ∷ xs) h s = absurd h.0
loadable ((append ∷ ts, v) ∷ xs) h s = absurd h.0
loadable ((index i ∷ ts, v) ∷ xs) h s = absurd h.0
loadable ((key k ∷ ts, v) ∷ xs) h s =
    let (good, plain, ok) = file_path-IsPlain k ts h.0 in
    ((good, plain, ok, omega (arith, s.0.0), s.0.1), loadable xs h.1 s.1)

-- The text of a tree's assignments is loaded as the tree.
pub cfg_load-text_of :
    {ns : Nodes}
    → IsTree ns
    → All IsShort (assigns ns)
    → cfg_load (text_of [] (assigns ns)) ≡ ret (record cfg_init { child = ns })
unfolding cfg_load
cfg_load-text_of {ns} h s =
    load_lines-text_of (assigns ns) cfg_init (record cfg_init { child = ns })
      (loadable (assigns ns) (assigns-IsFilePath h) s) (assigns-build cfg_init nil h (Free-nil ns))

-- A tree that can be dumped is loaded again as it was: if its keys are keys of a path, each once in its
-- object, its arrays hold strings, no array and no object is empty, no value stands deeper than 64 keys,
-- and no line has more than 4094 bytes.
pub cfg_load-cfg_dump_file :
    (ns : Nodes)
    → IsTree ns
    → All IsShort (assigns ns)
    → (cfg_dump_file (record cfg_init { child = ns })).1 ≡ ret tt
    → cfg_load (cfg_dump_file (record cfg_init { child = ns })).0
      ≡ ret (record cfg_init { child = ns })
unfolding cfg_dump_file
cfg_load-cfg_dump_file ns h s d = ap cfg_load (dump_nodes-text [] h d) ∙ cfg_load-text_of h s
