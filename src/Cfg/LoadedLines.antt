-- ===== src/Cfg/LoadedLines.antt =====
-- cfg.c: the lines of a file, up to the tree that `cfg_load` returns.
use netrec.Prelude.{
  ◌≡◌, refl, sym, subst, inl, inr, Bool-cases, true, false, Option-cases, none, List, [], ◌∷◌,
  Bytes, is_empty, leb, length, All, split_first, Result-cases, ret, ◌>>=◌,
}
use netrec.Cfg.Path.{Tok, parse_path, toks_file_ok, path_file_ok, cfg_path_depth_max}
use netrec.Cfg.Node.{Nodes, nil, link, Node}
use netrec.Cfg.Set.{cfg_set_str}
use netrec.Cfg.Access.{cfg_init}
use netrec.Cfg.Value.{trim, trim_eol, rest_ok, parse_value}
use netrec.Cfg.File.{assign, load_line, lines, load_lines, cfg_load, cfg_dump_file}
use netrec.Cfg.Bounds.{IsTok, parse_path-bounds}
use netrec.Cfg.Spell.{IsFilePath}
use netrec.Cfg.Tree.{IsTree, empty, assigns}
use netrec.Cfg.RoundTrip.{IsShort, cfg_load-cfg_dump_file}
use netrec.Cfg.Shape.{IsObject, a_tree}
use netrec.Cfg.Loaded.{set_walk-IsObject, toks-IsFilePath, parse_path-first}

-- The root of a configuration.
abbrev pub root_of : Nodes → Node
root_of ns = record cfg_init { child = ns }

path_toks-IsFilePath :
    (path : Bytes) (ts : List Tok)
    → parse_path path cfg_path_depth_max ≡ ret ts
    → is_empty path ≡ false
    → toks_file_ok ts ≡ true
    → IsFilePath ts
unfolding toks_file_ok
path_toks-IsFilePath path ts e some_path ok =
    let (k, us, same) = parse_path-first path ts e some_path in
    let good = subst (All IsTok) same (parse_path-bounds path cfg_path_depth_max ts e).0 in
    subst IsFilePath (sym same)
      (toks-IsFilePath k us good.0 good.1 (subst (λ z. toks_file_ok z ≡ true) same ok))

cfg_set_str-IsObject :
    (path v : Bytes) (ns : Nodes)
    → IsTree ns
    → is_empty path ≡ false
    → path_file_ok path ≡ ret tt
    → (cfg_set_str (root_of ns) path v).1 ≡ ret tt
    → IsObject none (cfg_set_str (root_of ns) path v).0
unfolding cfg_set_str path_file_ok
cfg_set_str-IsObject path v ns h some_path ok r =
    elim (Result-cases (parse_path path cfg_path_depth_max)) [
      | inl (x, e) ↦ cc (rw (e, ◌>>=◌) at ok)
      | inr (ts, e) ↦ elim (Bool-cases (toks_file_ok ts)) [
        | inr n ↦ cc (rw (e, ◌>>=◌, n) at ok)
        | inl y ↦
            rw (e, cfg_set_str)
              (set_walk-IsObject ts v none ns (path_toks-IsFilePath path ts e some_path y) h
                (rw (e, cfg_set_str) at r))
      ]
    ]

-- A root whose children are a tree.
abbrev pub IsLoaded : Node → Type 0
IsLoaded n = (ns : Nodes) × (n ≡ root_of ns) × IsTree ns

IsObject-IsLoaded : {n : Node} → IsObject none n → IsLoaded n
IsObject-IsLoaded (a_tree {t} {m} {v} {c} {d} h) = (link t m v c d, refl, h)

assign-IsLoaded :
    (k v : Bytes) (n : Node) → IsLoaded n → (assign n k v).1 ≡ ret tt → IsLoaded (assign n k v).0
unfolding assign
assign-IsLoaded k v n (ns, same, h) r = elim (Bool-cases (is_empty k)) [
  | inl y ↦ cc (rw (y, assign) at r)
  | inr b ↦ elim (Result-cases (path_file_ok k)) [
    | inl (x, e) ↦ cc (rw (b, e, assign) at r)
    | inr (u, e) ↦ elim (Result-cases (parse_value v)) [
      | inl (x, f) ↦ cc (rw (b, e, f, assign) at r)
      | inr (w, f) ↦
          rw (b, e, f, same, assign)
            (IsObject-IsLoaded
              (cfg_set_str-IsObject k w ns h b e (rw (b, e, f, same, assign) at r)))
    ]
  ]
]

load_line-IsLoaded :
    (line : Bytes) (n : Node)
    → IsLoaded n
    → (load_line n line).1 ≡ ret tt
    → IsLoaded (load_line n line).0
unfolding load_line
load_line-IsLoaded line n h r = elim (Bool-cases (rest_ok (trim line))) [
  | inl y ↦ rw y h
  | inr b ↦ elim (Option-cases (split_first b'=' (trim line))) [
    | inl e ↦ cc (rw (b, e, load_line) at r)
    | inr ((k, v), e) ↦
        rw (b, e, load_line) (assign-IsLoaded (trim k) (trim v) n h (rw (b, e, load_line) at r))
  ]
]

load_lines-IsLoaded :
    (ls : List Bytes) (n m : Node) → IsLoaded n → load_lines n ls ≡ ret m → IsLoaded m
unfolding load_lines
load_lines-IsLoaded [] n m h e = let same : n ≡ m = cc e in subst IsLoaded same h
load_lines-IsLoaded (l ∷ ls) n m h e = elim (Bool-cases (leb 4095 (length l))) [
  | inl y ↦ cc (rw (y, load_lines) at e)
  | inr b ↦ elim (Result-cases (load_line n (trim_eol l)).1) [
    | inl (x, f) ↦ cc (rw (b, f, load_lines) at e)
    | inr (u, f) ↦
        load_lines-IsLoaded ls (load_line n (trim_eol l)).0 m
          (load_line-IsLoaded (trim_eol l) n h f) (rw (b, f, load_lines) at e)
  ]
]

-- Every configuration that is loaded is a root whose keys are keys of a path, each once in its object,
-- whose arrays hold strings, and where no array and no object below the root is empty.
pub cfg_load-IsLoaded : (file : Bytes) (n : Node) → cfg_load file ≡ ret n → IsLoaded n
unfolding cfg_load
cfg_load-IsLoaded file n h = load_lines-IsLoaded (lines file) cfg_init n (nil, refl, empty) h

-- A configuration that was loaded and can be dumped is loaded again from the dump as it was, if no line
-- of the dump has more than 4094 bytes and no value stands deeper than 64 keys.
pub cfg_load-cfg_dump_file-cfg_load :
    (file : Bytes) (n : Node)
    → cfg_load file ≡ ret n
    → All IsShort (assigns n.child)
    → (cfg_dump_file n).1 ≡ ret tt
    → cfg_load (cfg_dump_file n).0 ≡ ret n
cfg_load-cfg_dump_file-cfg_load file n h short d =
    let (ns, same, tree) = cfg_load-IsLoaded file n h in
    subst
      (λ z.
        All IsShort (assigns z.child)
        → (cfg_dump_file z).1 ≡ ret tt
        → cfg_load (cfg_dump_file z).0 ≡ ret z)
      (sym same) (cfg_load-cfg_dump_file ns tree) short d
