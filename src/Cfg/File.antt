-- ===== src/Cfg/File.antt =====
-- cfg.c: `load_line`, the loop of `cfg_load` over the lines of a file, and `dump_node`. What `fopen`
-- and a failing `fputc` do is not modelled: a file is its bytes, none of them NUL.
use netrec.Prelude.{
  Option, none, some, List, [], ◌∷◌, ◌++◌, Bytes, codes, is_empty, ◌==◌, leb, if◌then◌else◌, length,
  split_first, Result, ret, err, einval, e2big, eopnotsupp,
}
use netrec.Cfg.Path.{path_file_ok}
use netrec.Cfg.Node.{obj, arr, str, Nodes, nil, link, Node, is_str}
use netrec.Cfg.Access.{cfg_init, val_text}
use netrec.Cfg.Set.{Rc, cfg_set_str}
use netrec.Cfg.Value.{trim, trim_eol, rest_ok, parse_value, quote}

-- Behind the `=`: the key and the value, both trimmed.
unfoldable pub assign : Node → Bytes → Bytes → Node × Rc
assign root key val = if is_empty key then (root, err einval) else elim (path_file_ok key) [
  | err e ↦ (root, err e)
  | ret _ ↦ elim (parse_value val) [ err e ↦ (root, err e) | ret v ↦ cfg_set_str root key v ]
]

-- An empty line or a comment is skipped.
unfoldable pub load_line : Node → Bytes → Node × Rc
load_line root line =
    let key = trim line in
    if rest_ok key then (root, ret tt) else elim (split_first b'=' key) [
      | none ↦ (root, err einval)
      | some (k, v) ↦ assign root (trim k) (trim v)
    ]

-- The lines of a file as `fgets` gives them, without the newline that ends them.
unfoldable pub lines : Bytes → List Bytes
lines [] = []
lines (c ∷ cs) =
    if c == b'\n'
    then [] ∷ lines cs
    else elim (lines cs) [ [] ↦ (c ∷ []) ∷ [] | l ∷ ls ↦ (c ∷ l) ∷ ls ]

-- The loop of `cfg_load`. `char line[4096]` holds 4094 bytes before the newline.
unfoldable pub load_lines : Node → List Bytes → Result Node
load_lines root [] = ret root
load_lines root (l ∷ ls) =
    let (root', rc) = load_line root (trim_eol l) in
    let go = load_lines root' ls in
    if leb 4095 (length l) then err e2big else elim rc [ err e ↦ err e | ret _ ↦ go ]

-- On an error `cfg_load` frees the tree.
unfoldable pub cfg_load : Bytes → Result Node
unfolding lines
cfg_load file = load_lines cfg_init (lines file)

-- `path = "value"` and the newline.
unfoldable pub dump_line : Bytes → Bytes → Bytes
dump_line path val = path ++ (codes " = " ++ (quote val ++ b'\n' ∷ []))

-- The elements of an array: what has been written, and the `int`.
unfoldable pub dump_items : Bytes → Nodes → Bytes × Rc
dump_items path nil = ([], ret tt)
dump_items path (link t m v c next) =
    let (out, rc) = dump_items path next in
    if is_str t
    then (dump_line (path ++ codes "[]") (val_text v) ++ out, rc)
    else ([], err eopnotsupp)

-- The path of a child: `snprintf(path + len, sz - len, ".%s", child->name)`.
unfoldable pub child_path : Bytes → Option Bytes → Bytes
child_path [] m = val_text m
child_path (c ∷ path) m = (c ∷ path) ++ (b'.' ∷ val_text m)

-- `dump_node` on the children of an object, with the path of the object; `char path[512]`.
unfoldable pub dump_nodes : Bytes → Nodes → Bytes × Rc
dump_nodes path nil = ([], ret tt)
dump_nodes path (link t m v c next) =
    let p = child_path path m in
    let here : Bytes × Rc = elim t [
      | str ↦ (dump_line p (val_text v), ret tt)
      | arr ↦ dump_items p c
      | obj ↦ dump_nodes p c
    ] in
    let (out, rc) = dump_nodes path next in
    if leb 512 (length p)
    then ([], err e2big)
    else elim here.1 [ err e ↦ (here.0, err e) | ret _ ↦ (here.0 ++ out, rc) ]

-- `cfg_dump_file`, on the root
unfoldable pub cfg_dump_file : Node → Bytes × Rc
unfolding dump_nodes
cfg_dump_file root = dump_nodes [] root.child
