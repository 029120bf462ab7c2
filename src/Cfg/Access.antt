-- ===== src/Cfg/Access.antt =====
-- cfg.c: `walk_get` and the readers built on it.
use netrec.Prelude.{
  ℕ, Option, none, some, List, [], ◌∷◌, Bytes, is_empty, if◌then◌else◌, Result, ret, err, einval,
  enoent, enotdir, eisdir, ◌>>=◌,
}
use netrec.Cfg.Path.{Tok, key, index, append, cfg_path_depth_max, parse_path}
use netrec.Cfg.Node.{
  obj, Node, is_obj, is_arr, is_str, node_new, n_child, obj_find, arr_idx, arr_nth,
}

-- `cfg_init`
abbrev pub cfg_init : Node
cfg_init = node_new obj none

unfoldable pub walk_get : List Tok → Node → Result Node
walk_get [] cur = ret cur
walk_get (append ∷ ts) cur = err einval
walk_get (key k ∷ ts) cur =
    let go = walk_get ts in
    if is_obj cur.type
    then elim (obj_find cur k) [ none ↦ err enoent | some n ↦ go n ]
    else err enotdir
walk_get (index i ∷ ts) cur =
    let go = walk_get ts in
    if is_arr cur.type
    then (do j ← arr_idx cur i; elim (arr_nth cur.child j) [ none ↦ err enoent | some n ↦ go n ])
    else err enotdir

unfoldable pub cfg_get_node : Node → Bytes → Result Node
cfg_get_node root path =
    if is_empty path
    then ret root
    else (do ts ← parse_path path cfg_path_depth_max; walk_get ts root)

-- `node->val ? node->val : ""`
abbrev pub val_text : Option Bytes → Bytes
val_text none = []
val_text (some v) = v

unfoldable pub cfg_get_str : Node → Bytes → Result Bytes
cfg_get_str root path = do
  n ← cfg_get_node root path
  if is_str n.type then ret (val_text n.val) else err eisdir

unfoldable pub cfg_arr_len : Node → Bytes → Result ℕ
cfg_arr_len root path = do
  n ← cfg_get_node root path
  if is_arr n.type then ret (n_child n.child) else err enotdir
