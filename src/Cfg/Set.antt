-- ===== src/Cfg/Set.antt =====
-- cfg.c: `cfg_set_str` and `cfg_del`. A call returns the tree that it leaves behind and its `int`:
-- nodes made on the way to a failure stay. A failing `malloc` is not modelled.
use netrec.Prelude.{
  ℕ, ℤ, pos, negsuc, Bool, false, ◌==◌, none, some, List, [], ◌∷◌, Bytes, if◌then◌else◌, Result,
  ret, err, einval, enoent, enotdir, eisdir,
}
use netrec.Cfg.Path.{Tok, key, index, append, cfg_path_depth_max, parse_path}
use netrec.Cfg.Node.{
  CfgType, obj, arr, str, Node, is_obj, is_arr, is_str, node_new, n_child, obj_find, arr_idx,
  arr_nth, child_add, put_child, put_nth, find_child, drop_child, drop_nth,
}

abbrev pub Rc : Type 0
Rc = Result (Unit {0})

unfoldable pub set_str_plain : Node → Bytes → Bytes → Node × Rc
set_str_plain parent name val = elim (obj_find parent name) [
  | none ↦ (
    record parent {
      child = child_add parent.child (record (node_new str (some name)) { val = some val });
    },
    ret tt,
  )
  | some n ↦
      if is_str n.type
      then (
        record parent { child = put_child parent.child name (record n { val = some val }) },
        ret tt,
      )
      else (parent, err eisdir)
]

unfoldable pub set_arr_append : Node → Bytes → Node × Rc
set_arr_append n val =
    if is_arr n.type
    then (
      record n { child = child_add n.child (record (node_new str none) { val = some val }) },
      ret tt,
    )
    else (n, err enotdir)

-- `idx >= 0 && idx == arr->n_child`
abbrev pub at_end : Node → ℤ → Bool
at_end n (pos i) = i == n_child n.child
at_end n (negsuc i) = false

-- The write of `set_arr_idx` to the child at `j`.
unfoldable pub write_nth : Node → ℕ → Bytes → Node × Rc
write_nth n j val = elim (arr_nth n.child j) [
  | none ↦ (n, err enoent)
  | some c ↦
      if is_str c.type
      then (record n { child = put_nth n.child j (record c { val = some val }) }, ret tt)
      else (n, err enoent)
]

unfoldable pub set_arr_idx : Node → ℤ → Bytes → Node × Rc
set_arr_idx n i val =
    if is_arr n.type
    then (if at_end n i
        then (n, err enoent)
        else elim (arr_idx n i) [ err e ↦ (n, err enoent) | ret j ↦ write_nth n j val ])
    else (n, err enotdir)

-- `want`: what the next token needs under the key.
abbrev pub want : Tok → CfgType
want (key k) = obj
want (index i) = arr
want append = arr

abbrev pub same_type : CfgType → CfgType → Bool
same_type obj t = is_obj t
same_type arr t = is_arr t
same_type str t = is_str t

-- A step of `cfg_set_str` down to the child of an object; a missing child is made. `go` is the rest
-- of the call, on the child.
unfoldable pub enter_key : (Node → Node × Rc) → CfgType → Bytes → Node → Node × Rc
enter_key go t k cur =
    if is_obj cur.type
    then elim (obj_find cur k) [
      | none ↦
          let (n, rc) = go (node_new t (some k)) in
          (record cur { child = child_add cur.child n }, rc)
      | some c ↦
          let (n, rc) = go c in
          if same_type c.type t
          then (record cur { child = put_child cur.child k n }, rc)
          else (cur, err enotdir)
    ]
    else (cur, err enotdir)

-- A step down to an element of an array, in `cfg_set_str` and `cfg_del`.
unfoldable pub enter_index : (Node → Node × Rc) → ℤ → Node → Node × Rc
enter_index go i cur =
    if is_arr cur.type
    then elim (arr_idx cur i) [
      | err e ↦ (cur, err e)
      | ret j ↦ elim (arr_nth cur.child j) [
        | none ↦ (cur, err enoent)
        | some c ↦ let (n, rc) = go c in (record cur { child = put_nth cur.child j n }, rc)
      ]
    ]
    else (cur, err enotdir)

-- The last token of `cfg_set_str`.
unfoldable pub set_last : Tok → Node → Bytes → Node × Rc
set_last (key k) cur val = if is_obj cur.type then set_str_plain cur k val else (cur, err enotdir)
set_last append cur val = set_arr_append cur val
set_last (index i) cur val = set_arr_idx cur i val

-- The loop of `cfg_set_str` from the node `cur` on, and the write at its end.
unfoldable pub set_walk : List Tok → Bytes → Node → Node × Rc
set_walk [] val cur = (cur, err einval)
set_walk (t ∷ []) val cur = set_last t cur val
set_walk (append ∷ u ∷ ts) val cur = (cur, err einval)
set_walk (index i ∷ u ∷ ts) val cur = enter_index (set_walk (u ∷ ts) val) i cur
set_walk (key k ∷ u ∷ ts) val cur = enter_key (set_walk (u ∷ ts) val) (want u) k cur

unfoldable pub cfg_set_str : Node → Bytes → Bytes → Node × Rc
cfg_set_str root path val = elim (parse_path path cfg_path_depth_max) [
  | err e ↦ (root, err e)
  | ret ts ↦ set_walk ts val root
]

unfoldable pub del_arr : Node → ℤ → Node × Rc
del_arr n i =
    if is_arr n.type
    then elim (arr_idx n i) [
      | err e ↦ (n, err enoent)
      | ret j ↦ elim (arr_nth n.child j) [
        | none ↦ (n, err enoent)
        | some c ↦ (record n { child = drop_nth n.child j }, ret tt)
      ]
    ]
    else (n, err enoent)

unfoldable pub del_plain : Node → Bytes → Node × Rc
del_plain parent name = elim (find_child parent.child name) [
  | none ↦ (parent, err enoent)
  | some c ↦ (record parent { child = drop_child parent.child name }, ret tt)
]

-- A step of `cfg_del` down to the child of an object.
unfoldable pub del_key : (Node → Node × Rc) → Bytes → Node → Node × Rc
del_key go k cur =
    if is_obj cur.type
    then elim (obj_find cur k) [
      | none ↦ (cur, err enoent)
      | some c ↦ let (n, rc) = go c in (record cur { child = put_child cur.child k n }, rc)
    ]
    else (cur, err enotdir)

-- The last token of `cfg_del`.
unfoldable pub del_last : Tok → Node → Node × Rc
del_last append cur = (cur, err einval)
del_last (index i) cur = del_arr cur i
del_last (key k) cur = if is_obj cur.type then del_plain cur k else (cur, err enotdir)

unfoldable pub del_walk : List Tok → Node → Node × Rc
del_walk [] cur = (cur, err einval)
del_walk (t ∷ []) cur = del_last t cur
del_walk (append ∷ u ∷ ts) cur = (cur, err einval)
del_walk (index i ∷ u ∷ ts) cur = enter_index (del_walk (u ∷ ts)) i cur
del_walk (key k ∷ u ∷ ts) cur = del_key (del_walk (u ∷ ts)) k cur

unfoldable pub cfg_del : Node → Bytes → Node × Rc
cfg_del root path = elim (parse_path path cfg_path_depth_max) [
  | err e ↦ (root, err e)
  | ret ts ↦ del_walk ts root
]
