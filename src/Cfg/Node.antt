-- ===== src/Cfg/Node.antt =====
-- cfg.c: the nodes of the tree and the searches among a node's children. As in `struct cfg_node`
-- the children of a node hang on its `child`, linked by `next`; `parent`, `tail` and `n_child` follow
-- from the links.
use netrec.Prelude.{
  ℕ, zero, suc, ◌+◌, ◌-◌, ℤ, pos, negsuc, Bool, true, false, Option, none, some, Bytes, streq, ltb,
  leb, if◌then◌else◌, Result, ret, err, enoent, enotdir,
}

pub data CfgType : Type 0 where
  obj arr str : CfgType

-- A chain of nodes: type, name, value, child, next.
pub data Nodes : Type 0 where
  nil : Nodes
  link : CfgType → Option Bytes → Option Bytes → Nodes → Nodes → Nodes

pub record Node : Type 0 where
  pub type : CfgType
  pub name : Option Bytes
  pub val : Option Bytes
  pub child : Nodes

abbrev pub is_obj : CfgType → Bool
is_obj obj = true
is_obj _ = false

abbrev pub is_arr : CfgType → Bool
is_arr arr = true
is_arr _ = false

abbrev pub is_str : CfgType → Bool
is_str str = true
is_str _ = false

-- `node_new`, and `node_init` for the root
abbrev pub node_new : CfgType → Option Bytes → Node
node_new t name = record { type = t; name = name; val = none; child = nil }

abbrev pub link_to : Node → Nodes → Nodes
link_to n next = link n.type n.name n.val n.child next

-- `child_add`, on the parent's children
unfoldable pub child_add : Nodes → Node → Nodes
child_add nil n = link_to n nil
child_add (link t m v c next) n = link t m v c (child_add next n)

-- `parent->n_child`
abbrev pub n_child : Nodes → ℕ
n_child nil = 0
n_child (link t m v c next) = suc (n_child next)

-- `child->name && !strcmp(child->name, name)`
abbrev pub is_named : Option Bytes → Bytes → Bool
is_named none name = false
is_named (some m) name = streq m name

-- The loop of `obj_find`.
unfoldable pub find_child : Nodes → Bytes → Option Node
find_child nil name = none
find_child (link t m v c next) name =
    let rest = find_child next name in
    if is_named m name then some (record { type = t; name = m; val = v; child = c }) else rest

unfoldable pub obj_find : Node → Bytes → Option Node
obj_find n name = if is_obj n.type then find_child n.child name else none

unfoldable pub arr_idx : Node → ℤ → Result ℕ
arr_idx n (pos i) =
    if is_arr n.type then (if leb (n_child n.child) i then err enoent else ret i) else err enotdir
arr_idx n (negsuc i) =
    if is_arr n.type
    then (if ltb (n_child n.child) (i + 1) then err enoent else ret (n_child n.child - (i + 1)))
    else err enotdir

unfoldable pub arr_nth : Nodes → ℕ → Option Node
arr_nth nil i = none
arr_nth (link t m v c next) zero = some (record { type = t; name = m; val = v; child = c })
arr_nth (link t m v c next) (suc i) = arr_nth next i

-- A write through the pointer that a search returned: the first child with the name, or the child
-- at the index.
unfoldable pub put_child : Nodes → Bytes → Node → Nodes
put_child nil name n = nil
put_child (link t m v c next) name n =
    let rest = link t m v c (put_child next name n) in
    if is_named m name then link_to n next else rest

unfoldable pub put_nth : Nodes → ℕ → Node → Nodes
put_nth nil i n = nil
put_nth (link t m v c next) zero n = link_to n next
put_nth (link t m v c next) (suc i) n = link t m v c (put_nth next i n)

-- The links without the first child with the name, or without the child at the index.
unfoldable pub drop_child : Nodes → Bytes → Nodes
drop_child nil name = nil
drop_child (link t m v c next) name =
    let rest = link t m v c (drop_child next name) in if is_named m name then next else rest

unfoldable pub drop_nth : Nodes → ℕ → Nodes
drop_nth nil i = nil
drop_nth (link t m v c next) zero = next
drop_nth (link t m v c next) (suc i) = link t m v c (drop_nth next i)
