-- ===== src/Uci/Tree.antt =====
-- uci.c: the pieces of a configuration tree that `cfg_state` writes, what is found in them, and their
-- assignments.
use netrec.Prelude.{
  ℕ, zero, suc, ◌-◌, ◌≤◌, ◌<◌, ◌≡◌, refl, Bool, true, false, Option, none, some, List, [], ◌∷◌,
  arith, Bytes, streq, length, take-of_le, All, ret, ◌>>=◌, ◌&&◌, ltb,
}
use netrec.Cfg.Path.{is_key_start, is_key_char, cfg_path_seg_max}
use netrec.Cfg.Node.{obj, arr, str, Nodes, nil, link, Node, find_child, obj_find}
use netrec.Cfg.Bounds.{IsKey}
use netrec.Cfg.Tree.{IsItems, last, more, IsTree, text, list}
use netrec.Yaml.Fields.{cpy, get_str, get_items, str_items}

abbrev pub leaf : Bytes → Bytes → Nodes → Nodes
leaf k v next = link str (some k) (some v) nil next

-- A value that is written only if it is not empty.
abbrev pub leaf_if : Bytes → Bytes → Nodes → Nodes
leaf_if k [] next = next
leaf_if k (c ∷ v) next = leaf k (c ∷ v) next

abbrev pub items : List Bytes → Nodes
items [] = nil
items (v ∷ vs) = link str none (some v) nil (items vs)

-- An array, unless it has no item.
abbrev pub arr_if : Bytes → List Bytes → Nodes → Nodes
arr_if k [] next = next
arr_if k (v ∷ vs) next = link arr (some k) none (items (v ∷ vs)) next

abbrev pub branch : Bytes → Nodes → Nodes → Nodes
branch k c next = link obj (some k) none c next

abbrev pub object_at : Option Bytes → Nodes → Node
object_at m c = record { type = obj; name = m; val = none; child = c }

module _ (k m : Bytes) (h : streq k m ≡ false) where
  pub find_child-leaf_if :
      (v : Bytes) (next : Nodes) → find_child (leaf_if k v next) m ≡ find_child next m
  unfolding find_child
  find_child-leaf_if [] next = refl
  find_child-leaf_if (c ∷ v) next = rw h refl

  pub find_child-arr_if :
      (vs : List Bytes) (next : Nodes) → find_child (arr_if k vs next) m ≡ find_child next m
  unfolding find_child
  find_child-arr_if [] next = refl
  find_child-arr_if (v ∷ vs) next = rw h refl

pub cpy-short : (sz : ℕ) (v : Bytes) → length v < sz → cpy sz (some v) ≡ v
unfolding cpy
cpy-short sz v h = take-of_le (sz - 1) v (omega arith)

str_items-items :
    (sz room : ℕ) (vs : List Bytes)
    → All (λ v. length v < sz) vs
    → length vs ≤ room
    → str_items sz room (items vs) ≡ ret vs
unfolding str_items
str_items-items sz room [] h l = refl
str_items-items sz zero (v ∷ vs) h l = absurd (omega arith)
str_items-items sz (suc room) (v ∷ vs) h l =
    rw (str_items-items sz room vs h.1 (omega arith), cpy-short sz v h.0, ◌>>=◌) refl

-- A value that may be missing, read from an object where it comes first.
pub get_str-leaf_if :
    (m : Option Bytes) (k v : Bytes) (next : Nodes) (sz : ℕ)
    → streq k k ≡ true
    → find_child next k ≡ none
    → length v < sz
    → get_str (object_at m (leaf_if k v next)) k sz false ≡ ret v
unfolding get_str obj_find find_child
get_str-leaf_if m k [] next sz s h l = rw (h, get_str, obj_find) refl
get_str-leaf_if m k (c ∷ v) next sz s h l =
    rw (s, cpy-short sz (c ∷ v) l, get_str, obj_find, find_child) refl

pub get_items-arr_if :
    (m : Option Bytes) (k : Bytes) (vs : List Bytes) (next : Nodes) (sz max : ℕ)
    → streq k k ≡ true
    → find_child next k ≡ none
    → All (λ v. length v < sz) vs
    → length vs ≤ max
    → get_items sz (object_at m (arr_if k vs next)) k max ≡ ret vs
unfolding get_items obj_find find_child
get_items-arr_if m k [] next sz max s h a l = rw (h, get_items, obj_find) refl
get_items-arr_if m k (v ∷ vs) next sz max s h a l =
    rw (s, str_items-items sz max (v ∷ vs) a l, get_items, obj_find, find_child) refl

items-IsItems : (v : Bytes) (vs : List Bytes) → IsItems (items (v ∷ vs))
items-IsItems v [] = last
items-IsItems v (w ∷ vs) = more (items-IsItems w vs)

pub leaf_if-IsTree :
    (k v : Bytes) {next : Nodes}
    → IsKey k
    → find_child next k ≡ none
    → IsTree next
    → IsTree (leaf_if k v next)
leaf_if-IsTree k [] x y z = z
leaf_if-IsTree k (c ∷ v) x y z = text x y z

pub arr_if-IsTree :
    (k : Bytes) (vs : List Bytes) {next : Nodes}
    → IsKey k
    → find_child next k ≡ none
    → IsTree next
    → IsTree (arr_if k vs next)
arr_if-IsTree k [] x y z = z
arr_if-IsTree k (v ∷ vs) x y z = list x y (items-IsItems v vs) z

-- Whether bytes are those of a key.
abbrev key_chars : Bytes → Bool
key_chars [] = true
key_chars (c ∷ cs) = is_key_char c && key_chars cs

abbrev pub is_key : Bytes → Bool
is_key [] = false
is_key (c ∷ cs) = is_key_start c && key_chars (c ∷ cs) && ltb (length (c ∷ cs)) cfg_path_seg_max

key_chars-All : (s : Bytes) → key_chars s ≡ true → All (λ c. is_key_char c ≡ true) s
key_chars-All [] h = tt
key_chars-All (c ∷ s) h = (ground (arith, h), key_chars-All s (ground (arith, h)))

pub is_key-IsKey : (s : Bytes) → is_key s ≡ true → IsKey s
is_key-IsKey [] h = cc h
is_key-IsKey (c ∷ s) h =
    (ground (arith, h), key_chars-All (c ∷ s) (ground (arith, h)), ground (arith, h))
