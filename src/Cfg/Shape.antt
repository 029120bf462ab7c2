-- ===== src/Cfg/Shape.antt =====
-- cfg.c: the tree that `cfg_load` builds has the shape that `cfg_dump_file` writes.
use netrec.Prelude.{
  ◌≡◌, ◌≢◌, refl, ◌∙◌, ap, subst, inl, inr, Bool-cases, Option-cases, true, false, Option, none,
  some, Bytes, streq, streq_refl, streq_sym, streq_iff, ret,
}
use netrec.Cfg.Node.{
  CfgType, obj, arr, str, Nodes, nil, link, Node, is_str, is_named, node_new, link_to, child_add,
  find_child, obj_find, put_child,
}
use netrec.Cfg.Set.{Rc, same_type, set_str_plain, enter_key}
use netrec.Cfg.Bounds.{IsKey}
use netrec.Cfg.Steps.{find_child-child_add_other, find_child-put_child_other}
use netrec.Cfg.Tree.{IsItems, IsTree, empty, text, list, object}

-- A child with a name: a string, an array of strings or an object, the last two not empty.
pub data IsChild : Bytes → Node → Type 0 where
  is_text :
      {k v : Bytes} → IsChild k (record { type = str; name = some k; val = some v; child = nil })
  is_list :
      {k : Bytes} {c : Nodes}
      → IsItems c
      → IsChild k (record { type = arr; name = some k; val = none; child = c })
  is_object :
      {k : Bytes} {t : CfgType} {m v : Option Bytes} {c d : Nodes}
      → IsTree (link t m v c d)
      → IsChild k (record { type = obj; name = some k; val = none; child = link t m v c d })

child-named : {k : Bytes} {n : Node} → IsChild k n → n.name ≡ some k
child-named (is_text {k} {v}) = refl
child-named (is_list {k} {c} h) = refl
child-named (is_object {k} {t} {m} {v} {c} {d} h) = refl

IsTree-link :
    {k : Bytes} {n : Node} {next : Nodes}
    → IsKey k
    → IsChild k n
    → find_child next k ≡ none
    → IsTree next
    → IsTree (link_to n next)
IsTree-link x (is_text {k} {v}) y z = text x y z
IsTree-link x (is_list {k} {c} w) y z = list x y w z
IsTree-link x (is_object {k} {t} {m} {v} {c} {d} w) y z = object x y w z

-- The first child of a tree, and the others.
record First (t : CfgType) (m v : Option Bytes) (c next : Nodes) : Type 0 where
  name : Bytes
  named : m ≡ some name
  good : IsKey name
  shape : IsChild name (record { type = t; name = m; val = v; child = c })
  free : find_child next name ≡ none
  rest : IsTree next

IsTree-First :
    {t : CfgType} {m v : Option Bytes} {c next : Nodes}
    → IsTree (link t m v c next)
    → First t m v c next
IsTree-First (text {k} {v} {next} x y z) = record {
  name = k;
  named = refl;
  good = x;
  shape = is_text;
  free = y;
  rest = z;
}
IsTree-First (list {k} {c} {next} x y w z) = record {
  name = k;
  named = refl;
  good = x;
  shape = is_list w;
  free = y;
  rest = z;
}
IsTree-First (object {k} {t} {m} {v} {c} {d} {next} x y w z) = record {
  name = k;
  named = refl;
  good = x;
  shape = is_object w;
  free = y;
  rest = z;
}

is_named-apart_from :
    (n : Node) (k m : Bytes) → n.name ≡ some k → streq m k ≡ false → is_named n.name m ≡ false
is_named-apart_from n k m h d = rw (h, streq_sym m k d) refl

module _ (k : Bytes) (good : IsKey k) (n : Node) (shape : IsChild k n) where
  child_add-IsTree : (ns : Nodes) → IsTree ns → find_child ns k ≡ none → IsTree (child_add ns n)
  unfolding child_add find_child
  child_add-IsTree nil h f = IsTree-link good shape refl empty
  child_add-IsTree (link t m v c next) h f =
      let first = IsTree-First h in
      elim (Bool-cases (is_named m k)) [
        | inl y ↦ cc (rw y at f)
        | inr y ↦
            let apart : streq first.name k ≡ false = cc (rw first.named at y) in
            IsTree-link first.good first.shape
              (find_child-child_add_other first.name next n
                  (is_named-apart_from n k first.name (child-named shape) apart)
                ∙ first.free)
              (child_add-IsTree next first.rest (rw y at f))
      ]

  put_child-IsTree : (ns : Nodes) → IsTree ns → IsTree (put_child ns k n)
  unfolding put_child
  put_child-IsTree nil h = h
  put_child-IsTree (link t m v c next) h =
      let first = IsTree-First h in
      elim (Bool-cases (is_named m k)) [
        | inl y ↦
            let same : first.name ≡ k = (streq_iff first.name k).0 (cc (rw first.named at y)) in
            rw y (
              IsTree-link good shape (subst (λ z. find_child next z ≡ none) same first.free)
                first.rest)
        | inr y ↦
            let apart : streq first.name k ≡ false = cc (rw first.named at y) in
            let named : is_named n.name k ≡ true = rw (child-named shape) (streq_refl k) in
            rw y (
              IsTree-link first.good first.shape
                (find_child-put_child_other k first.name next n (streq_sym first.name k apart) named
                  ∙ first.free)
                (put_child-IsTree next first.rest))
      ]

find_child-IsChild :
    (k : Bytes) (ns : Nodes) {n : Node} → IsTree ns → find_child ns k ≡ some n → IsChild k n
unfolding find_child
find_child-IsChild k nil h f = cc f
find_child-IsChild k (link t m v c next) {n} h f =
    let first = IsTree-First h in
    elim (Bool-cases (is_named m k)) [
      | inl y ↦
          let same : first.name ≡ k = (streq_iff first.name k).0 (cc (rw first.named at y)) in
          let whole : record { type = t; name = m; val = v; child = c } ≡ n = cc (rw y at f) in
          subst (λ z. IsChild z n) same (subst (IsChild first.name) whole first.shape)
      | inr y ↦ find_child-IsChild k next first.rest (rw y at f)
    ]

IsChild-text :
    {k : Bytes} {c : Node} (v : Bytes)
    → IsChild k c
    → is_str c.type ≡ true
    → IsChild k (record c { val = some v })
IsChild-text v (is_text {k} {v = w}) t = is_text
IsChild-text v (is_list {k} {c} h) t = cc t
IsChild-text v (is_object {k} {t = u} {m} {v = w} {c} {d} h) t = cc t

-- An object, with the children of a tree.
pub data IsObject (o : Option Bytes) : Node → Type 0 where
  a_tree :
      {t : CfgType} {m v : Option Bytes} {c d : Nodes}
      → IsTree (link t m v c d)
      → IsObject o (record { type = obj; name = o; val = none; child = link t m v c d })

abbrev pub object_with : Option Bytes → Nodes → Node
object_with o c = record { type = obj; name = o; val = none; child = c }

child_add-some : (ns : Nodes) (n : Node) → child_add ns n ≢ nil
unfolding child_add
child_add-some nil n h = cc h
child_add-some (link t m v c next) n h = cc h

put_child-some :
    (ns : Nodes) (k : Bytes) (n : Node) {c : Node}
    → find_child ns k ≡ some c
    → put_child ns k n ≢ nil
unfolding put_child find_child
put_child-some nil k n f e = cc f
put_child-some (link t m v c next) k n f e = elim (Bool-cases (is_named m k)) [
  | inl y ↦ cc (rw y at e)
  | inr y ↦ cc (rw y at e)
]

IsObject-with :
    (o : Option Bytes) (ns : Nodes) → IsTree ns → ns ≢ nil → IsObject o (object_with o ns)
IsObject-with o nil h s = absurd (s refl)
IsObject-with o (link t m v c next) h s = a_tree h

-- A child of the tree is written: a new one, or one that was found.
module _ (k : Bytes) (good : IsKey k) (o : Option Bytes) (ns : Nodes) (h : IsTree ns) where
  IsObject-new :
      (n : Node)
      → IsChild k n
      → find_child ns k ≡ none
      → IsObject o (object_with o (child_add ns n))
  IsObject-new n shape f =
      IsObject-with o (child_add ns n) (child_add-IsTree k good n shape ns h f)
        (child_add-some ns n)

  IsObject-written :
      (n : Node) {c : Node}
      → IsChild k n
      → find_child ns k ≡ some c
      → IsObject o (object_with o (put_child ns k n))
  unfolding find_child
  IsObject-written n {c} shape f =
      IsObject-with o (put_child ns k n) (put_child-IsTree k good n shape ns h)
        (put_child-some ns k n f)

  pub set_str_plain-IsObject :
      (v : Bytes) (m : Node) → set_str_plain (object_with o ns) k v ≡ (m, ret tt) → IsObject o m
  unfolding set_str_plain obj_find
  set_str_plain-IsObject v m e = elim (Option-cases (find_child ns k)) [
    | inl f ↦
        let leaf : Node = record (node_new str (some k)) { val = some v } in
        let same : object_with o (child_add ns leaf) ≡ m =
          ap (λ z. z.0) (rw (f, set_str_plain) at e) in
        subst (IsObject o) same (IsObject-new leaf is_text f)
    | inr (c, f) ↦ elim (Bool-cases (is_str c.type)) [
      | inr n ↦ cc (rw (f, n, set_str_plain) at e)
      | inl y ↦
          let written : Node = record c { val = some v } in
          let same : object_with o (put_child ns k written) ≡ m =
            ap (λ z. z.0) (rw (f, y, set_str_plain) at e) in
          subst (IsObject o) same
            (IsObject-written written (IsChild-text v (find_child-IsChild k ns h f) y) f)
    ]
  ]

  pub enter_key-IsObject :
      (go : Node → Node × Rc) (t : CfgType) (m : Node)
      → ((go (node_new t (some k))).1 ≡ ret tt → IsChild k (go (node_new t (some k))).0)
      → ((c : Node)
          → IsChild k c
          → same_type c.type t ≡ true
          → (go c).1 ≡ ret tt
          → IsChild k (go c).0)
      → enter_key go t k (object_with o ns) ≡ (m, ret tt)
      → IsObject o m
  unfolding enter_key obj_find
  enter_key-IsObject go t m new old e = elim (Option-cases (find_child ns k)) [
    | inl f ↦
        let whole = rw (f, enter_key) at e in
        let same : object_with o (child_add ns (go (node_new t (some k))).0) ≡ m =
          ap (λ z. z.0) whole in
        subst (IsObject o) same
          (IsObject-new (go (node_new t (some k))).0 (new (ap (λ z. z.1) whole)) f)
    | inr (c, f) ↦ elim (Bool-cases (same_type c.type t)) [
      | inr n ↦ cc (rw (f, n, enter_key) at e)
      | inl y ↦
          let whole = rw (f, y, enter_key) at e in
          let same : object_with o (put_child ns k (go c).0) ≡ m = ap (λ z. z.0) whole in
          subst (IsObject o) same (
            IsObject-written (go c).0 (old c (find_child-IsChild k ns h f) y (ap (λ z. z.1) whole))
              f)
    ]
  ]
