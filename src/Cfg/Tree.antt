-- ===== src/Cfg/Tree.antt =====
-- cfg.c: the trees that a configuration file stands for, and the assignments that build them.
use netrec.Prelude.{
  ◌≡◌, ◌≢◌, refl, sym, ◌∙◌, ap, subst, inl, inr, Bool-cases, true, false, Option, none, some, List,
  [], ◌∷◌, ◌++◌, Bytes, streq, streq_sym,
}
use netrec.Cfg.Path.{key, append}
use netrec.Cfg.Node.{
  CfgType, obj, arr, str, Nodes, nil, link, Node, is_arr, is_named, node_new, link_to, child_add,
  find_child, obj_find,
}
use netrec.Cfg.Set.{set_str_plain, set_arr_append, set_last, set_walk}
use netrec.Cfg.Bounds.{IsKey}
use netrec.Cfg.Access.{val_text}
use netrec.Cfg.Steps.{find_child-child_add_other}
use netrec.Cfg.Assigns.{Assign, Sets, Sets-append, under_key, AllWant, object_of, under_key-new}

-- One string or more, in an array.
pub data IsItems : Nodes → Type 0 where
  last : {v : Bytes} → IsItems (link str none (some v) nil nil)
  more : {v : Bytes} {next : Nodes} → IsItems next → IsItems (link str none (some v) nil next)

-- Children of an object: each has a key of its own, and is a string, an array of strings or an object,
-- the last two not empty.
pub data IsTree : Nodes → Type 0 where
  empty : IsTree nil
  text :
      {k v : Bytes} {next : Nodes}
      → IsKey k
      → find_child next k ≡ none
      → IsTree next
      → IsTree (link str (some k) (some v) nil next)
  list :
      {k : Bytes} {c next : Nodes}
      → IsKey k
      → find_child next k ≡ none
      → IsItems c
      → IsTree next
      → IsTree (link arr (some k) none c next)
  object :
      {k : Bytes} {t : CfgType} {m v : Option Bytes} {c d next : Nodes}
      → IsKey k
      → find_child next k ≡ none
      → IsTree (link t m v c d)
      → IsTree next
      → IsTree (link obj (some k) none (link t m v c d) next)

abbrev pub item_assigns : Nodes → List Assign
item_assigns nil = []
item_assigns (link t m v c next) = (append ∷ [], val_text v) ∷ item_assigns next

-- The assignments that a dump of the children consists of.
abbrev pub assigns : Nodes → List Assign
assigns nil = []
assigns (link t m v c next) =
    (elim t [
      | str ↦ (key (val_text m) ∷ [], val_text v) ∷ []
      | arr ↦ under_key (val_text m) (item_assigns c)
      | obj ↦ under_key (val_text m) (assigns c)
    ])
    ++ assigns next

abbrev pub join : Nodes → Nodes → Nodes
join nil ns = ns
join (link t m v c next) ns = link t m v c (join next ns)

pub join-child_add :
    (ns next : Nodes) (n : Node) → join (child_add ns n) next ≡ join ns (link_to n next)
unfolding child_add
join-child_add nil next n = refl
join-child_add (link t m v c ns) next n = ap (link t m v c) (join-child_add ns next n)

join-nil : (ns : Nodes) → join ns nil ≡ ns
join-nil nil = refl
join-nil (link t m v c ns) = ap (link t m v c) (join-nil ns)

-- The names of the second children are free among the first.
abbrev pub Free : Nodes → Nodes → Type 0
Free ns nil = Unit
Free ns (link t m v c next) = (find_child ns (val_text m) ≡ none) × Free ns next

find_child-child_add-none :
    (ns : Nodes) (n : Node) (k : Bytes)
    → find_child ns k ≡ none
    → is_named n.name k ≡ false
    → find_child (child_add ns n) k ≡ none
find_child-child_add-none ns n k h e = find_child-child_add_other k ns n e ∙ h

-- A child with another key keeps a name free.
free_name :
    (ns : Nodes) (n : Node) (k m : Bytes) (next : Nodes) (t : CfgType) (v : Option Bytes)
    (c : Nodes)
    → n.name ≡ some k
    → find_child (link t (some m) v c next) k ≡ none
    → find_child ns m ≡ none
    → (find_child (child_add ns n) m ≡ none) × (find_child next k ≡ none)
unfolding find_child
free_name ns n k m next t v c name h f = elim (Bool-cases (streq m k)) [
  | inl y ↦ cc (rw y at h)
  | inr y ↦
      let other : is_named n.name m ≡ false = rw (name, streq_sym m k y) refl in
      (find_child-child_add-none ns n m f other, rw y at h)
]

Free-child_add :
    (ns : Nodes) (n : Node) (k : Bytes) {next : Nodes}
    → n.name ≡ some k
    → IsTree next
    → find_child next k ≡ none
    → Free ns next
    → Free (child_add ns n) next
Free-child_add ns n k name empty h f = tt
Free-child_add ns n k name (text {k = m} {v} {next} x y z) h f =
    let (here, rest) = free_name ns n k m next str (some v) nil name h f.0 in
    (here, Free-child_add ns n k name z rest f.1)
Free-child_add ns n k name (list {k = m} {c} {next} x y w z) h f =
    let (here, rest) = free_name ns n k m next arr none c name h f.0 in
    (here, Free-child_add ns n k name z rest f.1)
Free-child_add ns n k name (object {k = m} {t} {m = a} {v} {c} {d} {next} x y w z) h f =
    let (here, rest) = free_name ns n k m next obj none (link t a v c d) name h f.0 in
    (here, Free-child_add ns n k name z rest f.1)

items-build :
    (n : Node) {c : Nodes}
    → is_arr n.type ≡ true
    → IsItems c
    → Sets n (item_assigns c) (record n { child = join n.child c })
unfolding set_walk set_last set_arr_append
items-build n a (last {v}) =
    let leaf : Node = record (node_new str none) { val = some v } in
    (
      record n { child = child_add n.child leaf },
      rw a refl,
      ap (λ z. record n { child = z })
          (sym (join-nil (child_add n.child leaf)) ∙ join-child_add n.child nil leaf),
    )
items-build n a (more {v} {next} h) =
    let leaf : Node = record (node_new str none) { val = some v } in
    let added : Node = record n { child = child_add n.child leaf } in
    (
      added,
      rw a refl,
      subst (Sets added (item_assigns next))
          (ap (λ z. record n { child = z }) (join-child_add n.child next leaf))
          (items-build added a h),
    )

AllWant-items : (c : Nodes) → AllWant arr (item_assigns c)
AllWant-items nil = tt
AllWant-items (link t m v c next) = (refl, AllWant-items next)

AllWant-append :
    (t : CfgType) (xs ys : List Assign) → AllWant t xs → AllWant t ys → AllWant t (xs ++ ys)
AllWant-append t [] ys h k = k
AllWant-append t (([], v) ∷ xs) ys h k = absurd h
AllWant-append t ((u ∷ us, v) ∷ xs) ys h k = (h.0, AllWant-append t xs ys h.1 k)

AllWant-under_key : (k : Bytes) (xs : List Assign) → AllWant obj (under_key k xs)
AllWant-under_key k [] = tt
AllWant-under_key k (a ∷ xs) = (refl, AllWant-under_key k xs)

AllWant-assigns : (ns : Nodes) → AllWant obj (assigns ns)
AllWant-assigns nil = tt
AllWant-assigns (link str m v c next) = (refl, AllWant-assigns next)
AllWant-assigns (link arr m v c next) =
    AllWant-append obj _ _ (AllWant-under_key (val_text m) (item_assigns c)) (AllWant-assigns next)
AllWant-assigns (link obj m v c next) =
    AllWant-append obj _ _ (AllWant-under_key (val_text m) (assigns c)) (AllWant-assigns next)

items-some : {c : Nodes} → IsItems c → item_assigns c ≢ []
items-some (last {v}) h = cc h
items-some (more {v} {next} x) h = cc h

under_key-some : (k : Bytes) (xs : List Assign) → xs ≢ [] → under_key k xs ≢ []
under_key-some k [] h e = h refl
under_key-some k (a ∷ xs) h e = cc e

append-some : (xs ys : List Assign) → xs ≢ [] → xs ++ ys ≢ []
append-some [] ys h e = h refl
append-some (a ∷ xs) ys h e = cc e

tree-some :
    {t : CfgType} {m v : Option Bytes} {c d : Nodes}
    → IsTree (link t m v c d)
    → assigns (link t m v c d) ≢ []
tree-some (text {k} {v} {next} x y z) = λ e. cc e
tree-some (list {k} {c} {next} x y w z) =
    append-some _ _ (under_key-some k (item_assigns c) (items-some w))
tree-some (object {k} {t} {m} {v} {c} {d} {next} x y w z) =
    append-some _ _ (under_key-some k (assigns (link t m v c d)) (tree-some w))

pub Free-nil : (ns : Nodes) → Free nil ns
unfolding find_child
Free-nil nil = tt
Free-nil (link t m v c next) = (refl, Free-nil next)

-- The assignments of a tree's children build them behind the children that an object has.
pub assigns-build :
    (n : Node) (ns : Nodes) {next : Nodes}
    → IsTree next
    → Free ns next
    → Sets (object_of n ns) (assigns next) (object_of n (join ns next))
unfolding set_walk set_last set_str_plain obj_find find_child child_add
assigns-build n ns empty f = ap (object_of n) (sym (join-nil ns))
assigns-build n ns (text {k} {v} {next} x y z) f =
    let leaf : Node = record (node_new str (some k)) { val = some v } in
    (
      object_of n (child_add ns leaf),
      rw f.0 refl,
      subst (Sets (object_of n (child_add ns leaf)) (assigns next))
          (ap (object_of n) (join-child_add ns next leaf))
          (assigns-build n (child_add ns leaf) z (Free-child_add ns leaf k refl z y f.1)),
    )
assigns-build n ns (list {k} {c} {next} x y w z) f =
    let leaf : Node = record (node_new arr (some k)) { child = c } in
    let here =
      under_key-new (item_assigns c) k n leaf arr ns (items-some w) f.0 (AllWant-items c)
        (items-build (node_new arr (some k)) refl w) in
    Sets-append (object_of n ns) (object_of n (child_add ns leaf))
      (object_of n (join ns (link arr (some k) none c next))) (under_key k (item_assigns c))
      (assigns next) here
      (subst (Sets (object_of n (child_add ns leaf)) (assigns next))
        (ap (object_of n) (join-child_add ns next leaf))
        (assigns-build n (child_add ns leaf) z (Free-child_add ns leaf k refl z y f.1)))
assigns-build n ns (object {k} {t} {m} {v} {c} {d} {next} x y w z) f =
    let child = link t m v c d in
    let leaf : Node = record (node_new obj (some k)) { child = child } in
    let here =
      under_key-new (assigns child) k n leaf obj ns (tree-some w) f.0 (AllWant-assigns child)
        (assigns-build (node_new obj (some k)) nil w (Free-nil child)) in
    Sets-append (object_of n ns) (object_of n (child_add ns leaf))
      (object_of n (join ns (link obj (some k) none child next))) (under_key k (assigns child))
      (assigns next) here
      (subst (Sets (object_of n (child_add ns leaf)) (assigns next))
        (ap (object_of n) (join-child_add ns next leaf))
        (assigns-build n (child_add ns leaf) z (Free-child_add ns leaf k refl z y f.1)))
