-- ===== src/Cfg/Steps.antt =====
-- cfg.c: a key or an index of a path as a step to a child, and the children that a write leaves.
use netrec.Prelude.{
  ℕ, ◌≡◌, refl, subst, sym, ◌∙◌, inl, inr, Bool-cases, Option-cases, true, false, Option, none,
  some, List, ◌∷◌, Bytes, streq, streq_iff, ℤ, Result-cases, ret, ◌>>=◌,
}
use netrec.Cfg.Path.{Tok, key, index}
use netrec.Cfg.Node.{
  Nodes, nil, link, Node, is_obj, is_arr, child_add, is_named, find_child, obj_find, arr_idx,
  arr_nth, put_child,
}
use netrec.Cfg.Access.{walk_get}
use netrec.Cfg.Children.{find_child-named}

pub is_named-apart :
    (a : Option Bytes) (k m : Bytes)
    → is_named a k ≡ true
    → streq k m ≡ false
    → is_named a m ≡ false
is_named-apart none k m h d = refl
is_named-apart (some x) k m h d =
    let same : x ≡ k = (streq_iff x k).0 h in subst (λ z. streq z m ≡ false) (sym same) d

pub find_child-child_add_other :
    (m : Bytes) (ns : Nodes) (n : Node)
    → is_named n.name m ≡ false
    → find_child (child_add ns n) m ≡ find_child ns m
unfolding find_child child_add
find_child-child_add_other m nil n h = rw h
find_child-child_add_other m (link t a v c next) n h = rw (find_child-child_add_other m next n h)

pub find_child-put_child_other :
    (k m : Bytes) (ns : Nodes) (n : Node)
    → streq k m ≡ false
    → is_named n.name k ≡ true
    → find_child (put_child ns k n) m ≡ find_child ns m
unfolding find_child put_child
find_child-put_child_other k m nil n d e = refl
find_child-put_child_other k m (link t a v c next) n d e = elim (Bool-cases (is_named a k)) [
  | inl y ↦ rw (y, is_named-apart n.name k m e d, is_named-apart a k m y d)
  | inr y ↦ rw (y, find_child-put_child_other k m next n d e)
]

-- A key leads to a child, and from there the rest of the path.
pub record KeyStep (k : Bytes) (us : List Tok) (cur n : Node) : Type 0 where
  pub is_object : is_obj cur.type ≡ true
  pub child : Node
  pub found : find_child cur.child k ≡ some child
  pub onward : walk_get us child ≡ ret n

pub KeyStep-of :
    (k : Bytes) (us : List Tok) (cur n : Node)
    → walk_get (key k ∷ us) cur ≡ ret n
    → KeyStep k us cur n
unfolding walk_get obj_find
KeyStep-of k us cur n h = elim (Bool-cases (is_obj cur.type)) [
  | inr o ↦ cc (rw o at h)
  | inl o ↦ elim (Option-cases (find_child cur.child k)) [
    | inl e ↦ cc (rw (o, e) at h)
    | inr (c, e) ↦ record { is_object = o; child = c; found = e; onward = rw (o, e) at h }
  ]
]

pub KeyStep-walk_get :
    {k : Bytes} {us : List Tok} {cur n : Node}
    → KeyStep k us cur n
    → walk_get (key k ∷ us) cur ≡ ret n
unfolding walk_get obj_find
KeyStep-walk_get s = rw (s.is_object, s.found) s.onward

pub record IndexStep (i : ℤ) (us : List Tok) (cur n : Node) : Type 0 where
  pub is_array : is_arr cur.type ≡ true
  pub place : ℕ
  pub resolved : arr_idx cur i ≡ ret place
  pub child : Node
  pub found : arr_nth cur.child place ≡ some child
  pub onward : walk_get us child ≡ ret n

pub IndexStep-of :
    (i : ℤ) (us : List Tok) (cur n : Node)
    → walk_get (index i ∷ us) cur ≡ ret n
    → IndexStep i us cur n
unfolding walk_get
IndexStep-of i us cur n h = elim (Bool-cases (is_arr cur.type)) [
  | inr a ↦ cc (rw a at h)
  | inl a ↦ elim (Result-cases (arr_idx cur i)) [
    | inl (e, x) ↦ cc (rw (a, x) at h)
    | inr (j, x) ↦ elim (Option-cases (arr_nth cur.child j)) [
      | inl y ↦ cc (rw (a, x, y, ◌>>=◌) at h)
      | inr (c, y) ↦ record {
        is_array = a;
        place = j;
        resolved = x;
        child = c;
        found = y;
        onward = rw (a, x, y, ◌>>=◌) at h;
      }
    ]
  ]
]

pub IndexStep-walk_get :
    {i : ℤ} {us : List Tok} {cur n : Node}
    → IndexStep i us cur n
    → walk_get (index i ∷ us) cur ≡ ret n
unfolding walk_get
IndexStep-walk_get s = rw (s.is_array, s.resolved, s.found, ◌>>=◌) s.onward

-- The same child is found among other children.
pub KeyStep-found :
    {k : Bytes} {us : List Tok} {cur n : Node} (s : KeyStep k us cur n) (ch : Nodes)
    → find_child ch k ≡ find_child cur.child k
    → walk_get (key k ∷ us) (record cur { child = ch }) ≡ ret n
KeyStep-found s ch e =
    KeyStep-walk_get
      (record { is_object = s.is_object; child = s.child; found = e ∙ s.found; onward = s.onward })

pub obj_find-named :
    (cur : Node) (k : Bytes) {c : Node} → obj_find cur k ≡ some c → is_named c.name k ≡ true
unfolding obj_find
obj_find-named cur k h = elim (Bool-cases (is_obj cur.type)) [
  | inl o ↦ find_child-named k cur.child (rw o at h)
  | inr o ↦ cc (rw o at h)
]
