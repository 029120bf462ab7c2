-- ===== src/Cfg/Assigns.antt =====
-- cfg.c: assignments one after the other, and the tree that they build in an object.
use netrec.Prelude.{
  ◌≡◌, ◌≢◌, refl, sym, ◌∙◌, ap, subst, inl, inr, Bool-cases, true, none, some, List, [], ◌∷◌, ◌++◌,
  Bytes, streq_refl, ret,
}
use netrec.Cfg.Path.{Tok, key}
use netrec.Cfg.Node.{
  CfgType, obj, arr, str, Nodes, nil, link, Node, is_named, node_new, child_add, find_child,
  obj_find, put_child,
}
use netrec.Cfg.Set.{want, same_type, set_walk, enter_key}
use netrec.Cfg.Children.{find_child-child_add, Kept, set_walk-Kept}

-- A path, as its tokens, and the value that it is set to.
abbrev pub Assign : Type 0
Assign = List Tok × Bytes

-- The assignments succeed one after the other, and lead from the one node to the other.
abbrev pub Sets : Node → List Assign → Node → Type 0
Sets n [] m = n ≡ m
Sets n (a ∷ xs) m = (k : Node) × (set_walk a.0 a.1 n ≡ (k, ret tt)) × Sets k xs m

pub Sets-append :
    (n m o : Node) (xs ys : List Assign) → Sets n xs m → Sets m ys o → Sets n (xs ++ ys) o
Sets-append n m o [] ys h k = subst (λ z. Sets z ys o) (sym h) k
Sets-append n m o (a ∷ xs) ys (x, e, h) k = (x, e, Sets-append x m o xs ys h k)

abbrev pub under_key : Bytes → List Assign → List Assign
under_key k [] = []
under_key k (a ∷ xs) = (key k ∷ a.0, a.1) ∷ under_key k xs

-- The first token of every assignment needs a node of the type.
abbrev pub AllWant : CfgType → List Assign → Type 0
AllWant t [] = Unit
AllWant t (([], v) ∷ xs) = ⊥
AllWant t ((u ∷ us, v) ∷ xs) = (want u ≡ t) × AllWant t xs

abbrev pub object_of : Node → Nodes → Node
object_of n c = record n { type = obj; child = c }

put_child-child_add :
    (k : Bytes) (ns : Nodes) (n o : Node)
    → find_child ns k ≡ none
    → is_named n.name k ≡ true
    → put_child (child_add ns n) k o ≡ child_add ns o
unfolding find_child child_add put_child
put_child-child_add k nil n o h e = rw e refl
put_child-child_add k (link t m v c next) n o h e = elim (Bool-cases (is_named m k)) [
  | inl y ↦ cc (rw y at h)
  | inr y ↦ rw y (ap (link t m v c) (put_child-child_add k next n o (rw y at h) e))
]

same_type_refl : (t : CfgType) → same_type t t ≡ true
same_type_refl obj = refl
same_type_refl arr = refl
same_type_refl str = refl

-- A step down to the last child.
enter_last :
    (u : Tok) (us : List Tok) (v k : Bytes) (cur n x : Node) (ns : Nodes)
    → find_child ns k ≡ none
    → n.name ≡ some k
    → want u ≡ n.type
    → set_walk (u ∷ us) v n ≡ (x, ret tt)
    → set_walk (key k ∷ u ∷ us) v (object_of cur (child_add ns n))
      ≡ (object_of cur (child_add ns x), ret tt)
unfolding set_walk enter_key obj_find
enter_last u us v k cur n x ns h name w e =
    let named : is_named n.name k ≡ true = rw name (streq_refl k) in
    rw
      (
        find_child-child_add k ns n h named,
        e,
        w,
        same_type_refl n.type,
        put_child-child_add k ns n x h named,
      )
      refl

-- Assignments below the key of the last child go on in that child.
pub under_key-last :
    (xs : List Assign) (k : Bytes) (cur n m : Node) (ns : Nodes)
    → find_child ns k ≡ none
    → n.name ≡ some k
    → AllWant n.type xs
    → Sets n xs m
    → Sets (object_of cur (child_add ns n)) (under_key k xs) (object_of cur (child_add ns m))
under_key-last [] k cur n m ns h name w s = ap (λ z. object_of cur (child_add ns z)) s
under_key-last (([], v) ∷ xs) k cur n m ns h name w s = absurd w
under_key-last ((u ∷ us, v) ∷ xs) k cur n m ns h name w (x, e, s) =
    let kept : Kept n x = subst (λ z. Kept n z.0) e (set_walk-Kept (u ∷ us) v n) in
    (
      object_of cur (child_add ns x),
      enter_last u us v k cur n x ns h name w.0 e,
      under_key-last xs k cur x m ns h (kept.name ∙ name)
          (subst (λ t. AllWant t xs) (sym kept.type) w.1) s,
    )

-- A step down to a child that is not there makes it.
enter_new :
    (u : Tok) (us : List Tok) (v k : Bytes) (cur x : Node) (t : CfgType) (ns : Nodes)
    → find_child ns k ≡ none
    → want u ≡ t
    → set_walk (u ∷ us) v (node_new t (some k)) ≡ (x, ret tt)
    → set_walk (key k ∷ u ∷ us) v (object_of cur ns) ≡ (object_of cur (child_add ns x), ret tt)
unfolding set_walk enter_key obj_find
enter_new u us v k cur x t ns h w e = rw (h, w, e) refl

-- Assignments below a new key make one child, which they build from nothing.
pub under_key-new :
    (xs : List Assign) (k : Bytes) (cur m : Node) (t : CfgType) (ns : Nodes)
    → xs ≢ []
    → find_child ns k ≡ none
    → AllWant t xs
    → Sets (node_new t (some k)) xs m
    → Sets (object_of cur ns) (under_key k xs) (object_of cur (child_add ns m))
under_key-new [] k cur m t ns some_line h w s = absurd (some_line refl)
under_key-new (([], v) ∷ xs) k cur m t ns some_line h w s = absurd w
under_key-new ((u ∷ us, v) ∷ xs) k cur m t ns some_line h w (x, e, s) =
    let kept : Kept (node_new t (some k)) x =
      subst (λ z. Kept (node_new t (some k)) z.0) e
        (set_walk-Kept (u ∷ us) v (node_new t (some k))) in
    (
      object_of cur (child_add ns x),
      enter_new u us v k cur x t ns h w.0 e,
      under_key-last xs k cur x m ns h kept.name (subst (λ t. AllWant t xs) (sym kept.type) w.1) s,
    )
