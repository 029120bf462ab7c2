-- ===== src/Cfg/Children.antt =====
-- cfg.c: the children of a node behind a write, and what a write keeps of the node it starts from.
use netrec.Prelude.{
  ℕ, zero, suc, ◌≡◌, refl, ap, subst, inl, inr, Bool-cases, true, none, some, List, [], ◌∷◌, arith,
  Bytes, ℤ, pos, negsuc, Result,
}
use netrec.Cfg.Path.{Tok, key, index, append}
use netrec.Cfg.Node.{
  CfgType, Nodes, nil, link, Node, child_add, n_child, is_named, find_child, arr_idx, arr_nth,
  put_child, put_nth,
}
use netrec.Cfg.Set.{
  set_str_plain, write_nth, set_arr_idx, set_arr_append, want, enter_key, enter_index, set_last,
  set_walk,
}

module _ (k : Bytes) where
  pub find_child-child_add :
      (ns : Nodes) (n : Node)
      → find_child ns k ≡ none
      → is_named n.name k ≡ true
      → find_child (child_add ns n) k ≡ some n
  unfolding find_child child_add
  find_child-child_add nil n h e = rw e
  find_child-child_add (link t m v c next) n h e = elim (Bool-cases (is_named m k)) [
    | inl y ↦ cc (rw y at h)
    | inr y ↦ rw y (find_child-child_add next n (rw y at h) e)
  ]

  pub find_child-put_child :
      (ns : Nodes) (n : Node) {c : Node}
      → find_child ns k ≡ some c
      → is_named n.name k ≡ true
      → find_child (put_child ns k n) k ≡ some n
  unfolding find_child put_child
  find_child-put_child nil n h e = cc h
  find_child-put_child (link t m v c next) n h e = elim (Bool-cases (is_named m k)) [
    | inl y ↦ rw (y, e)
    | inr y ↦ rw (y, y) (find_child-put_child next n (rw y at h) e)
  ]

  pub find_child-named :
      (ns : Nodes) {c : Node} → find_child ns k ≡ some c → is_named c.name k ≡ true
  unfolding find_child
  find_child-named nil h = cc h
  find_child-named (link t m v d next) {c} h = elim (Bool-cases (is_named m k)) [
    | inl y ↦
        let same : record { type = t; name = m; val = v; child = d } ≡ c = cc (rw y at h) in
        subst (λ z. is_named z.name k ≡ true) same y
    | inr y ↦ find_child-named next (rw y at h)
  ]

pub arr_nth-put_nth :
    (ns : Nodes) (j : ℕ) (n : Node) {c : Node}
    → arr_nth ns j ≡ some c
    → arr_nth (put_nth ns j n) j ≡ some n
unfolding arr_nth put_nth
arr_nth-put_nth nil j n h = cc h
arr_nth-put_nth (link t m v c next) zero n h = refl
arr_nth-put_nth (link t m v c next) (suc j) n h = arr_nth-put_nth next j n h

pub n_child-put_nth : (ns : Nodes) (j : ℕ) (n : Node) → n_child (put_nth ns j n) ≡ n_child ns
unfolding put_nth
n_child-put_nth nil j n = refl
n_child-put_nth (link t m v c next) zero n = refl
n_child-put_nth (link t m v c next) (suc j) n = ap suc (n_child-put_nth next j n)

-- A write keeps the type and the name of the node that it starts from.
pub record Kept (a b : Node) : Type 0 where
  pub type : b.type ≡ a.type
  pub name : b.name ≡ a.name

set_last-Kept : (t : Tok) (cur : Node) (val : Bytes) → Kept cur (set_last t cur val).0
unfolding set_last set_str_plain set_arr_append set_arr_idx write_nth
set_last-Kept (key k) cur val = record { type = ground arith; name = ground arith }
set_last-Kept append cur val = record { type = ground arith; name = ground arith }
set_last-Kept (index i) cur val = record { type = ground arith; name = ground arith }

enter_key-Kept :
    (go : Node → Node × Result (Unit {0})) (t : CfgType) (k : Bytes) (cur : Node)
    → Kept cur (enter_key go t k cur).0
unfolding enter_key
enter_key-Kept go t k cur = record { type = ground arith; name = ground arith }

enter_index-Kept :
    (go : Node → Node × Result (Unit {0})) (i : ℤ) (cur : Node) → Kept cur (enter_index go i cur).0
unfolding enter_index
enter_index-Kept go i cur = record { type = ground arith; name = ground arith }

pub set_walk-Kept : (ts : List Tok) (val : Bytes) (cur : Node) → Kept cur (set_walk ts val cur).0
unfolding set_walk
set_walk-Kept [] val cur = record { type = refl; name = refl }
set_walk-Kept (t ∷ []) val cur = set_last-Kept t cur val
set_walk-Kept (append ∷ u ∷ ts) val cur = record { type = refl; name = refl }
set_walk-Kept (index i ∷ u ∷ ts) val cur = enter_index-Kept (set_walk (u ∷ ts) val) i cur
set_walk-Kept (key k ∷ u ∷ ts) val cur = enter_key-Kept (set_walk (u ∷ ts) val) (want u) k cur

pub arr_idx-put_nth :
    (cur : Node) (j : ℕ) (n : Node) (i : ℤ)
    → arr_idx (record cur { child = put_nth cur.child j n }) i ≡ arr_idx cur i
unfolding arr_idx
arr_idx-put_nth cur j n (pos i) = rw (n_child-put_nth cur.child j n)
arr_idx-put_nth cur j n (negsuc i) = rw (n_child-put_nth cur.child j n)
