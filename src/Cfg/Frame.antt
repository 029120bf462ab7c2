-- ===== src/Cfg/Frame.antt =====
-- cfg.c: what `cfg_set_str` leaves as it was.
use netrec.Prelude.{
  ℕ, ◌≡◌, subst, sym, ◌∙◌, ◌⊎◌, inl, inr, Bool-cases, Option-cases, true, false, some, List, [],
  ◌∷◌, Bytes, streq, ℤ, Result, ret,
}
use netrec.Cfg.Path.{Tok, key, index, append, parse_path, cfg_path_depth_max}
use netrec.Cfg.Node.{
  Node, CfgType, is_str, str, node_new, child_add, is_named, obj_find, put_child, put_nth,
}
use netrec.Cfg.Access.{walk_get, cfg_get_node}
use netrec.Cfg.Set.{
  set_str_plain, want, same_type, enter_key, enter_index, set_last, set_walk, cfg_set_str,
}
use netrec.Cfg.Children.{
  find_child-put_child, find_child-named, arr_nth-put_nth, arr_idx-put_nth, Kept, set_walk-Kept,
}
use netrec.Cfg.Steps.{
  find_child-child_add_other, find_child-put_child_other, KeyStep, KeyStep-of, KeyStep-walk_get,
  IndexStep, IndexStep-of, IndexStep-walk_get, KeyStep-found, obj_find-named,
}

-- Two paths part at a key: up to there they have the same keys and indices.
abbrev pub Apart : List Tok → List Tok → Type 0
Apart (key k ∷ ts) (key m ∷ us) = (streq k m ≡ false) ⊎ ((k ≡ m) × Apart ts us)
Apart (index i ∷ ts) (index j ∷ us) = (i ≡ j) × Apart ts us
Apart _ _ = ⊥

module _ (k m : Bytes) (d : streq k m ≡ false) (us : List Tok) (n : Node) where
  set_str_plain-other :
      (cur : Node) (val : Bytes)
      → KeyStep m us cur n
      → walk_get (key m ∷ us) (set_str_plain cur k val).0 ≡ ret n
  unfolding set_str_plain
  set_str_plain-other cur val s = elim (Option-cases (obj_find cur k)) [
    | inl e ↦
        let fresh : Node = record (node_new str (some k)) { val = some val } in
        rw (e, set_str_plain)
          (KeyStep-found s (child_add cur.child fresh)
            (find_child-child_add_other m cur.child fresh d))
    | inr (c, e) ↦ elim (Bool-cases (is_str c.type)) [
      | inr t ↦ rw (e, t, set_str_plain) (KeyStep-walk_get s)
      | inl t ↦
          let written : Node = record c { val = some val } in
          let named : is_named c.name k ≡ true = obj_find-named cur k e in
          rw (e, t, set_str_plain)
            (KeyStep-found s (put_child cur.child k written)
              (find_child-put_child_other k m cur.child written d named))
    ]
  ]

  enter_key-other :
      (go : Node → Node × Result (Unit {0})) (t : CfgType) (cur : Node)
      → ((c : Node) → Kept c (go c).0)
      → KeyStep m us cur n
      → walk_get (key m ∷ us) (enter_key go t k cur).0 ≡ ret n
  unfolding enter_key
  enter_key-other go t cur kept s = elim (Option-cases (obj_find cur k)) [
    | inl e ↦
        let fresh : Node = (go (node_new t (some k))).0 in
        let unnamed : is_named fresh.name m ≡ false = rw (kept (node_new t (some k))).name d in
        rw (s.is_object, e, enter_key)
          (KeyStep-found s (child_add cur.child fresh)
            (find_child-child_add_other m cur.child fresh unnamed))
    | inr (c, e) ↦ elim (Bool-cases (same_type c.type t)) [
      | inr x ↦ rw (s.is_object, e, x, enter_key) (KeyStep-walk_get s)
      | inl x ↦
          let written : Node = (go c).0 in
          let named : is_named written.name k ≡ true = rw (kept c).name (obj_find-named cur k e) in
          rw (s.is_object, e, x, enter_key)
            (KeyStep-found s (put_child cur.child k written)
              (find_child-put_child_other k m cur.child written d named))
    ]
  ]

module _ (go : Node → Node × Result (Unit {0})) (us : List Tok) (n : Node) where
  enter_key-same :
      (t : CfgType) (k : Bytes) (cur : Node)
      → ((c : Node) → Kept c (go c).0)
      → ((c : Node) → walk_get us c ≡ ret n → walk_get us (go c).0 ≡ ret n)
      → KeyStep k us cur n
      → walk_get (key k ∷ us) (enter_key go t k cur).0 ≡ ret n
  unfolding enter_key obj_find
  enter_key-same t k cur kept ih s = elim (Bool-cases (same_type s.child.type t)) [
    | inr x ↦ rw (s.is_object, s.found, x, enter_key, obj_find) (KeyStep-walk_get s)
    | inl x ↦
        let written : Node = (go s.child).0 in
        let named : is_named written.name k ≡ true =
          rw (kept s.child).name (find_child-named k cur.child s.found) in
        let step : KeyStep k us (record cur { child = put_child cur.child k written }) n = record {
          is_object = s.is_object;
          child = written;
          found = find_child-put_child k cur.child written s.found named;
          onward = ih s.child s.onward;
        } in
        rw (s.is_object, s.found, x, enter_key, obj_find) (KeyStep-walk_get step)
  ]

  enter_index-same :
      (i : ℤ) (cur : Node)
      → ((c : Node) → walk_get us c ≡ ret n → walk_get us (go c).0 ≡ ret n)
      → IndexStep i us cur n
      → walk_get (index i ∷ us) (enter_index go i cur).0 ≡ ret n
  unfolding enter_index
  enter_index-same i cur ih s =
      let written : Node = (go s.child).0 in
      let step : IndexStep i us (record cur { child = put_nth cur.child s.place written }) n =
        record {
          is_array = s.is_array;
          place = s.place;
          resolved = arr_idx-put_nth cur s.place written i ∙ s.resolved;
          child = written;
          found = arr_nth-put_nth cur.child s.place written s.found;
          onward = ih s.child s.onward;
        } in
      rw (s.is_array, s.resolved, s.found, enter_index) (IndexStep-walk_get step)

set_walk-Apart :
    (ts us : List Tok) (val : Bytes) (cur n : Node)
    → Apart ts us
    → walk_get us cur ≡ ret n
    → walk_get us (set_walk ts val cur).0 ≡ ret n
unfolding set_walk set_last
set_walk-Apart [] us val cur n p h = elim p [ ]
set_walk-Apart (key k ∷ ts) [] val cur n p h = elim p [ ]
set_walk-Apart (append ∷ ts) [] val cur n p h = elim p [ ]
set_walk-Apart (index i ∷ ts) [] val cur n p h = elim p [ ]
set_walk-Apart (append ∷ ts) (_ ∷ us) val cur n p h = elim p [ ]
set_walk-Apart (index i ∷ ts) (key m ∷ us) val cur n p h = elim p [ ]
set_walk-Apart (index i ∷ ts) (append ∷ us) val cur n p h = elim p [ ]
set_walk-Apart (index i ∷ []) (index j ∷ us) val cur n (e, p) h = elim p [ ]
set_walk-Apart (index i ∷ u ∷ ts) (index j ∷ us) val cur n (e, p) h =
    subst (λ z. walk_get (index z ∷ us) (set_walk (index i ∷ u ∷ ts) val cur).0 ≡ ret n) e
      (enter_index-same (set_walk (u ∷ ts) val) us n i cur
        (λ c. set_walk-Apart (u ∷ ts) us val c n p)
        (IndexStep-of i us cur n (subst (λ z. walk_get (index z ∷ us) cur ≡ ret n) (sym e) h)))
set_walk-Apart (key k ∷ []) (index _ ∷ us) val cur n p h = elim p [ ]
set_walk-Apart (key k ∷ []) (append ∷ us) val cur n p h = elim p [ ]
set_walk-Apart (key k ∷ u ∷ ts) (index _ ∷ us) val cur n p h = elim p [ ]
set_walk-Apart (key k ∷ u ∷ ts) (append ∷ us) val cur n p h = elim p [ ]
set_walk-Apart (key k ∷ []) (key m ∷ us) val cur n (inl d) h =
    let s = KeyStep-of m us cur n h in rw s.is_object (set_str_plain-other k m d us n cur val s)
set_walk-Apart (key k ∷ []) (key m ∷ us) val cur n (inr (e, p)) h = elim p [ ]
set_walk-Apart (key k ∷ u ∷ ts) (key m ∷ us) val cur n (inl d) h =
    enter_key-other k m d us n (set_walk (u ∷ ts) val) (want u) cur (set_walk-Kept (u ∷ ts) val)
      (KeyStep-of m us cur n h)
set_walk-Apart (key k ∷ u ∷ ts) (key m ∷ us) val cur n (inr (e, p)) h =
    subst (λ z. walk_get (key z ∷ us) (set_walk (key k ∷ u ∷ ts) val cur).0 ≡ ret n) e
      (enter_key-same (set_walk (u ∷ ts) val) us n (want u) k cur (set_walk-Kept (u ∷ ts) val)
        (λ c. set_walk-Apart (u ∷ ts) us val c n p)
        (KeyStep-of k us cur n (subst (λ z. walk_get (key z ∷ us) cur ≡ ret n) (sym e) h)))

-- A call of `cfg_set_str`, also one that fails, leaves the node that another path leads to as it was, if
-- the two paths part at a key and have the same keys and indices up to there.
pub cfg_get_node-cfg_set_str :
    (root n : Node) (a b : ℕ) (path other val : Bytes) (ts us : List Tok)
    → parse_path (a ∷ path) cfg_path_depth_max ≡ ret ts
    → parse_path (b ∷ other) cfg_path_depth_max ≡ ret us
    → Apart ts us
    → cfg_get_node root (b ∷ other) ≡ ret n
    → cfg_get_node (cfg_set_str root (a ∷ path) val).0 (b ∷ other) ≡ ret n
unfolding cfg_get_node cfg_set_str
cfg_get_node-cfg_set_str root n a b path other val ts us e f p h =
    rw (e, f, cfg_get_node, cfg_set_str)
      (set_walk-Apart ts us val root n p (rw (f, cfg_get_node) at h))
