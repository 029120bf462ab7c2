-- ===== src/Cfg/GetSet.antt =====
-- cfg.c: what `cfg_set_str` writes is what `cfg_get_str` reads.
use netrec.Prelude.{
  ℕ, ◌≡◌, refl, ◌∙◌, inl, inr, Bool-cases, Option-cases, Bool, true, false, some, List, [], ◌∷◌,
  Bytes, streq_refl, ℤ, Result-cases, ret, ◌>>=◌,
}
use netrec.Cfg.Path.{Tok, key, index, append, cfg_path_depth_max, parse_path}
use netrec.Cfg.Node.{
  CfgType, obj, arr, str, Node, is_obj, is_arr, is_str, node_new, child_add, is_named, find_child,
  obj_find, arr_idx, arr_nth, put_child, put_nth,
}
use netrec.Cfg.Access.{walk_get, cfg_get_node, cfg_get_str}
use netrec.Cfg.Set.{
  set_str_plain, write_nth, at_end, set_arr_idx, want, same_type, enter_key, enter_index, set_last,
  set_walk, cfg_set_str,
}
use netrec.Cfg.Children.{
  find_child-child_add, find_child-put_child, find_child-named, arr_nth-put_nth, set_walk-Kept,
  arr_idx-put_nth,
}

-- Whether a path ends in `[]`, where nothing can be read.
abbrev pub ends_append : List Tok → Bool
ends_append [] = false
ends_append (key k ∷ []) = false
ends_append (index i ∷ []) = false
ends_append (append ∷ []) = true
ends_append (t ∷ u ∷ ts) = ends_append (u ∷ ts)

-- The value that the tokens lead to.
record Reads (ts : List Tok) (cur : Node) (val : Bytes) : Type 0 where
  node : Node
  found : walk_get ts cur ≡ ret node
  is_string : node.type ≡ str
  value : node.val ≡ some val

Reads-self : (n : Node) {val : Bytes} → n.type ≡ str → n.val ≡ some val → Reads [] n val
unfolding walk_get
Reads-self n t v = record { node = n; found = refl; is_string = t; value = v }

is_str-eq : (t : CfgType) → is_str t ≡ true → t ≡ str
is_str-eq obj h = cc h
is_str-eq arr h = cc h
is_str-eq str h = refl

module _ (k val : Bytes) where
  Reads-key :
      (ts : List Tok) (cur n : Node)
      → is_obj cur.type ≡ true
      → find_child cur.child k ≡ some n
      → Reads ts n val
      → Reads (key k ∷ ts) cur val
  unfolding walk_get obj_find
  Reads-key ts cur n o h r = record {
    node = r.node;
    found = rw (o, h) r.found;
    is_string = r.is_string;
    value = r.value;
  }

  set_str_plain-Reads :
      (cur : Node)
      → is_obj cur.type ≡ true
      → (set_str_plain cur k val).1 ≡ ret tt
      → Reads (key k ∷ []) (set_str_plain cur k val).0 val
  unfolding set_str_plain obj_find walk_get
  set_str_plain-Reads cur o h = elim (Option-cases (find_child cur.child k)) [
    | inl e ↦
        let n : Node = record (node_new str (some k)) { val = some val } in
        rw (o, e, set_str_plain, obj_find)
          (Reads-key [] (record cur { child = child_add cur.child n }) n o
            (find_child-child_add k cur.child n e (streq_refl k)) (Reads-self n refl refl))
    | inr (c, e) ↦ elim (Bool-cases (is_str c.type)) [
      | inl s ↦
          let n : Node = record c { val = some val } in
          rw (o, e, s, set_str_plain, obj_find)
            (Reads-key [] (record cur { child = put_child cur.child k n }) n o
              (find_child-put_child k cur.child n e (find_child-named k cur.child e))
              (Reads-self n (is_str-eq c.type s) refl))
      | inr s ↦ cc (rw (o, e, s, set_str_plain, obj_find) at h)
    ]
  ]

  enter_key-Reads :
      (u : Tok) (ts : List Tok) (cur : Node)
      → ((n : Node)
          → (set_walk (u ∷ ts) val n).1 ≡ ret tt
          → Reads (u ∷ ts) (set_walk (u ∷ ts) val n).0 val)
      → (enter_key (set_walk (u ∷ ts) val) (want u) k cur).1 ≡ ret tt
      → Reads (key k ∷ u ∷ ts) (enter_key (set_walk (u ∷ ts) val) (want u) k cur).0 val
  unfolding enter_key obj_find
  enter_key-Reads u ts cur ih h = elim (Bool-cases (is_obj cur.type)) [
    | inr o ↦ cc (rw o at h)
    | inl o ↦ elim (Option-cases (find_child cur.child k)) [
      | inl e ↦
          let fresh : Node = node_new (want u) (some k) in
          let n : Node = (set_walk (u ∷ ts) val fresh).0 in
          let named : is_named n.name k ≡ true =
            rw (set_walk-Kept (u ∷ ts) val fresh).name (streq_refl k) in
          rw (o, e)
            (Reads-key (u ∷ ts) (record cur { child = child_add cur.child n }) n o
              (find_child-child_add k cur.child n e named) (ih fresh (rw (o, e) at h)))
      | inr (c, e) ↦ elim (Bool-cases (same_type c.type (want u))) [
        | inl s ↦
            let n : Node = (set_walk (u ∷ ts) val c).0 in
            let named : is_named n.name k ≡ true =
              rw (set_walk-Kept (u ∷ ts) val c).name (find_child-named k cur.child e) in
            rw (o, e, s)
              (Reads-key (u ∷ ts) (record cur { child = put_child cur.child k n }) n o
                (find_child-put_child k cur.child n e named) (ih c (rw (o, e, s) at h)))
        | inr s ↦ cc (rw (o, e, s) at h)
      ]
    ]
  ]

module _ (i : ℤ) (val : Bytes) where
  -- A write at an index leaves the number of elements, so the index means the same element after it.
  Reads-index :
      (ts : List Tok) (cur n : Node) (j : ℕ) {c : Node}
      → is_arr cur.type ≡ true
      → arr_idx cur i ≡ ret j
      → arr_nth cur.child j ≡ some c
      → Reads ts n val
      → Reads (index i ∷ ts) (record cur { child = put_nth cur.child j n }) val
  unfolding walk_get
  Reads-index ts cur n j a h e r = record {
    node = r.node;
    found = rw (a, arr_idx-put_nth cur j n i ∙ h, arr_nth-put_nth cur.child j n e, ◌>>=◌) r.found;
    is_string = r.is_string;
    value = r.value;
  }

  set_arr_idx-Reads :
      (cur : Node)
      → (set_arr_idx cur i val).1 ≡ ret tt
      → Reads (index i ∷ []) (set_arr_idx cur i val).0 val
  unfolding set_arr_idx write_nth
  set_arr_idx-Reads cur h = elim (Bool-cases (is_arr cur.type)) [
    | inr a ↦ cc (rw a at h)
    | inl a ↦ elim (Bool-cases (at_end cur i)) [
      | inl b ↦ cc (rw (a, b) at h)
      | inr b ↦ elim (Result-cases (arr_idx cur i)) [
        | inl (e, x) ↦ cc (rw (a, b, x) at h)
        | inr (j, x) ↦ elim (Option-cases (arr_nth cur.child j)) [
          | inl y ↦ cc (rw (a, b, x, y, write_nth) at h)
          | inr (c, y) ↦ elim (Bool-cases (is_str c.type)) [
            | inr s ↦ cc (rw (a, b, x, y, s, write_nth) at h)
            | inl s ↦
                let n : Node = record c { val = some val } in
                rw (a, b, x, y, s, write_nth)
                  (Reads-index [] cur n j a x y (Reads-self n (is_str-eq c.type s) refl))
          ]
        ]
      ]
    ]
  ]

  enter_index-Reads :
      (u : Tok) (ts : List Tok) (cur : Node)
      → ((n : Node)
          → (set_walk (u ∷ ts) val n).1 ≡ ret tt
          → Reads (u ∷ ts) (set_walk (u ∷ ts) val n).0 val)
      → (enter_index (set_walk (u ∷ ts) val) i cur).1 ≡ ret tt
      → Reads (index i ∷ u ∷ ts) (enter_index (set_walk (u ∷ ts) val) i cur).0 val
  unfolding enter_index
  enter_index-Reads u ts cur ih h = elim (Bool-cases (is_arr cur.type)) [
    | inr a ↦ cc (rw a at h)
    | inl a ↦ elim (Result-cases (arr_idx cur i)) [
      | inl (e, x) ↦ cc (rw (a, x) at h)
      | inr (j, x) ↦ elim (Option-cases (arr_nth cur.child j)) [
        | inl y ↦ cc (rw (a, x, y) at h)
        | inr (c, y) ↦
            rw (a, x, y)
              (Reads-index (u ∷ ts) cur (set_walk (u ∷ ts) val c).0 j a x y
                (ih c (rw (a, x, y) at h)))
      ]
    ]
  ]

set_walk-Reads :
    (ts : List Tok) (val : Bytes) (cur : Node)
    → ends_append ts ≡ false
    → (set_walk ts val cur).1 ≡ ret tt
    → Reads ts (set_walk ts val cur).0 val
unfolding set_walk set_last
set_walk-Reads [] val cur p h = cc h
set_walk-Reads (append ∷ []) val cur p h = cc p
set_walk-Reads (index i ∷ []) val cur p h = set_arr_idx-Reads i val cur h
set_walk-Reads (key k ∷ []) val cur p h = elim (Bool-cases (is_obj cur.type)) [
  | inr o ↦ cc (rw o at h)
  | inl o ↦ rw o (set_str_plain-Reads k val cur o (rw o at h))
]
set_walk-Reads (append ∷ u ∷ ts) val cur p h = cc h
set_walk-Reads (index i ∷ u ∷ ts) val cur p h =
    enter_index-Reads i val u ts cur (λ n. set_walk-Reads (u ∷ ts) val n p) h
set_walk-Reads (key k ∷ u ∷ ts) val cur p h =
    enter_key-Reads k val u ts cur (λ n. set_walk-Reads (u ∷ ts) val n p) h

-- After a `cfg_set_str` that succeeds, `cfg_get_str` on the same path reads the value, if the path does
-- not end in `[]`.
pub cfg_get_str-cfg_set_str :
    (root : Node) (c : ℕ) (cs val : Bytes) (ts : List Tok)
    → parse_path (c ∷ cs) cfg_path_depth_max ≡ ret ts
    → ends_append ts ≡ false
    → (cfg_set_str root (c ∷ cs) val).1 ≡ ret tt
    → cfg_get_str (cfg_set_str root (c ∷ cs) val).0 (c ∷ cs) ≡ ret val
unfolding cfg_get_str cfg_get_node cfg_set_str
cfg_get_str-cfg_set_str root c cs val ts e p h =
    let r = set_walk-Reads ts val root p (rw (e, cfg_set_str) at h) in
    rw (e, r.found, r.is_string, r.value, cfg_get_str, cfg_get_node, cfg_set_str)
