-- ===== src/Cfg/Loaded.antt =====
-- cfg.c: every line that `cfg_load` takes keeps the tree one that `cfg_dump_file` writes and `cfg_load`
-- loads again.
use netrec.Prelude.{
  ◌≡◌, sym, ◌∙◌, ap, inl, inr, Bool-cases, true, false, Option, none, some, List, [], ◌∷◌, Bytes,
  is_empty, All, ret, ◌>>=◌, >>=-eq-ret,
}
use netrec.Cfg.Path.{
  Tok, key, index, append, is_key_start, key_loop, parse_key_tok, path_loop, parse_path,
  toks_file_ok, cfg_path_depth_max,
}
use netrec.Cfg.Node.{obj, arr, str, Nodes, nil, link, Node, node_new, child_add}
use netrec.Cfg.Set.{same_type, set_arr_append, set_last, set_walk}
use netrec.Cfg.Bounds.{IsKey, IsTok}
use netrec.Cfg.Spell.{IsFilePath}
use netrec.Cfg.Tree.{IsItems, last, more, IsTree, empty}
use netrec.Cfg.Shape.{
  IsChild, is_text, is_list, is_object, IsObject, a_tree, object_with, set_str_plain-IsObject,
  enter_key-IsObject,
}

child_add-IsItems :
    (v : Bytes) {c : Nodes}
    → IsItems c
    → IsItems (child_add c (record (node_new str none) { val = some v }))
unfolding child_add
child_add-IsItems v (last {v = w}) = more last
child_add-IsItems v (more {v = w} {next} h) = more (child_add-IsItems v h)

-- The array behind a key gets an element.
item_added :
    (k v : Bytes) {c : Node}
    → IsChild k c
    → same_type c.type arr ≡ true
    → IsChild k (set_walk (append ∷ []) v c).0
unfolding set_walk set_last set_arr_append
item_added k v is_text t = cc t
item_added k v (is_list h) t = is_list (child_add-IsItems v h)
item_added k v (is_object h) t = cc t

IsObject-IsChild : {k : Bytes} {n : Node} → IsObject (some k) n → IsChild k n
IsObject-IsChild (a_tree {t} {m} {v} {c} {d} h) = is_object h

-- Below a key that leads to an object, when that is right of every object of the key's name.
below_object :
    (ts : List Tok) (v k : Bytes) {c : Node}
    → ((d : Nodes)
        → IsTree d
        → (set_walk ts v (object_with (some k) d)).1 ≡ ret tt
        → IsObject (some k) (set_walk ts v (object_with (some k) d)).0)
    → IsChild k c
    → same_type c.type obj ≡ true
    → (set_walk ts v c).1 ≡ ret tt
    → IsChild k (set_walk ts v c).0
below_object ts v k go is_text t r = cc t
below_object ts v k go (is_list h) t r = cc t
below_object ts v k go (is_object {t = u} {m} {v = w} {c} {d} h) t r =
    IsObject-IsChild (go (link u m w c d) h r)

pub set_walk-IsObject :
    (ts : List Tok) (v : Bytes) (o : Option Bytes) (ns : Nodes)
    → IsFilePath ts
    → IsTree ns
    → (set_walk ts v (object_with o ns)).1 ≡ ret tt
    → IsObject o (set_walk ts v (object_with o ns)).0
unfolding set_walk set_last set_arr_append child_add
set_walk-IsObject (key k ∷ []) v o ns p h r =
    let call = set_walk (key k ∷ []) v (object_with o ns) in
    set_str_plain-IsObject k p o ns h v call.0 (ap (λ z. (call.0, z)) r)
set_walk-IsObject (key k ∷ append ∷ []) v o ns p h r =
    let call = set_walk (key k ∷ append ∷ []) v (object_with o ns) in
    enter_key-IsObject k p o ns h (set_walk (append ∷ []) v) arr call.0 (λ x. is_list last)
      (λ c s t x. item_added k v s t) (ap (λ z. (call.0, z)) r)
set_walk-IsObject (key k ∷ key l ∷ ts) v o ns p h r =
    let call = set_walk (key k ∷ key l ∷ ts) v (object_with o ns) in
    enter_key-IsObject k p.0 o ns h (set_walk (key l ∷ ts) v) obj call.0
      (λ x. IsObject-IsChild (set_walk-IsObject (key l ∷ ts) v (some k) nil p.1 empty x))
      (λ c s t x.
        below_object (key l ∷ ts) v k (λ d w y. set_walk-IsObject (key l ∷ ts) v (some k) d p.1 w y)
          s t x)
      (ap (λ z. (call.0, z)) r)
set_walk-IsObject [] v o ns p h r = absurd p
set_walk-IsObject (key k ∷ append ∷ u ∷ ts) v o ns p h r = absurd p
set_walk-IsObject (key k ∷ index i ∷ ts) v o ns p h r = absurd p
set_walk-IsObject (append ∷ ts) v o ns p h r = absurd p
set_walk-IsObject (index i ∷ ts) v o ns p h r = absurd p

-- The tokens of a path that a file may have.
pub toks-IsFilePath :
    (k : Bytes) (ts : List Tok)
    → IsKey k
    → All IsTok ts
    → toks_file_ok ts ≡ true
    → IsFilePath (key k ∷ ts)
unfolding toks_file_ok
toks-IsFilePath k [] h g e = h
toks-IsFilePath k (key l ∷ ts) h g e = (h, toks-IsFilePath l ts g.0 g.1 e)
toks-IsFilePath k (index i ∷ ts) h g e = cc e
toks-IsFilePath k (append ∷ []) h g e = h
toks-IsFilePath k (append ∷ u ∷ ts) h g e = cc e

parse_key_tok-key :
    (cs : Bytes) (r : Tok × Bytes) → parse_key_tok cs ≡ ret r → (k : Bytes) × (r.0 ≡ key k)
unfolding parse_key_tok
parse_key_tok-key [] r h = cc h
parse_key_tok-key (c ∷ cs) r h = elim (Bool-cases (is_key_start c)) [
  | inr n ↦ cc (rw n at h)
  | inl y ↦
      let (a, e, f) =
        >>=-eq-ret {B = Tok × Bytes} (key_loop 0 (c ∷ cs)) (λ r. ret (key r.0, r.1)) (rw y at h) in
      let same : (key a.0, a.1) ≡ r = cc f in (a.0, ap (λ z. z.0) (sym same))
]

pub parse_path-first :
    (path : Bytes) (ts : List Tok)
    → parse_path path cfg_path_depth_max ≡ ret ts
    → is_empty path ≡ false
    → (k : Bytes) × (us : List Tok) × (ts ≡ key k ∷ us)
unfolding parse_path
parse_path-first [] ts h e = cc e
parse_path-first (c ∷ cs) ts h e =
    let (t, f, g) =
      >>=-eq-ret (parse_key_tok (c ∷ cs)) (λ t. path_loop 63 t.1 >>= λ us. ret (t.0 ∷ us)) h in
    let (us, l, m) = >>=-eq-ret {B = List Tok} (path_loop 63 t.1) (λ us. ret (t.0 ∷ us)) g in
    let same : t.0 ∷ us ≡ ts = cc m in
    let (k, first) = parse_key_tok-key (c ∷ cs) t f in (k, us, sym same ∙ ap (λ z. z ∷ us) first)
