-- ===== src/Yaml/Fields.antt =====
-- yaml.c: the readers of one field of an object.
use netrec.Prelude.{
  ℕ, zero, suc, ◌^◌, ◌-◌, Bool, not, ◌||◌, Option, none, some, List, [], ◌∷◌, Bytes, streq,
  is_empty, ltb, take, if◌then◌else◌, Result, ret, err, einval, e2big, ◌>>=◌,
}
use netrec.Prelude.Libc.{strtoul, unsigned_value}
use netrec.State.{ifnamsiz, inet_addrstrlen}
use netrec.Cfg.Node.{Nodes, nil, link, Node, is_arr, is_str, obj_find}
use netrec.Cfg.Access.{val_text}

-- `snprintf(dst, sz, "%s", src)`; a missing text is empty.
unfoldable pub cpy : ℕ → Option Bytes → Bytes
cpy sz src = take (sz - 1) (val_text src)

unfoldable pub parse_u32_str : Bytes → Result ℕ
parse_u32_str [] = err einval
parse_u32_str (c ∷ cs) =
    let p = strtoul (c ∷ cs) in
    if p.overflow || not (is_empty p.rest) || ltb (2 ^ 32 - 1) (unsigned_value p)
    then err einval
    else ret (unsigned_value p)

abbrev pub is_scn : Bytes → Bytes → Bytes → Bool
is_scn scenario a b = streq scenario a || streq scenario b

unfoldable pub get_str : Node → Bytes → ℕ → Bool → Result Bytes
get_str o name sz req = elim (obj_find o name) [
  | none ↦ if req then err einval else ret []
  | some n ↦ if is_str n.type then ret (cpy sz n.val) else err einval
]

unfoldable pub get_u32 : Node → Bytes → Result ℕ
get_u32 o name = elim (obj_find o name) [
  | none ↦ err einval
  | some n ↦ if is_str n.type then parse_u32_str (val_text n.val) else err einval
]

-- The loop over the items of an array, with room for so many more.
unfoldable pub str_items : ℕ → ℕ → Nodes → Result (List Bytes)
str_items sz room nil = ret []
str_items sz zero (link t m v c next) = if is_str t then err e2big else err einval
str_items sz (suc room) (link t m v c next) =
    if is_str t then (str_items sz room next >>= λ rest. ret (cpy sz v ∷ rest)) else err einval

-- `get_str_arr` and `get_dns_arr`, which differ in the size of an item.
unfoldable pub get_items : ℕ → Node → Bytes → ℕ → Result (List Bytes)
get_items sz o name max = elim (obj_find o name) [
  | none ↦ ret []
  | some n ↦ if is_arr n.type then str_items sz max n.child else err einval
]

abbrev pub get_str_arr : Node → Bytes → ℕ → Result (List Bytes)
get_str_arr = get_items ifnamsiz

abbrev pub get_dns_arr : Node → Bytes → ℕ → Result (List Bytes)
get_dns_arr = get_items inet_addrstrlen
