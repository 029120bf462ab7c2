-- ===== src/Cfg/Bounds.antt =====
-- cfg.c: what `parse_path` lets through.
use netrec.Prelude.{
  ℕ, zero, suc, ◌+◌, ◌<◌, ◌≤◌, ◌≡◌, refl, ap, subst, inl, inr, Bool-cases, true, ◌||◌, List, [],
  ◌∷◌, ◌++◌, arith, Bytes, length, leb, ◌==◌, All, Result, ret, ◌>>=◌, >>=-eq-ret,
}
use netrec.Prelude.{ℤ, Option, none, some}
use netrec.Prelude.Libc.{strtol}
use netrec.Cfg.Path.{
  Tok, key, index, append, cfg_path_seg_max, is_key_start, is_key_char, key_loop, parse_key_tok,
  skip_minus, int_of, parse_index_tok, close_index, digits_ok, next_tok, path_loop, parse_path,
}

-- What the loop over a key promises of its result, with `len` bytes stored before.
pub record KeyRead (len : ℕ) (cs : Bytes) (r : Bytes × Bytes) : Type 0 where
  pub content : cs ≡ r.0 ++ r.1
  pub chars : All (λ c. is_key_char c ≡ true) r.0
  pub room : len + length r.0 < cfg_path_seg_max

pub key_loop-KeyRead :
    (len : ℕ) (cs : Bytes) (r : Bytes × Bytes)
    → len < cfg_path_seg_max
    → key_loop len cs ≡ ret r
    → KeyRead len cs r
unfolding key_loop
key_loop-KeyRead len [] r lt h =
    let same : ◌≡◌ {A = Bytes × Bytes} ([], []) r = cc h in
    subst (KeyRead len []) same (record { content = refl; chars = tt; room = omega arith })
key_loop-KeyRead len (c ∷ cs) r lt h = elim (Bool-cases (is_key_char c)) [
  | inr n ↦
      let same : ([], c ∷ cs) ≡ r = cc (rw n at h) in
      subst (KeyRead len (c ∷ cs)) same (record { content = refl; chars = tt; room = omega arith })
  | inl y ↦ elim (Bool-cases (leb cfg_path_seg_max (len + 1))) [
    | inl full ↦ cc (rw (y, full) at h)
    | inr more ↦
        let (a, e, f) =
          >>=-eq-ret (key_loop (len + 1) cs) (λ r. ret (c ∷ r.0, r.1)) (rw (y, more) at h) in
        let same : (c ∷ a.0, a.1) ≡ r = cc f in
        let rest = key_loop-KeyRead (len + 1) cs a (ground arith) e in
        subst (KeyRead len (c ∷ cs)) same (record {
          content = ap (◌∷◌ c) rest.content;
          chars = (y, rest.chars);
          room = omega (arith, rest.room);
        })
  ]
]

-- A key that C code may take for a name: it starts like one, has the bytes of one and fits.
abbrev pub IsKey : Bytes → Type 0
IsKey [] = ⊥
IsKey (c ∷ cs) =
    (is_key_start c ≡ true)
    × All (λ b. is_key_char b ≡ true) (c ∷ cs)
    × (length (c ∷ cs) < cfg_path_seg_max)

abbrev pub IsTok : Tok → Type 0
IsTok (key k) = IsKey k
IsTok (index i) = Unit
IsTok append = Unit

-- What a token reader promises of its result: a good token, and the bytes it was read from, which the
-- theorems on a line of a file need for all tokens but an index.
abbrev pub SpelledBy : Tok → Bytes → Bytes → Type 0
SpelledBy (key k) cs rest = cs ≡ k ++ rest
SpelledBy (index i) cs rest = Unit
SpelledBy append cs rest = cs ≡ b']' ∷ rest

pub record TokRead (cs : Bytes) (r : Tok × Bytes) : Type 0 where
  pub good : IsTok r.0
  pub spelled : SpelledBy r.0 cs r.1

key_start_char : (c : ℕ) → is_key_start c ≡ true → is_key_char c ≡ true
unfolding is_key_start is_key_char
key_start_char c h = ground arith

pub parse_key_tok-TokRead : (cs : Bytes) (r : Tok × Bytes) → parse_key_tok cs ≡ ret r → TokRead cs r
unfolding parse_key_tok key_loop
parse_key_tok-TokRead [] r h = cc h
parse_key_tok-TokRead (c ∷ cs) r h = elim (Bool-cases (is_key_start c)) [
  | inr n ↦ cc (rw n at h)
  | inl y ↦
      let char = key_start_char c y in
      let first : Bytes × Bytes → Result (Bytes × Bytes) = λ r. ret (c ∷ r.0, r.1) in
      let (k, d, f) =
        >>=-eq-ret {B = Tok × Bytes} (key_loop 0 (c ∷ cs)) (λ r. ret (key r.0, r.1)) (rw y at h) in
      let (a, e, g) = >>=-eq-ret {B = Bytes × Bytes} (key_loop 1 cs) first (rw char at d) in
      let more = key_loop-KeyRead 1 cs a (omega arith) e in
      let cut : (c ∷ a.0, a.1) ≡ k = cc g in
      let same : (key (c ∷ a.0), a.1) ≡ r = cc (f, cut) in
      subst (TokRead (c ∷ cs)) same (record {
        good = (y, (char, more.chars), omega (arith, more.room));
        spelled = ap (◌∷◌ c) more.content;
      })
]

close_index-TokRead :
    (cs : Bytes) (v : Option ℤ) (rest : Bytes) (r : Tok × Bytes)
    → close_index v rest ≡ ret r
    → TokRead cs r
unfolding close_index
close_index-TokRead cs none rest r h = cc h
close_index-TokRead cs (some i) [] r h = cc h
close_index-TokRead cs (some i) (c ∷ rest) r h = elim (Bool-cases (c == b']')) [
  | inl y ↦
      let same : (index i, rest) ≡ r = cc (rw y at h) in
      subst (TokRead cs) same (record { good = tt; spelled = tt })
  | inr n ↦ cc (rw n at h)
]

parse_index_tok-TokRead : (cs : Bytes) (r : Tok × Bytes) → parse_index_tok cs ≡ ret r → TokRead cs r
unfolding parse_index_tok
parse_index_tok-TokRead [] r h = cc h
parse_index_tok-TokRead (c ∷ cs) r h = elim (Bool-cases (c == b']')) [
  | inl y ↦
      let same : (append, cs) ≡ r = cc (rw y at h) in
      let is_bracket : c ≡ b']' = ground arith in
      subst (TokRead (c ∷ cs)) same (record { good = tt; spelled = ap (λ z. z ∷ cs) is_bracket })
  | inr n ↦ elim (Bool-cases (digits_ok (skip_minus (c ∷ cs)))) [
    | inl d ↦
        close_index-TokRead (c ∷ cs) (int_of (strtol (c ∷ cs))) (strtol (c ∷ cs)).rest r
          (rw (n, d) at h)
    | inr d ↦ cc (rw (n, d) at h)
  ]
]

-- A token behind the first is an index, or is spelled with the byte that begins it.
pub next_tok-TokRead :
    (c : ℕ) (cs : Bytes) (r : Tok × Bytes)
    → next_tok c cs ≡ ret r
    → TokRead cs r × ((c == b'.' || c == b'[') ≡ true)
unfolding next_tok
next_tok-TokRead c cs r h = elim (Bool-cases (c == b'.')) [
  | inl y ↦ (parse_key_tok-TokRead cs r (rw y at h), rw y)
  | inr n ↦ elim (Bool-cases (c == b'[')) [
    | inl y ↦ (parse_index_tok-TokRead cs r (rw (n, y) at h), rw (n, y))
    | inr m ↦ cc (rw (n, m) at h)
  ]
]

path_loop-bounds :
    (room : ℕ) (cs : Bytes) (ts : List Tok)
    → path_loop room cs ≡ ret ts
    → All IsTok ts × (length ts ≤ room)
unfolding path_loop
path_loop-bounds room [] ts h =
    let same : ◌≡◌ {A = List Tok} [] ts = cc h in
    subst (λ z. All IsTok z × (length z ≤ room)) same (tt, omega arith)
path_loop-bounds zero (c ∷ cs) ts h = cc h
path_loop-bounds (suc room) (c ∷ cs) ts h =
    let (t, e, f) =
      >>=-eq-ret (next_tok c cs) (λ t. path_loop room t.1 >>= λ us. ret (t.0 ∷ us)) h in
    let (us, g, k) = >>=-eq-ret {B = List Tok} (path_loop room t.1) (λ us. ret (t.0 ∷ us)) f in
    let same : t.0 ∷ us ≡ ts = cc k in
    let (good, few) = path_loop-bounds room t.1 us g in
    subst (λ z. All IsTok z × (length z ≤ suc room)) same
      (((next_tok-TokRead c cs t e).0.good, good), omega arith)

-- Every path that `parse_path` accepts gives at most as many tokens as the array has room for, and
-- every key among them starts with a letter or `_`, has letters, digits and `_` only, and fits with
-- its NUL in the token's `char key[128]`.
pub parse_path-bounds :
    (path : Bytes) (max : ℕ) (ts : List Tok)
    → parse_path path max ≡ ret ts
    → All IsTok ts × (length ts ≤ max)
unfolding parse_path
parse_path-bounds [] max ts h =
    let same : ◌≡◌ {A = List Tok} [] ts = cc h in
    subst (λ z. All IsTok z × (length z ≤ max)) same (tt, omega arith)
parse_path-bounds (c ∷ cs) zero ts h = cc h
parse_path-bounds (c ∷ cs) (suc room) ts h =
    let (t, e, f) =
      >>=-eq-ret (parse_key_tok (c ∷ cs)) (λ t. path_loop room t.1 >>= λ us. ret (t.0 ∷ us)) h in
    let (us, g, k) = >>=-eq-ret {B = List Tok} (path_loop room t.1) (λ us. ret (t.0 ∷ us)) f in
    let same : t.0 ∷ us ≡ ts = cc k in
    let (good, few) = path_loop-bounds room t.1 us g in
    subst (λ z. All IsTok z × (length z ≤ suc room)) same
      (((parse_key_tok-TokRead (c ∷ cs) t e).good, good), omega arith)
