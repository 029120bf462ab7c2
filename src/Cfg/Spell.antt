-- ===== src/Cfg/Spell.antt =====
-- cfg.c: a path spelled from its tokens is read back as these tokens.
use netrec.Prelude.{
  ℕ, zero, suc, ◌+◌, ◌≤◌, ◌<◌, ◌≡◌, refl, true, false, List, [], ◌∷◌, ◌++◌, arith, Bytes, length,
  leb, All, ret, ◌>>=◌,
}
use netrec.Prelude.Libc.{is_digit}
use netrec.Cfg.Path.{
  Tok, key, index, append, is_alpha, is_key_char, key_loop, parse_key_tok, parse_index_tok,
  next_tok, path_loop, parse_path, cfg_path_depth_max, cfg_path_seg_max,
}
use netrec.Cfg.Bounds.{IsKey}

-- Tokens behind others.
abbrev pub spell_more : List Tok → Bytes
spell_more [] = []
spell_more (key k ∷ ts) = b'.' ∷ (k ++ spell_more ts)
spell_more (append ∷ ts) = b'[' ∷ b']' ∷ spell_more ts
spell_more (index i ∷ ts) = []

-- Tokens behind a path; the empty path is the root's.
abbrev pub under : Bytes → List Tok → Bytes
under [] [] = []
under [] (key k ∷ ts) = k ++ spell_more ts
under [] (append ∷ ts) = []
under [] (index i ∷ ts) = []
under (c ∷ p) ts = (c ∷ p) ++ spell_more ts

-- Keys, and `[]`.
abbrev pub IsPlain : Tok → Type 0
IsPlain (key k) = IsKey k
IsPlain append = Unit
IsPlain (index i) = ⊥

-- Keys, with `[]` at the end or not.
abbrev pub IsFilePath : List Tok → Type 0
IsFilePath [] = ⊥
IsFilePath (key k ∷ []) = IsKey k
IsFilePath (key k ∷ append ∷ []) = IsKey k
IsFilePath (key k ∷ append ∷ u ∷ ts) = ⊥
IsFilePath (key k ∷ index i ∷ ts) = ⊥
IsFilePath (key k ∷ key l ∷ ts) = IsKey k × IsFilePath (key l ∷ ts)
IsFilePath (append ∷ ts) = ⊥
IsFilePath (index i ∷ ts) = ⊥

-- No byte of a key is next.
abbrev Stops : Bytes → Type 0
Stops [] = Unit
Stops (c ∷ cs) = is_key_char c ≡ false

spell_more-Stops : (ts : List Tok) → Stops (spell_more ts)
unfolding is_key_char is_alpha is_digit
spell_more-Stops [] = tt
spell_more-Stops (key k ∷ ts) = refl
spell_more-Stops (append ∷ ts) = refl
spell_more-Stops (index i ∷ ts) = tt

key_loop-spelled :
    (len : ℕ) (k rest : Bytes)
    → All (λ c. is_key_char c ≡ true) k
    → len + length k < cfg_path_seg_max
    → Stops rest
    → key_loop len (k ++ rest) ≡ ret (k, rest)
unfolding key_loop
key_loop-spelled len [] [] h l s = refl
key_loop-spelled len [] (c ∷ cs) h l s = rw s refl
key_loop-spelled len (c ∷ k) rest h l s =
    let room : leb cfg_path_seg_max (len + 1) ≡ false = ground arith in
    rw (h.0, room, key_loop-spelled (len + 1) k rest h.1 (omega arith) s, ◌>>=◌) refl

parse_key_tok-spelled :
    (k rest : Bytes) → IsKey k → Stops rest → parse_key_tok (k ++ rest) ≡ ret (key k, rest)
unfolding parse_key_tok
parse_key_tok-spelled [] rest h s = absurd h
parse_key_tok-spelled (c ∷ k) rest h s =
    rw (h.0, key_loop-spelled 0 (c ∷ k) rest h.1 (omega arith) s, ◌>>=◌) refl

path_loop-spell_more :
    (room : ℕ) (ts : List Tok)
    → All IsPlain ts
    → length ts ≤ room
    → path_loop room (spell_more ts) ≡ ret ts
unfolding path_loop next_tok parse_index_tok
path_loop-spell_more room [] h l = refl
path_loop-spell_more zero (t ∷ ts) h l = absurd (omega arith)
path_loop-spell_more (suc room) (key k ∷ ts) h l =
    rw
      (
        parse_key_tok-spelled k (spell_more ts) h.0 (spell_more-Stops ts),
        ◌>>=◌,
        path_loop-spell_more room ts h.1 (omega arith),
      )
      refl
path_loop-spell_more (suc room) (append ∷ ts) h l =
    rw (path_loop-spell_more room ts h.1 (omega arith), ◌>>=◌) refl
path_loop-spell_more (suc room) (index i ∷ ts) h l = absurd h.0

-- A path that starts with a key.
pub parse_path-spelled :
    (k : Bytes) (ts : List Tok)
    → IsKey k
    → All IsPlain ts
    → length ts < cfg_path_depth_max
    → parse_path (k ++ spell_more ts) cfg_path_depth_max ≡ ret (key k ∷ ts)
unfolding parse_path
parse_path-spelled [] ts h hs l = absurd h
parse_path-spelled (c ∷ k) ts h hs l =
    rw
      (
        parse_key_tok-spelled (c ∷ k) (spell_more ts) h (spell_more-Stops ts),
        ◌>>=◌,
        path_loop-spell_more 63 ts hs (omega arith),
      )
      refl
