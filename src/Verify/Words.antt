-- ===== src/Verify/Words.antt =====
-- What `cmd_split` makes of a command, and which argument vectors are run.
use netrec.Prelude.{
  ℕ, ◌+◌, ◌<◌, ◌≡◌, refl, ap, subst, ◌∙◌, inl, inr, Bool-cases, Bool, true, false, not, ◌&&◌, List,
  [], ◌∷◌, ◌++◌, arith, Bytes, is_blank, All, length, leb, if◌then◌else◌, Result, ret, err,
  >>=-eq-ret, ◌>>=◌, e2big,
}
use netrec.Verify.Exec.{push_word, split_loop, cmd_split}

-- A word: bytes that are not blank, one at least.
abbrev pub IsWord : Bytes → Type 0
IsWord [] = ⊥
IsWord (c ∷ w) = All (λ b. is_blank b ≡ false) (c ∷ w)

-- The bytes of a text that are not blank, in order.
abbrev pub squeeze : Bytes → Bytes
squeeze [] = []
squeeze (c ∷ cs) = if is_blank c then squeeze cs else c ∷ squeeze cs

abbrev pub glue : List Bytes → Bytes
glue [] = []
glue (w ∷ ws) = w ++ glue ws

push_word-glue : (w : Bytes) (ws : List Bytes) → glue (push_word w ws) ≡ w ++ glue ws
unfolding push_word
push_word-glue [] ws = refl
push_word-glue (c ∷ w) ws = refl

push_word-All :
    (w : Bytes) (ws : List Bytes)
    → All (λ b. is_blank b ≡ false) w
    → All IsWord ws
    → All IsWord (push_word w ws)
unfolding push_word
push_word-All [] ws hw hs = hs
push_word-All (c ∷ w) ws hw hs = (hw, hs)

-- What the loop promises of its result, from `argc` words begun.
record Split (max argc : ℕ) (inside : Bool) (cs : Bytes) (r : Bytes × List Bytes) : Type 0 where
  head_ok : All (λ b. is_blank b ≡ false) r.0
  words_ok : All IsWord r.1
  content : r.0 ++ glue r.1 ≡ squeeze cs
  room : argc + length (if inside then r.1 else push_word r.0 r.1) < max

-- The test for the limit: a new word is begun only if it leaves room for the NULL.
room_left :
    (max argc : ℕ) (begins : Bool) {A : Type 0} (m : Result A) {r : A}
    → argc < max
    → (if begins && leb max (argc + 1) then err e2big else m) ≡ ret r
    → (m ≡ ret r) × ((if begins then argc + 1 else argc) < max)
room_left max argc begins m lt h = (ground arith, ground arith)

Split-blank :
    {max argc : ℕ} {inside : Bool} {c : ℕ} {cs : Bytes} {a : Bytes × List Bytes}
    → is_blank c ≡ true
    → Split max argc false cs a
    → Split max argc inside (c ∷ cs) ([], push_word a.0 a.1)
unfolding push_word
Split-blank {inside = true} {a = a} b s = record {
  head_ok = tt;
  words_ok = push_word-All a.0 a.1 s.head_ok s.words_ok;
  content = push_word-glue a.0 a.1 ∙ s.content ∙ rw b;
  room = s.room;
}
Split-blank {inside = false} {a = a} b s = record {
  head_ok = tt;
  words_ok = push_word-All a.0 a.1 s.head_ok s.words_ok;
  content = push_word-glue a.0 a.1 ∙ s.content ∙ rw b;
  room = s.room;
}

Split-byte :
    {max argc : ℕ} {inside : Bool} {c : ℕ} {cs : Bytes} {a : Bytes × List Bytes}
    → is_blank c ≡ false
    → Split max (if inside then argc else argc + 1) true cs a
    → Split max argc inside (c ∷ cs) (c ∷ a.0, a.1)
unfolding push_word
Split-byte {inside = true} {c} b s = record {
  head_ok = (b, s.head_ok);
  words_ok = s.words_ok;
  content = ap (◌∷◌ c) s.content ∙ rw b;
  room = s.room;
}
Split-byte {inside = false} {c} b s = record {
  head_ok = (b, s.head_ok);
  words_ok = s.words_ok;
  content = ap (◌∷◌ c) s.content ∙ rw b;
  room = omega (arith, s.room);
}

-- The loop's last step, on the result `a` of the rounds behind it.
abbrev add_byte : ℕ → Bytes × List Bytes → Result (Bytes × List Bytes)
add_byte c a = if is_blank c then ret ([], push_word a.0 a.1) else ret (c ∷ a.0, a.1)

module _ (max : ℕ) where
  split_loop-Split :
      (argc : ℕ) (inside : Bool) (cs : Bytes) (r : Bytes × List Bytes)
      → argc < max
      → split_loop max argc inside cs ≡ ret r
      → Split max argc inside cs r
  unfolding split_loop push_word
  split_loop-Split argc true [] r lt h =
      let same : ◌≡◌ {A = Bytes × List Bytes} ([], []) r = cc h in
      subst (Split max argc true []) same
        (record { head_ok = tt; words_ok = tt; content = refl; room = omega arith })
  split_loop-Split argc false [] r lt h =
      let same : ◌≡◌ {A = Bytes × List Bytes} ([], []) r = cc h in
      subst (Split max argc false []) same
        (record { head_ok = tt; words_ok = tt; content = refl; room = omega arith })
  split_loop-Split argc true (c ∷ cs) r lt h =
      let (a, e, f) = >>=-eq-ret (split_loop max argc (not (is_blank c)) cs) (add_byte c) h in
      elim (Bool-cases (is_blank c)) [
        | inl b ↦
            let same : ([], push_word a.0 a.1) ≡ r = cc (rw b at f) in
            subst (Split max argc true (c ∷ cs)) same
              (Split-blank b (split_loop-Split argc false cs a lt (rw b at e)))
        | inr b ↦
            let same : (c ∷ a.0, a.1) ≡ r = cc (rw b at f) in
            subst (Split max argc true (c ∷ cs)) same
              (Split-byte b (split_loop-Split argc true cs a lt (rw b at e)))
      ]
  split_loop-Split argc false (c ∷ cs) r lt h =
      let begins = not (is_blank c) in
      let rest = split_loop max (if begins then argc + 1 else argc) begins cs in
      let (m, bound) = room_left max argc begins (rest >>= add_byte c) lt h in
      let (a, e, f) = >>=-eq-ret rest (add_byte c) m in
      elim (Bool-cases (is_blank c)) [
        | inl b ↦
            let same : ([], push_word a.0 a.1) ≡ r = cc (rw b at f) in
            subst (Split max argc false (c ∷ cs)) same
              (Split-blank b (split_loop-Split argc false cs a lt (rw b at e)))
        | inr b ↦
            let same : (c ∷ a.0, a.1) ≡ r = cc (rw b at f) in
            subst (Split max argc false (c ∷ cs)) same
              (Split-byte b (split_loop-Split (argc + 1) true cs a (rw b at bound) (rw b at e)))
      ]

-- `cmd_split` cuts a command into fewer than `max` words, none of them empty or with a blank in it,
-- and loses no byte of the command but blanks.
pub cmd_split-words :
    (cmd : Bytes) (max : ℕ) (argv : List Bytes)
    → 0 < max
    → cmd_split cmd max ≡ ret argv
    → All IsWord argv × (length argv < max) × (glue argv ≡ squeeze cmd)
unfolding cmd_split
cmd_split-words cmd max argv lt h =
    let (a, e, f) = >>=-eq-ret (split_loop max 0 false cmd) (λ r. ret (push_word r.0 r.1)) h in
    let s = split_loop-Split max 0 false cmd a lt e in
    let same : push_word a.0 a.1 ≡ argv = cc f in
    (
      subst (All IsWord) same (push_word-All a.0 a.1 s.head_ok s.words_ok),
      rw (← same) (omega (arith, s.room)),
      rw (← same) (push_word-glue a.0 a.1 ∙ s.content),
    )
