-- ===== src/Uci/Tokens.antt =====
-- uci.c: the loops over `next_word` see the words of a value.
use netrec.Prelude.{
  ℕ, zero, suc, ◌+◌, ◌≤◌, ◌<◌, ◌≡◌, ◌↔◌, refl, ap, sym, subst, ◌∙◌, inl, inr, Bool-cases, true,
  false, List, [], ◌∷◌, arith, Bytes, is_blank, streq, streq_iff, streq_refl, ltb, length,
  if◌then◌else◌, All, Memᴰ, Result, ret,
}
use netrec.Cfg.Value.{ltrim}
use netrec.Verify.Exec.{push_word}
use netrec.Uci.Words.{span_word, next_word, word_calls, has_token, value_has_token}

-- The run of other bytes in front of the first blank, and the words behind it.
abbrev word_fold : Bytes → Bytes × List Bytes
word_fold [] = ([], [])
word_fold (c ∷ cs) =
    let (w, ws) = word_fold cs in if is_blank c then ([], push_word w ws) else (c ∷ w, ws)

-- The runs of bytes between the blanks of a text.
abbrev pub words : Bytes → List Bytes
words s = push_word (word_fold s).0 (word_fold s).1

-- What `next_word` passes over has no words.
record Trimmed (s t : Bytes) : Type 0 where
  same_words : words t ≡ words s
  shorter : length t ≤ length s
  no_blank : (c : ℕ) (cs : Bytes) → t ≡ c ∷ cs → is_blank c ≡ false

ltrim-Trimmed : (s : Bytes) → Trimmed s (ltrim s)
unfolding ltrim push_word
ltrim-Trimmed [] = record { same_words = refl; shorter = omega arith; no_blank = λ c cs e. cc e }
ltrim-Trimmed (b ∷ s) = elim (Bool-cases (is_blank b)) [
  | inl y ↦
      let t = ltrim-Trimmed s in
      rw y (record {
        same_words = t.same_words ∙ rw y;
        shorter = omega (arith, t.shorter);
        no_blank = t.no_blank;
      })
  | inr n ↦ rw n (record {
    same_words = refl;
    shorter = omega arith;
    no_blank = λ c cs e. let same : b ≡ c = cc e in subst (λ z. is_blank z ≡ false) same n;
  })
]

-- The first word, and what is left behind it.
record Spans (s : Bytes) (r : Bytes × Bytes) : Type 0 where
  word : r.0 ≡ (word_fold s).0
  rest : words r.1 ≡ (word_fold s).1
  shorter : length r.1 ≤ length s

span_word-Spans : (s : Bytes) → Spans s (span_word s)
unfolding span_word push_word
span_word-Spans [] = record { word = refl; rest = refl; shorter = omega arith }
span_word-Spans (c ∷ cs) = elim (Bool-cases (is_blank c)) [
  | inl y ↦ rw y (record { word = rw y; rest = rw y; shorter = omega arith })
  | inr n ↦
      let t = span_word-Spans cs in
      rw n (record {
        word = rw n (ap (◌∷◌ c) t.word);
        rest = rw n t.rest;
        shorter = omega (arith, t.shorter);
      })
]

abbrev rets : List Bytes → List (Result Bytes)
rets [] = []
rets (w ∷ ws) = ret w ∷ rets ws

abbrev Short : ℕ → List Bytes → Type 0
Short sz = All (λ w. length w < sz)

-- The step of the loop, on what is left behind the blanks.
word_calls-ltrim :
    (fuel sz : ℕ) (s t : Bytes)
    → ((u : Bytes) → length u ≤ fuel → Short sz (words u) → word_calls fuel sz u ≡ rets (words u))
    → ltrim s ≡ t
    → length s ≤ suc fuel
    → Short sz (words s)
    → Trimmed s t
    → word_calls (suc fuel) sz s ≡ rets (words s)
unfolding word_calls next_word span_word push_word
word_calls-ltrim fuel sz s [] ih e le h t = rw (e, word_calls, next_word) (ap rets t.same_words)
word_calls-ltrim fuel sz s (c ∷ cs) ih e le h t =
    let blank = t.no_blank c cs refl in
    let r = span_word-Spans cs in
    let ws : words s ≡ (c ∷ (span_word cs).0) ∷ words (span_word cs).1 =
      sym t.same_words ∙ rw (blank, r.word, r.rest) in
    let short : Short sz ((c ∷ (span_word cs).0) ∷ words (span_word cs).1) =
      subst (Short sz) ws h in
    let fits : ltb sz (suc (length (span_word cs).0) + 1) ≡ false = ground (arith, short.0) in
    rw (e, blank, fits, word_calls, next_word, ws)
      (ap (◌∷◌ (ret (c ∷ (span_word cs).0)))
        (ih (span_word cs).1 (omega (arith, r.shorter, t.shorter)) short.1))

word_calls-words :
    (fuel sz : ℕ) (s : Bytes)
    → length s ≤ fuel
    → Short sz (words s)
    → word_calls fuel sz s ≡ rets (words s)
unfolding word_calls push_word
word_calls-words zero sz [] le h = refl
word_calls-words zero sz (c ∷ cs) le h = absurd (omega arith)
word_calls-words (suc fuel) sz s le h =
    word_calls-ltrim fuel sz s (ltrim s) (word_calls-words fuel sz) refl le h (ltrim-Trimmed s)

has_token-mem : (token : Bytes) (ws : List Bytes) → has_token token (rets ws) ≡ true → Memᴰ token ws
unfolding has_token
has_token-mem token [] h = cc h
has_token-mem token (w ∷ ws) h = elim (Bool-cases (streq w token)) [
  | inl y ↦ Memᴰ.head (sym ((streq_iff w token).0 y))
  | inr n ↦ Memᴰ.tail (has_token-mem token ws (rw n at h))
]

mem-has_token : (token : Bytes) (ws : List Bytes) → Memᴰ token ws → has_token token (rets ws) ≡ true
unfolding has_token
mem-has_token token (w ∷ ws) (Memᴰ.head e) = rw (← e, streq_refl token)
mem-has_token token (w ∷ ws) (Memᴰ.tail m) = elim (Bool-cases (streq w token)) [
  | inl y ↦ rw y
  | inr n ↦ rw n (mem-has_token token ws m)
]
mem-has_token token [] m = elim m [ ]

-- `value_has_token` finds exactly the words of a value, the runs of bytes between its blanks, if none is
-- longer than 255 bytes.
pub value_has_token_iff :
    (val token : Bytes)
    → All (λ w. length w < 256) (words val)
    → (value_has_token val token ≡ true) ↔ Memᴰ token (words val)
unfolding value_has_token
value_has_token_iff val token h =
    let calls = word_calls-words (length val) 256 val (omega arith) h in
    (
      (λ t. has_token-mem token (words val) (rw calls at t)),
      (λ m. rw calls (mem-has_token token (words val) m)),
    )
