-- ===== src/Uci/Words.antt =====
-- uci.c: the small text helpers, and the loops over the words of a value.
use netrec.Prelude.{
  ℕ, zero, suc, ◌+◌, ◌-◌, Bool, true, false, Option, none, some, List, [], ◌∷◌, Bytes, streq,
  is_blank, ◌==◌, ltb, leb, take, length, if◌then◌else◌, Result, ret, err, e2big,
}
use netrec.Cfg.Value.{ltrim}
use netrec.Yaml.Fields.{parse_u32_str}

-- `cpy`; a missing text is empty.
unfoldable pub uci_cpy : ℕ → Option Bytes → Bytes
uci_cpy sz none = []
uci_cpy sz (some src) = if leb sz (length src) then take (sz - 1) src else src

abbrev pub uci_parse_u32_str : Bytes → Result ℕ
uci_parse_u32_str = parse_u32_str

-- The text without the `'` that ends it.
unfoldable pub closed_quote : Bytes → Option Bytes
closed_quote [] = none
closed_quote (c ∷ []) = if c == b'\'' then some [] else none
closed_quote (c ∷ d ∷ cs) = elim (closed_quote (d ∷ cs)) [ none ↦ none | some m ↦ some (c ∷ m) ]

unfoldable pub strip_quotes : Bytes → Bytes
unfolding closed_quote
strip_quotes [] = []
strip_quotes (c ∷ cs) =
    if c == b'\'' then elim (closed_quote cs) [ none ↦ c ∷ cs | some m ↦ m ] else c ∷ cs

-- The bytes up to the next blank, and the rest.
unfoldable pub span_word : Bytes → Bytes × Bytes
unfolding is_blank
span_word [] = ([], [])
span_word (c ∷ cs) =
    let (w, rest) = span_word cs in if is_blank c then ([], c ∷ cs) else (c ∷ w, rest)

-- 0 at the end of the text, 1 with a word and what follows it, or E2BIG.
unfoldable pub next_word : ℕ → Bytes → Result (Option (Bytes × Bytes))
unfolding span_word ltrim
next_word sz src = elim (ltrim src) [
  | [] ↦ ret none
  | c ∷ cs ↦
      let (w, rest) = span_word (c ∷ cs) in
      if ltb sz (length w + 1) then err e2big else ret (some (w, rest))
]

-- What the calls of `next_word` in a loop give, up to the one that returns 0 or an error. The length of
-- the text is fuel enough.
unfoldable pub word_calls : ℕ → ℕ → Bytes → List (Result Bytes)
word_calls zero sz src = []
word_calls (suc fuel) sz src = elim (next_word sz src) [
  | err e ↦ err e ∷ []
  | ret none ↦ []
  | ret (some (w, rest)) ↦ ret w ∷ word_calls fuel sz rest
]

abbrev pub words_of : ℕ → Bytes → List (Result Bytes)
words_of sz src = word_calls (length src) sz src

unfoldable pub has_token : Bytes → List (Result Bytes) → Bool
has_token token [] = false
has_token token (err e ∷ ws) = false
has_token token (ret w ∷ ws) = let rest = has_token token ws in if streq w token then true else rest

-- `value_has_token`, on a value and a token that are there
unfoldable pub value_has_token : Bytes → Bytes → Bool
unfolding has_token word_calls
value_has_token val token = has_token token (words_of 256 val)

-- The text behind a prefix.
unfoldable pub behind : Bytes → Bytes → Option Bytes
behind [] s = some s
behind (p ∷ ps) [] = none
behind (p ∷ ps) (c ∷ cs) = let rest = behind ps cs in if c == p then rest else none
