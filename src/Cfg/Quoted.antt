-- ===== src/Cfg/Quoted.antt =====
-- cfg.c: `parse_value` reads back what `quote` writes.
use netrec.Prelude.{
  ℕ, ◌≡◌, refl, subst, inl, inr, Bool-cases, true, false, ◌||◌, [], ◌∷◌, ◌++◌, arith, Bytes,
  is_blank, is_empty, ◌==◌, ret, append_assoc, append-nil,
}
use netrec.Cfg.Value.{
  ltrim, rtrim, trim, unescape, unquote, rest_ok, value_of, parse_value, quote_byte, quote_loop,
  quote,
}

unquote_plain :
    (c : ℕ) (cs : Bytes) {r : Bytes × Bytes}
    → (c == b'"') ≡ false
    → (c == b'\\') ≡ false
    → unquote cs ≡ ret r
    → unquote (c ∷ cs) ≡ ret (c ∷ r.0, r.1)
unfolding unquote
unquote_plain c [] q b h = cc
unquote_plain c (d ∷ cs) q b h = rw (q, b, h)

unquote_escaped :
    (d : ℕ) (cs : Bytes) {r : Bytes × Bytes}
    → unquote cs ≡ ret r
    → unquote (b'\\' ∷ d ∷ cs) ≡ ret (unescape d ∷ r.0, r.1)
unfolding unquote
unquote_escaped d cs h = rw h

unescape_self : (c : ℕ) → (c == b'\\' || c == b'"') ≡ true → unescape c ≡ c
unfolding unescape
unescape_self c e = ground arith

unquote-quote_byte :
    (c : ℕ) (cs : Bytes) {r : Bytes × Bytes}
    → unquote cs ≡ ret r
    → unquote (quote_byte c ++ cs) ≡ ret (c ∷ r.0, r.1)
unfolding quote_byte unescape
unquote-quote_byte c cs {r} h = elim (Bool-cases (c == b'\\' || c == b'"')) [
  | inl e ↦ let back : unescape c ≡ c = unescape_self c e in rw (e, unquote_escaped c cs h, back)
  | inr e ↦ elim (Bool-cases (c == b'\n')) [
    | inl n ↦ let same : c ≡ b'\n' = ground arith in rw (e, n, unquote_escaped b'n' cs h, same)
    | inr n ↦ elim (Bool-cases (c == b'\t')) [
      | inl t ↦ let same : c ≡ b'\t' = ground arith in rw (e, n, t, unquote_escaped b't' cs h, same)
      | inr t ↦ rw (e, n, t) (unquote_plain c cs (ground arith) (ground arith) h)
    ]
  ]
]

unquote_close : (rest : Bytes) → unquote (b'"' ∷ rest) ≡ ret ([], rest)
unfolding unquote
unquote_close [] = refl
unquote_close (c ∷ rest) = refl

pub unquote-quote_loop : (s rest : Bytes) → unquote (quote_loop s ++ rest) ≡ ret (s, rest)
unfolding quote_loop
unquote-quote_loop [] rest = unquote_close rest
unquote-quote_loop (c ∷ s) rest =
    rw (append_assoc (quote_byte c) (quote_loop s) rest)
      (unquote-quote_byte c (quote_loop s ++ rest) (unquote-quote_loop s rest))

-- A text that ends in something that is not blank.
pub record Ends (s : Bytes) : Type 0 where
  pub whole : rtrim s ≡ s
  pub some_byte : is_empty s ≡ false

pub Ends-append : (xs ys : Bytes) → Ends ys → Ends (xs ++ ys)
unfolding rtrim
Ends-append [] ys e = e
Ends-append (x ∷ xs) ys e =
    let rest = Ends-append xs ys e in
    record { whole = rw (rest.whole, rest.some_byte); some_byte = refl }

pub quote_loop-Ends : (s : Bytes) → Ends (quote_loop s)
unfolding quote_loop rtrim is_blank
quote_loop-Ends [] = record { whole = refl; some_byte = refl }
quote_loop-Ends (c ∷ s) = Ends-append (quote_byte c) (quote_loop s) (quote_loop-Ends s)

pub trim-quote : (s : Bytes) → trim (quote s) ≡ quote s
unfolding trim quote ltrim is_blank
trim-quote s = (Ends-append (b'"' ∷ []) (quote_loop s) (quote_loop-Ends s)).whole

-- Whatever bytes a value has, what `quote` writes for it is read back by `parse_value` as the value.
pub parse_value-quote : (s : Bytes) → parse_value (quote s) ≡ ret s
unfolding parse_value value_of quote trim ltrim rest_ok
parse_value-quote s =
    let closes : unquote (quote_loop s) ≡ ret (s, []) =
      subst (λ z. unquote z ≡ ret (s, [])) (append-nil (quote_loop s)) (unquote-quote_loop s []) in
    rw (trim-quote s, closes)
