-- ===== src/Uci/Id.antt =====
-- uci.c: the key under which a desired state is written.
use netrec.Prelude.{
  ℕ, zero, suc, ◌-◌, ◌≤◌, ◌<◌, ◌≡◌, refl, ap, sym, subst, inl, inr, Bool-cases, true, [], ◌∷◌, ◌++◌,
  arith, Bytes, is_empty, length, length-append, if◌then◌else◌, All, All-append, ret, >>=-eq-ret,
}
use netrec.Prelude.Libc.{is_digit}
use netrec.State.{DesiredState, ifnamsiz}
use netrec.Cfg.Path.{is_key_start, is_key_char}
use netrec.Cfg.Bounds.{IsKey}
use netrec.Uci.Dump.{is_id_start, is_id_char, id_byte, id_first, id_loop, cfg_state_id}

abbrev IsChars : Bytes → Type 0
IsChars = All (λ b. is_key_char b ≡ true)

id_byte-char : (c : ℕ) → is_key_char (id_byte c) ≡ true
unfolding id_byte is_id_char is_key_char
id_byte-char c = ground arith

-- The first bytes of an id: they begin a key.
record Starts (s : Bytes) : Type 0 where
  head : ℕ
  tail : Bytes
  shape : s ≡ head ∷ tail
  starts : is_key_start head ≡ true
  chars : IsChars s
  few : length s ≤ 2

id_first-Starts : (c : ℕ) → Starts (id_first c)
unfolding id_first is_id_start is_key_start is_key_char
id_first-Starts c = elim (Bool-cases (is_id_start c)) [
  | inl y ↦ rw y (record {
    head = c;
    tail = [];
    shape = refl;
    starts = ground arith;
    chars = (ground arith, tt);
    few = omega arith;
  })
  | inr n ↦ elim (Bool-cases (is_digit c)) [
    | inl d ↦
        rw (n, d)
          (record {
            head = b'_';
            tail = c ∷ [];
            shape = refl;
            starts = refl;
            chars = (refl, (ground arith, tt));
            few = omega arith;
          })
    | inr m ↦
        rw (n, m)
          (record {
            head = b'_';
            tail = [];
            shape = refl;
            starts = refl;
            chars = (refl, tt);
            few = omega arith;
          })
  ]
]

id_loop-IsChars :
    (room : ℕ) (cs r : Bytes) → id_loop room cs ≡ ret r → IsChars r × (length r ≤ room)
unfolding id_loop
id_loop-IsChars room [] r h =
    let same : ◌≡◌ {A = Bytes} [] r = cc h in
    subst (λ z. IsChars z × (length z ≤ room)) same (tt, omega arith)
id_loop-IsChars zero (c ∷ cs) r h = cc h
id_loop-IsChars (suc room) (c ∷ cs) r h =
    let (rest, e, f) =
      >>=-eq-ret {B = Bytes} (id_loop room cs) (λ rest. ret (id_byte c ∷ rest)) h in
    let same : id_byte c ∷ rest ≡ r = cc f in
    let (chars, few) = id_loop-IsChars room cs rest e in
    subst (λ z. IsChars z × (length z ≤ suc room)) same ((id_byte-char c, chars), omega arith)

Starts-append :
    (a b : Bytes)
    → Starts a
    → IsChars b
    → length b ≤ 15 - length a
    → IsKey (a ++ b) × (length (a ++ b) < ifnamsiz)
Starts-append a b s chars few =
    let all_chars : IsChars (a ++ b) = All-append _ a b s.chars chars in
    let short : length (a ++ b) < ifnamsiz = rw (length-append a b) (omega (arith, few, s.few)) in
    let whole : a ++ b ≡ s.head ∷ (s.tail ++ b) = ap (λ z. z ++ b) s.shape in
    (
      subst IsKey (sym whole) (
        s.starts,
        subst IsChars whole all_chars,
        omega (arith, subst (λ z. length z < ifnamsiz) whole short),
      ),
      short,
    )

-- The name that an id is made of.
abbrev pub named_by : DesiredState → Bytes
named_by ds = if is_empty ds.br_name then ds.scenario else ds.br_name

-- The id that a desired state is written under is a key that `parse_path` takes: it starts with a letter
-- or `_`, has letters, digits and `_` only, and at most 15 bytes.
pub cfg_state_id-IsKey :
    (ds : DesiredState) (idx c : ℕ) (cs id : Bytes)
    → named_by ds ≡ c ∷ cs
    → cfg_state_id ds idx ≡ ret id
    → IsKey id × (length id < ifnamsiz)
unfolding cfg_state_id
cfg_state_id-IsKey ds idx c cs id name h =
    let (rest, e, f) =
      >>=-eq-ret {B = Bytes} (id_loop (15 - length (id_first c)) cs)
        (λ rest. ret (id_first c ++ rest)) (rw (name, cfg_state_id) at h) in
    let same : id_first c ++ rest ≡ id = cc f in
    let (chars, few) = id_loop-IsChars (15 - length (id_first c)) cs rest e in
    subst (λ z. IsKey z × (length z < ifnamsiz)) same
      (Starts-append (id_first c) rest (id_first-Starts c) chars few)
