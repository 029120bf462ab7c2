-- ===== src/Netlink/Encode.antt =====
-- netlink.c: attributes as the kernel lays them out, and what `parse_rtattr` makes of them.
use netrec.Prelude.{
  ℕ, zero, suc, ◌+◌, ◌-◌, ◌%◌, ◌^◌, ◌≤◌, ◌<◌, ◌≡◌, refl, sym, ◌∙◌, ap, inl, inr, Bool-cases,
  Option-cases, true, Option, none, some, List, [], ◌∷◌, ◌++◌, append_assoc, arith, Bytes, length,
  length-append, take, All, leb, ◌==◌, if◌then◌else◌,
}
use netrec.Netlink.Attr.{
  drop, u16, align4, put16, Rtattr, payload, Table, no_attrs, rta_ok, put_attr, attr_loop,
  parse_rtattr,
}
use netrec.Netlink.Unroll.{attr_loop-unroll}

-- An attribute: the number of its type, flags included, and its payload.
pub record Attr : Type 0 where
  pub number : ℕ
  pub body : Bytes

abbrev pub zeros : ℕ → Bytes
zeros zero = []
zeros (suc n) = 0 ∷ zeros n

-- Length, type, payload, and zeros up to a multiple of four bytes.
abbrev pub encode_attr : Attr → Bytes
encode_attr a =
    put16 (4 + length a.body)
    ++ put16 a.number
    ++ a.body
    ++ zeros (align4 (length a.body) - length a.body)

abbrev pub encode_attrs : List Attr → Bytes
encode_attrs [] = []
encode_attrs (a ∷ xs) = encode_attr a ++ encode_attrs xs

-- Both numbers fit into 16 bits.
abbrev pub IsAttr : Attr → Type 0
IsAttr a = (4 + length a.body < 65536) × (a.number < 65536)

-- The payload of the last attribute of a type.
abbrev pub last_of : ℕ → List Attr → Option Bytes
last_of t [] = none
last_of t (a ∷ xs) = elim (last_of t xs) [
  | some b ↦ some b
  | none ↦ if t == a.number % 2 ^ 14 then some a.body else none
]

-- What the code reads of an attribute.
abbrev pub read_attr : Option Rtattr → Option Bytes
read_attr none = none
read_attr (some a) = some (take (payload a) a.content)

drop-append : (n : ℕ) (xs ys : Bytes) → n ≡ length xs → drop n (xs ++ ys) ≡ ys
drop-append zero [] ys h = refl
drop-append (suc n) [] ys h = absurd (omega arith)
drop-append zero (x ∷ xs) ys h = absurd (omega arith)
drop-append (suc n) (x ∷ xs) ys h = drop-append n xs ys (omega arith)

take-append : (n : ℕ) (xs ys : Bytes) → n ≡ length xs → take n (xs ++ ys) ≡ xs
take-append zero [] ys h = refl
take-append (suc n) [] ys h = absurd (omega arith)
take-append zero (x ∷ xs) ys h = absurd (omega arith)
take-append (suc n) (x ∷ xs) ys h = ap (λ r. x ∷ r) (take-append n xs ys (omega arith))

length-zeros : (n : ℕ) → length (zeros n) ≡ n
length-zeros zero = refl
length-zeros (suc n) = rw (length-zeros n) refl

u16-put16 : (n : ℕ) (p : Bytes) → n < 65536 → u16 0 (put16 n ++ p) ≡ n
u16-put16 n p h = omega arith

length-encode_attr : (a : Attr) → length (encode_attr a) ≡ align4 (4 + length a.body)
length-encode_attr a =
    let pad = align4 (length a.body) - length a.body in
    rw (length-append a.body (zeros pad), length-zeros pad) (omega arith)

-- One round of the loop at an attribute: the length test passes, and behind it stands the rest.
attr_round :
    (a : Attr) (rest : Bytes) (room : ℕ)
    → IsAttr a
    → (rta_ok (length (encode_attr a) + room) (encode_attr a ++ rest) ≡ true)
      × (drop (align4 (u16 0 (encode_attr a ++ rest))) (encode_attr a ++ rest) ≡ rest)
      × (length (encode_attr a) + room - align4 (u16 0 (encode_attr a ++ rest)) ≡ room)
attr_round a rest room h =
    let size : u16 0 (encode_attr a ++ rest) ≡ 4 + length a.body = omega (arith, h) in
    let whole = length-encode_attr a in
    (
      rw (size, whole) (ground arith),
      rw size (drop-append _ (encode_attr a) rest (sym whole)),
      rw (size, whole) (omega arith),
    )

-- What a round leaves in the table under a type.
put_attr-read :
    (max t : ℕ) (tb : Table) (a : Attr) (rest : Bytes)
    → IsAttr a
    → t ≤ max
    → read_attr (put_attr max tb (encode_attr a ++ rest) t)
      ≡ (if t == a.number % 2 ^ 14 then some a.body else read_attr (tb t))
unfolding put_attr
put_attr-read max t tb a rest h k =
    let p = encode_attr a ++ rest in
    let pad = zeros (align4 (length a.body) - length a.body) in
    let size : u16 0 p ≡ 4 + length a.body = omega (arith, h) in
    let type : u16 2 p ≡ a.number = omega (arith, h) in
    elim (Bool-cases (t == a.number % 2 ^ 14)) [
      | inl y ↦
          let low : leb (a.number % 2 ^ 14) max ≡ true = ground arith in
          rw (put_attr, type, low, y, size)
            (ap some (
              ap (take (4 + length a.body - 4)) (append_assoc a.body pad rest)
              ∙ take-append (4 + length a.body - 4) a.body (pad ++ rest) (omega arith)))
      | inr n ↦ elim (Bool-cases (leb (a.number % 2 ^ 14) max)) [
        | inl low ↦ rw (put_attr, type, low, n) refl
        | inr high ↦ rw (put_attr, type, high, n) refl
      ]
    ]

attr_loop-round :
    (max : ℕ) (tb : Table) (len room : ℕ) (p q : Bytes)
    → rta_ok len p ≡ true
    → drop (align4 (u16 0 p)) p ≡ q
    → len - align4 (u16 0 p) ≡ room
    → attr_loop len max tb len p ≡ attr_loop room max (put_attr max tb p) room q
attr_loop-round max tb len room p q ok e f = attr_loop-unroll max tb len p ∙ rw (ok, e, f) refl

attr_loop-none : (max len : ℕ) (tb : Table) (p : Bytes) → len ≡ 0 → attr_loop len max tb len p ≡ tb
unfolding attr_loop
attr_loop-none max zero tb p h = refl
attr_loop-none max (suc n) tb p h = absurd (omega arith)

attr_loop-encode_attrs :
    (max t : ℕ) (tb : Table) (xs : List Attr) (more : Bytes)
    → All IsAttr xs
    → t ≤ max
    → read_attr (
        attr_loop
          (length (encode_attrs xs))
          max
          tb
          (length (encode_attrs xs))
          (encode_attrs xs ++ more)
          t)
      ≡ (elim (last_of t xs) [ some b ↦ some b | none ↦ read_attr (tb t) ])
attr_loop-encode_attrs max t tb [] more h k =
    ap (λ r. read_attr (r t)) (attr_loop-none max 0 tb more refl)
attr_loop-encode_attrs max t tb (a ∷ xs) more h k =
    let rest = encode_attrs xs ++ more in
    let room = length (encode_attrs xs) in
    let p = encode_attr a ++ rest in
    let loop = λ (n : ℕ) (q : Bytes). read_attr (attr_loop n max tb n q t) in
    let (ok, behind, left) = attr_round a rest room h.0 in
    ap (λ n. loop n (encode_attrs (a ∷ xs) ++ more))
      (length-append (encode_attr a) (encode_attrs xs))
    ∙ ap (loop (length (encode_attr a) + room))
        (append_assoc (encode_attr a) (encode_attrs xs) more)
    ∙ ap (λ r. read_attr (r t))
        (attr_loop-round max tb (length (encode_attr a) + room) room p rest ok behind left)
    ∙ attr_loop-encode_attrs max t (put_attr max tb p) xs more h.1 k
    ∙ (elim (Option-cases (last_of t xs)) [
      | inl e ↦
          rw (e, put_attr-read max t tb a rest h.0 k)
            (elim (Bool-cases (t == a.number % 2 ^ 14)) [ inl y ↦ rw y refl | inr n ↦ rw n refl ])
      | inr (b, e) ↦ rw e refl
    ])

-- Attributes that stand one after the other, each with its length, its type and its payload padded to
-- four bytes, are found again, whatever bytes follow: under a type up to the table's size stands the
-- last attribute with that type, flags left out, with exactly its payload; with none, nothing stands
-- there.
pub parse_rtattr-encode_attrs :
    (max t : ℕ) (xs : List Attr) (more : Bytes)
    → All IsAttr xs
    → t ≤ max
    → read_attr (parse_rtattr max (encode_attrs xs ++ more) (length (encode_attrs xs)) t)
      ≡ last_of t xs
unfolding parse_rtattr
parse_rtattr-encode_attrs max t xs more h k =
    attr_loop-encode_attrs max t no_attrs xs more h k
    ∙ (elim (Option-cases (last_of t xs)) [ inl e ↦ rw e refl | inr (b, e) ↦ rw e refl ])
