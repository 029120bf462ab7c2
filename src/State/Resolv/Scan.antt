-- ===== src/State/Resolv/Scan.antt =====
-- What `fgets` and `sscanf` read from a line of words between white space, for `rs_load_resolv_conf`.
use netrec.Prelude.{
  ℕ, zero, suc, ◌-◌, ◌≡◌, ◌≢◌, ◌≤◌, ◌<◌, refl, ap, ◌∙◌, inl, inr, Bool-cases, Option-cases, true,
  false, ◌||◌, Option, none, some, [], ◌∷◌, ◌++◌, Bytes, codes, streq, streq_iff, length, ◌==◌, leb,
  is_empty, if◌then◌else◌, arith, All,
}
use netrec.Prelude.Libc.{is_space, skip_space}
use netrec.State.Resolv.{fgets_loop, scan_bytes, scan_two, nameserver}

abbrev pub IsGap : Bytes → Type 0
IsGap cs = All (λ c. is_space c ≡ true) cs

abbrev pub IsWordOf : ℕ → Bytes → Type 0
IsWordOf n cs = (is_empty cs ≡ false) × All (λ c. is_space c ≡ false) cs × (length cs ≤ n)

-- `fgets` on a line that it reads at once.
pub fgets_loop-line :
    (room : ℕ) (l rest : Bytes)
    → All (λ c. (c == b'\n') ≡ false) l
    → length l < room
    → fgets_loop room (l ++ b'\n' ∷ rest) ≡ (l ++ b'\n' ∷ []) ∷ fgets_loop 255 rest
unfolding fgets_loop
fgets_loop-line room [] rest h k = refl
fgets_loop-line room (c ∷ l) rest (h, hs) k =
    let more : leb room 1 ≡ false = ground arith in
    rw (h, more, fgets_loop-line (room - 1) l rest hs (omega arith))

pub skip_space-gap : (g l : Bytes) → IsGap g → skip_space (g ++ l) ≡ skip_space l
skip_space-gap [] l h = refl
skip_space-gap (c ∷ g) l (h, hs) = rw (h, skip_space-gap g l hs)

skip_space-word : (w l : Bytes) (n : ℕ) → IsWordOf n w → skip_space (w ++ l) ≡ w ++ l
skip_space-word [] l n (h, _, _) = absurd (ground arith)
skip_space-word (c ∷ w) l n (_, (h, _), _) = rw h

-- A `%s` reads a word that white space ends.
scan_bytes-word :
    (n : ℕ) (w : Bytes) (s : ℕ) (rest : Bytes)
    → All (λ c. is_space c ≡ false) w
    → length w ≤ n
    → is_space s ≡ true
    → scan_bytes n (w ++ s ∷ rest) ≡ (w, s ∷ rest)
unfolding scan_bytes
scan_bytes-word zero [] s rest h k t = refl
scan_bytes-word zero (c ∷ w) s rest h k t = absurd (omega arith)
scan_bytes-word (suc n) [] s rest h k t = rw t
scan_bytes-word (suc n) (c ∷ w) s rest (h, hs) k t =
    rw (h, scan_bytes-word n w s rest hs (omega arith) t)

-- What `scan_two` does behind the first word.
abbrev pub second_word : Bytes × Bytes → Option (Bytes × Bytes)
second_word p =
    let v = (scan_bytes 63 (skip_space p.1)).0 in
    if is_empty p.0 || is_empty v then none else some (p.0, v)

pub scan_two-second_word :
    (line : Bytes) → scan_two line ≡ second_word (scan_bytes 31 (skip_space line))
unfolding scan_two
scan_two-second_word line = refl

pub scan_two-key :
    (before key : Bytes) (s : ℕ) (rest : Bytes)
    → IsGap before
    → IsWordOf 31 key
    → is_space s ≡ true
    → scan_two (before ++ (key ++ s ∷ rest)) ≡ second_word (key, s ∷ rest)
scan_two-key before key s rest hb hk hs =
    scan_two-second_word (before ++ (key ++ s ∷ rest))
    ∙ ap (λ l. second_word (scan_bytes 31 l))
        (skip_space-gap before (key ++ s ∷ rest) hb ∙ skip_space-word key (s ∷ rest) 31 hk)
    ∙ ap second_word (scan_bytes-word 31 key s rest hk.1 hk.2 hs)

-- What `nameserver` does with the two words.
abbrev pub server_of : (Bytes → Option ℕ) → Option (Bytes × Bytes) → Option ℕ
server_of net none = none
server_of net (some (k, v)) = if streq k (codes "nameserver") then net v else none

pub nameserver-server_of :
    (net : Bytes → Option ℕ) (line : Bytes) → nameserver net line ≡ server_of net (scan_two line)
unfolding nameserver
nameserver-server_of net line = elim (Option-cases (scan_two line)) [
  | inl e ↦ rw (e, nameserver)
  | inr (kv, e) ↦ rw (e, nameserver)
]

pub server_of-other :
    (net : Bytes → Option ℕ) (key rest : Bytes)
    → key ≢ codes "nameserver"
    → server_of net (second_word (key, rest)) ≡ none
server_of-other net key rest differs =
    let no : streq key (codes "nameserver") ≡ false =
      elim (Bool-cases (streq key (codes "nameserver"))) [
        | inl y ↦ absurd (differs ((streq_iff key (codes "nameserver")).0 y))
        | inr n ↦ n
      ] in
    elim (Bool-cases (is_empty key || is_empty (scan_bytes 63 (skip_space rest)).0)) [
      | inl y ↦ rw y
      | inr n ↦ rw (n, no)
    ]

pub nameserver_key : IsWordOf 31 (codes "nameserver")
unfolding codes is_space
nameserver_key = (
  refl,
  (refl, (refl, (refl, (refl, (refl, (refl, (refl, (refl, (refl, (refl, tt)))))))))),
  omega arith,
)

-- The second word behind the white space.
pub second_word-addr :
    (g addr : Bytes) (s : ℕ) (rest : Bytes)
    → IsGap g
    → IsWordOf 63 addr
    → is_space s ≡ true
    → second_word (codes "nameserver", g ++ (addr ++ s ∷ rest)) ≡ some (codes "nameserver", addr)
unfolding codes
second_word-addr g addr s rest hg ha hs =
    let read : scan_bytes 63 (skip_space (g ++ (addr ++ s ∷ rest))) ≡ (addr, s ∷ rest) =
      ap (scan_bytes 63)
        (skip_space-gap g (addr ++ s ∷ rest) hg ∙ skip_space-word addr (s ∷ rest) 63 ha)
      ∙ scan_bytes-word 63 addr s rest ha.1 ha.2 hs in
    ap (λ p. if is_empty p.0 then none else some (codes "nameserver", p.0)) read ∙ rw ha.0
