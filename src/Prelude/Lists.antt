-- ===== src/Prelude/Lists.antt =====
-- Lists measured and indexed by native numbers, under the library's names.
use Prim.Native.Nat.{ℕ, zero, suc, ◌+◌, ◌≤◌}
use mathlib.Core.Path.{◌≡◌, refl, ap, subst}
use mathlib.Core.List.{List, [], ◌∷◌, ◌++◌}
use mathlib.Core.Option.{Option, none, some}
use mathlib.Core.Bool.{Bool, true, false}
use netrec.Prelude.Tests.{if◌then◌else◌, Bool-cases}
use mathlib.Core.Logic.{inl, inr}
use mathlib.Core.List.{Memᴰ}
use native.Mathlib.Omega.{arith}

module _ {ℓ} {A : Type ℓ} where
  abbrev pub length : List A → ℕ
  length [] = 0
  length (x ∷ xs) = suc (length xs)

  abbrev pub get_elem? : List A → ℕ → Option A
  get_elem? [] i = none
  get_elem? (x ∷ xs) zero = some x
  get_elem? (x ∷ xs) (suc i) = get_elem? xs i

  abbrev pub take : ℕ → List A → List A
  take zero xs = []
  take (suc n) [] = []
  take (suc n) (x ∷ xs) = x ∷ take n xs

  pub length-append : (xs ys : List A) → length (xs ++ ys) ≡ length xs + length ys
  length-append [] ys = omega arith
  length-append (x ∷ xs) ys = omega (arith, length-append xs ys)

  pub take-of_le : (n : ℕ) (xs : List A) → length xs ≤ n → take n xs ≡ xs
  take-of_le zero [] h = refl
  take-of_le zero (x ∷ xs) h = absurd (omega arith)
  take-of_le (suc n) [] h = refl
  take-of_le (suc n) (x ∷ xs) h = ground (arith, take-of_le n xs (omega arith))

  pub length-take : (n : ℕ) (xs : List A) → length (take n xs) ≤ n
  length-take zero xs = omega arith
  length-take (suc n) [] = omega arith
  length-take (suc n) (x ∷ xs) = omega (arith, length-take n xs)

-- The loops that look for an entry: whether one passes the test, and the first that does.
unfoldable pub any_of {ℓ} : {A : Type ℓ} → (A → Bool) → List A → Bool
any_of p [] = false
any_of p (x ∷ xs) = let rest = any_of p xs in if p x then true else rest

unfoldable pub find_first {ℓ} : {A : Type ℓ} → (A → Bool) → List A → Option A
find_first p [] = none
find_first p (x ∷ xs) = let rest = find_first p xs in if p x then some x else rest

-- `xs` splits at its first element that passes the test, which is `x`.
pub record FirstAt {ℓ} {A : Type ℓ} (p : A → Bool) (xs : List A) (x : A) : Type ℓ where
  pub before : List A
  pub after : List A
  pub splits : xs ≡ before ++ x ∷ after
  pub passes : p x ≡ true
  pub fail_before : any_of p before ≡ false

-- A predicate that holds of every element; it computes to a tuple.
abbrev pub All {ℓ κ} : {A : Type ℓ} → (A → Type κ) → List A → Type κ
All P [] = Unit
All P (x ∷ xs) = P x × All P xs

pub All-append {ℓ κ} :
    {A : Type ℓ} (P : A → Type κ) (xs ys : List A) → All P xs → All P ys → All P (xs ++ ys)
All-append P [] ys hx hy = hy
All-append P (x ∷ xs) ys hx hy = (hx.0, All-append P xs ys hx.1 hy)

module _ {ℓ} {A : Type ℓ} (p : A → Bool) where
  pub any_of-of_mem : {x : A} (xs : List A) → Memᴰ x xs → p x ≡ true → any_of p xs ≡ true
  unfolding any_of
  any_of-of_mem [] m h = elim m [ ]
  any_of-of_mem (y ∷ xs) (Memᴰ.head e) h = rw (← e, h)
  any_of-of_mem (y ∷ xs) (Memᴰ.tail m) h = elim (Bool-cases (p y)) [
    | inl e ↦ rw e
    | inr e ↦ rw e (any_of-of_mem xs m h)
  ]

  pub mem-of_any_of : (xs : List A) → any_of p xs ≡ true → (x : A) × Memᴰ x xs × (p x ≡ true)
  unfolding any_of
  mem-of_any_of [] h = cc
  mem-of_any_of (y ∷ xs) h = elim (Bool-cases (p y)) [
    | inl e ↦ (y, Memᴰ.head refl, e)
    | inr e ↦ let (x, m, t) = mem-of_any_of xs (rw e at h) in (x, Memᴰ.tail m, t)
  ]

  pub find_first-FirstAt : (xs : List A) {x : A} → find_first p xs ≡ some x → FirstAt p xs x
  unfolding find_first any_of
  find_first-FirstAt [] h = cc
  find_first-FirstAt (y ∷ xs) {x} h = elim (Bool-cases (p y)) [
    | inl e ↦
        let same : y ≡ x = cc (rw e at h) in
        record {
          before = [];
          after = xs;
          splits = ap (λ z. z ∷ xs) same;
          passes = subst (λ z. p z ≡ true) same e;
          fail_before = refl;
        }
    | inr e ↦
        let f = find_first-FirstAt xs (rw e at h) in
        record {
          before = y ∷ f.before;
          after = f.after;
          splits = ap (◌∷◌ y) f.splits;
          passes = f.passes;
          fail_before = rw e f.fail_before;
        }
  ]

  pub find_first-none : (xs : List A) → find_first p xs ≡ none → any_of p xs ≡ false
  unfolding find_first any_of
  find_first-none [] h = refl
  find_first-none (y ∷ xs) h = elim (Bool-cases (p y)) [
    | inl e ↦ ground arith
    | inr e ↦ rw e (find_first-none xs (rw e at h))
  ]
