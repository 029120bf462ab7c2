-- ===== src/Prelude/Results.antt =====
-- Functions that return 0 or a negative errno: `ret` carries what the out-parameters receive.
use mathlib.Core.Path.{◌≡◌, refl, subst}
use mathlib.Core.Logic.{◌⊎◌, inl, inr}
use netrec.Prelude.Int.{ℤ}

pub data Errno : Type 0 where
  einval e2big enoent enotdir eisdir enospc eio eopnotsupp erange eagain : Errno
  -- a number that another program gave, handed on as it is
  given : ℤ → Errno

pub data Result {ℓ} (A : Type ℓ) : Type ℓ where
  ret : A → Result A
  err : Errno → Result A

-- `if (rc) return rc;`
infixl 5 ◌>>=◌ ◌>>◌
abbrev pub ◌>>=◌ {ℓ κ} : {A : Type ℓ} {B : Type κ} → Result A → (A → Result B) → Result B
ret a >>= f = f a
err e >>= f = err e

abbrev pub ◌>>◌ {ℓ κ} : {A : Type ℓ} {B : Type κ} → Result A → Result B → Result B
m >> k = m >>= λ _. k

-- Inversion of a successful bind, for proofs where the parts stay shut.
pub >>=-eq-ret {ℓ κ} :
    {A : Type ℓ} {B : Type κ} (m : Result A) (f : A → Result B) {b : B}
    → (m >>= f) ≡ ret b
    → (a : A) × (m ≡ ret a) × (f a ≡ ret b)
>>=-eq-ret (ret a) f h = (a, refl, h)
>>=-eq-ret (err e) f h = cc

pub Result-cases {ℓ} :
    {A : Type ℓ} (r : Result A) → ((e : Errno) × (r ≡ err e)) ⊎ ((a : A) × (r ≡ ret a))
Result-cases (ret a) = inr (a, refl)
Result-cases (err e) = inl (e, refl)

-- A result, if it is one, has a property.
abbrev pub Holds {ℓ} : {A : Type ℓ} → (A → Type 0) → Result A → Type 0
Holds P (ret a) = P a
Holds P (err e) = Unit

pub Holds-ret {ℓ} :
    {A : Type ℓ} (P : A → Type 0) (m : Result A) {a : A} → Holds P m → m ≡ ret a → P a
Holds-ret P (ret b) h e = let same : b ≡ _ = cc e in subst P same h
Holds-ret P (err x) h e = cc e

-- A bind whose first part says nothing of the property.
pub Holds-skip {ℓ κ} :
    {A : Type ℓ} {B : Type κ} (P : B → Type 0) (m : Result A) (f : A → Result B)
    → ((a : A) → Holds P (f a))
    → Holds P (m >>= f)
Holds-skip P (ret a) f h = h a
Holds-skip P (err e) f h = tt

-- A bind whose second part keeps the property of what the first gives.
pub Holds-keeps {ℓ} :
    {A : Type ℓ} (P : A → Type 0) (m : Result A) (f : A → Result A)
    → ((a : A) → P a → Holds P (f a))
    → Holds P m
    → Holds P (m >>= f)
Holds-keeps P (ret a) f k h = k a h
Holds-keeps P (err e) f k h = tt
