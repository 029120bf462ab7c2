-- ===== src/Verify/Calls.antt =====
-- What a check of verify.c does: it returns an `int`, and on the way it calls `ok`, `miss` and
-- `act`. A check never reads the context that it hands to `act`, so it is modelled by its result
-- and its calls in order. `Verify/Exec.antt` says what the calls do, one after the other.
use netrec.Prelude.{ℕ, List, [], ◌∷◌, ◌++◌, Bytes}

pub data Call : Type 0 where
  ok miss act : Bytes → Call

abbrev pub Check {ℓ} : Type ℓ → Type ℓ
Check A = A × List Call

infixl 5 ◌>>=◌ ◌>>◌
abbrev pub ◌>>=◌ {ℓ κ} : {A : Type ℓ} {B : Type κ} → Check A → (A → Check B) → Check B
m >>= f = let (b, later) = f m.0 in (b, m.1 ++ later)

abbrev pub ◌>>◌ {ℓ κ} : {A : Type ℓ} {B : Type κ} → Check A → Check B → Check B
m >> k = m >>= λ _. k

abbrev pub pure {ℓ} : {A : Type ℓ} → A → Check A
pure a = (a, [])

-- ok(fmt, ...) returns 0
abbrev pub say_ok : Bytes → Check ℕ
say_ok s = (0, ok s ∷ [])

-- miss(fmt, ...) returns 1
abbrev pub say_miss : Bytes → Check ℕ
say_miss s = (1, miss s ∷ [])

-- act(ctx, fmt, ...)
abbrev pub do_act : Bytes → Check (Unit {0})
do_act s = (tt, act s ∷ [])
