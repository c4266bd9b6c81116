-- ===== src/Prelude/Fallible.antt =====
-- How a call ends: with a value, with an error, or with a panic.
use mathlib.Core.Path.{◌≡◌, refl}
use mathlib.Core.Logic.{◌⊎◌, inl, inr}
use mathlib.Core.Bool.{Bool, true, false}
use mathlib.Core.Option.{Option, none, some}

pub data Outcome (E A : Type 0) : Type 0 where
  ok : A → Outcome E A
  err : E → Outcome E A
  panic : Outcome E A

-- `?`
infixl 5 ◌>>=◌ ◌>>◌
abbrev pub ◌>>=◌ : {E A B : Type 0} → Outcome E A → (A → Outcome E B) → Outcome E B
ok a >>= f = f a
err e >>= f = err e
panic >>= f = panic

abbrev pub ◌>>◌ : {E A B : Type 0} → Outcome E A → Outcome E B → Outcome E B
m >> k = m >>= λ _. k

-- `map_err`
abbrev pub map_err : {E F A : Type 0} → (E → F) → Outcome E A → Outcome F A
map_err f (ok a) = ok a
map_err f (err e) = err (f e)
map_err f panic = panic

-- `ok_or`
abbrev pub ok_or : {E A : Type 0} → E → Option A → Outcome E A
ok_or e none = err e
ok_or e (some a) = ok a

-- `assert!`
abbrev pub assert : {E : Type 0} → Bool → Outcome E (Unit {0})
assert true = ok tt
assert false = panic

-- `map`
abbrev pub map_ok : {E A B : Type 0} → (A → B) → Outcome E A → Outcome E B
map_ok f (ok a) = ok (f a)
map_ok f (err e) = err e
map_ok f panic = panic

-- To split on a computed outcome and keep the equation.
pub Outcome-cases :
    {E A : Type 0} (r : Outcome E A)
    → ((a : A) × (r ≡ ok a)) ⊎ ((e : E) × (r ≡ err e)) ⊎ (r ≡ panic)
Outcome-cases (ok a) = inl (a, refl)
Outcome-cases (err e) = inr (inl (e, refl))
Outcome-cases panic = inr (inr refl)
