-- ===== src/Base/Result.antt =====
-- Go's `(value, error)` results.
use mathlib.Core.Path.{◌≡◌, refl}
use mathlib.Core.Bool.{Bool, true, false}

pub data Result {ℓ} (E : Type 0) (A : Type ℓ) : Type ℓ where
  ok : A → Result E A
  err : E → Result E A

infixl 5 ◌>>=◌ ◌>>◌
abbrev pub ◌>>=◌ {ℓ κ} :
    {E : Type 0} {A : Type ℓ} {B : Type κ} → Result E A → (A → Result E B) → Result E B
ok a >>= f = f a
err e >>= f = err e

abbrev pub ◌>>◌ {ℓ} : {E : Type 0} {B : Type ℓ} → Result E (Unit {0}) → Result E B → Result E B
m >> k = m >>= λ _. k

-- `if bad { return e }`
abbrev pub reject : {E : Type 0} → Bool → E → Result E (Unit {0})
reject true e = err e
reject false e = ok tt

-- A chain succeeds only through a value of its first part.
pub >>=_succeeds {ℓ κ} :
    {E : Type 0} {V : Type ℓ} {W : Type κ} (first : Result E V) (rest : V → Result E W) {w : W}
    → (first >>= rest) ≡ ok w
    → (v : V) × (rest v ≡ ok w) × (first ≡ ok v)
>>=_succeeds (err problem) rest succeeded = cc
>>=_succeeds (ok v) rest succeeded = (v, succeeded, refl)

pub ok-injective {ℓ} :
    {E : Type 0} {A : Type ℓ} {a b : A} → ◌≡◌ {A = Result E A} (ok a) (ok b) → a ≡ b
ok-injective h = cc
