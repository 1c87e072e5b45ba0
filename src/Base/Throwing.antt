-- ===== src/Base/Throwing.antt =====
-- A computation that may throw: the error that was thrown, or a value.
use mathlib.Core.Bool.{Bool, true, false}

pub data Result {κ ℓ} (E : Type κ) (A : Type ℓ) : Type (κ ⊔ ℓ) where
  err : E → Result E A
  ok : A → Result E A

-- `if (!test) throw error`
abbrev pub require {κ} : {E : Type κ} → Bool → E → Result E (Unit {0})
require test error = elim test [ true ↦ ok tt | false ↦ err error ]

infixl 5 ◌>>=◌ ◌>>◌
-- What follows a throw is not run.
abbrev pub ◌>>=◌ {κ ℓ μ} :
    {E : Type κ} {A : Type ℓ} {B : Type μ} → Result E A → (A → Result E B) → Result E B
err error >>= rest = err error
ok value >>= rest = rest value

abbrev pub ◌>>◌ {κ μ} : {E : Type κ} {B : Type μ} → Result E (Unit {0}) → Result E B → Result E B
check >> rest = check >>= λ done. rest
