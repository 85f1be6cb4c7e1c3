-- ===== src/Base/Outcome.antt =====
-- What a call of C++ code comes to: it returns, it does what the language leaves undefined (an access
-- outside a block of memory, a signed sum out of range, a failed assertion), or its loop had not ended
-- when the fuel of the model ran out.
use mathlib.Core.Bool.{Bool, true, false}

pub data Outcome {ℓ} (A : Type ℓ) : Type ℓ where
  done : A → Outcome A
  fault stuck : Outcome A

infixl 5 ◌>>=◌ ◌>>◌
abbrev pub ◌>>=◌ {ℓ κ} : {A : Type ℓ} {B : Type κ} → Outcome A → (A → Outcome B) → Outcome B
done a >>= f = f a
fault >>= f = fault
stuck >>= f = stuck

abbrev pub ◌>>◌ {ℓ} : {B : Type ℓ} → Outcome (Unit {0}) → Outcome B → Outcome B
m >> k = m >>= λ _. k

-- The code relies on the test: where it fails, the behaviour is undefined.
abbrev pub require : Bool → Outcome (Unit {0})
require true = done tt
require false = fault
