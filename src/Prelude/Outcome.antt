-- ===== src/Prelude/Outcome.antt =====
-- What a call yields: a value, a failed `assert`, `std::length_error`, or an access of memory that is not
-- there: beyond the end of an array, or after its `delete`.
use mathlib.Core.Bool.{Bool, true, false}

pub data Fault : Type 0 where
  assertion_failed length_error out_of_bounds use_after_free : Fault

pub data Result {ℓ} (A : Type ℓ) : Type ℓ where
  ok : A → Result A
  fault : Fault → Result A

infixl 5 ◌>>=◌ ◌>>◌
abbrev pub ◌>>=◌ {ℓ κ} : {A : Type ℓ} {B : Type κ} → Result A → (A → Result B) → Result B
ok a >>= f = f a
fault e >>= f = fault e

abbrev pub ◌>>◌ {ℓ} : {B : Type ℓ} → Result (Unit {0}) → Result B → Result B
m >> k = m >>= λ _. k

-- `assert(b)`
abbrev pub check : Bool → Result (Unit {0})
check true = ok tt
check false = fault assertion_failed
