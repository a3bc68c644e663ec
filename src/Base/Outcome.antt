-- ===== src/Base/Outcome.antt =====
-- How a call ends: with a value, in an exception, in undefined behaviour, or, of the model alone,
-- out of fuel.

pub data Outcome {ℓ} (A : Type ℓ) : Type ℓ where
  ok : A → Outcome A
  throws : Outcome A
  undefined : Outcome A
  stuck : Outcome A

infixl 5 ◌>>=◌
abbrev pub ◌>>=◌ {ℓ κ} : {A : Type ℓ} {B : Type κ} → Outcome A → (A → Outcome B) → Outcome B
ok a >>= f = f a
throws >>= f = throws
undefined >>= f = undefined
stuck >>= f = stuck
