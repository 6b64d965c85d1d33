-- ===== src/Prelude/Outcome.antt =====
-- The end of a loop that runs on fuel over memory that the source reads by pointers.

pub data Outcome {ℓ} (A : Type ℓ) : Type ℓ where
  done : A → Outcome A
  -- the source reads outside the buffer
  fault : Outcome A
  -- the loop has more rounds than the fuel
  no_fuel : Outcome A
