-- ===== src/Prelude/Outcome.antt =====
-- Go's `(value, error)` pair as one value.
pub data Result {ℓ} (E : Type 0) (A : Type ℓ) : Type ℓ where
  ok : A → Result E A
  err : E → Result E A
