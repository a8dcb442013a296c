-- ===== src/Prelude/Results.antt =====
-- Go's pairs of a value and an error: the value is read only where the error is nil.
pub data Result {ℓ} (E A : Type ℓ) : Type ℓ where
  ok : A → Result E A
  err : E → Result E A
