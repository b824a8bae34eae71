-- ===== src/Base/Results.antt =====
-- A Go result: an error, or a value.
pub data Result {ℓ κ} (E : Type ℓ) (A : Type κ) : Type (ℓ ⊔ κ) where
  failed : E → Result E A
  gave : A → Result E A
