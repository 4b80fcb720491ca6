-- ===== src/Prelude/Int.antt =====
-- Signed numbers over the native ℕ.
use authentik_operator.Prelude.{ℕ}

-- `negsuc n` is -(n + 1).
pub data ℤ : Type 0 where
  pos : ℕ → ℤ
  negsuc : ℕ → ℤ
