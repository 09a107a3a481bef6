-- ===== src/Prelude/Ints.antt =====
-- Python's integers as they come in from a caller, before a check has shown them non-negative.
use Prim.Native.Nat.{ℕ}

-- `negsuc n` is -(n + 1)
pub data ℤ : Type 0 where
  pos : ℕ → ℤ
  negsuc : ℕ → ℤ
