-- ===== src/Prelude/Integers.antt =====
-- The integers over the natural numbers that the tactics read.
use Prim.Native.Nat.{ℕ}

-- A number, or the negative of the successor of one.
pub data ℤ : Type 0 where
  pos : ℕ → ℤ
  negsuc : ℕ → ℤ
