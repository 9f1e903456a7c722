-- ===== src/Base/Int.antt =====
-- Go's signed integers, for the values the code only carries or compares with 0.
use Prim.Native.Nat.{ℕ}

-- `negsuc n` is -(n + 1).
pub data ℤ : Type 0 where
  pos : ℕ → ℤ
  negsuc : ℕ → ℤ
