-- ===== src/Base/Int.antt =====
-- Signed integers over the native numbers, for `i32` fields. `negsuc n` is -(n + 1).
use Prim.Native.Nat.{ℕ}

pub data ℤ : Type 0 where
  pos : ℕ → ℤ
  negsuc : ℕ → ℤ
