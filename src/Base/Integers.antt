-- ===== src/Base/Integers.antt =====
-- The numbers of Go that can be negative, such as an `int` index.
use Prim.Native.Nat.{ℕ}

pub data ℤ : Type 0 where
  pos : ℕ → ℤ
  negsuc : ℕ → ℤ
