-- ===== src/Prelude/Int.antt =====
-- The integers over the native numbers, as `long long` of C++ takes them.
use Prim.Native.Nat.{ℕ}

pub data ℤ : Type 0 where
  pos : ℕ → ℤ
  negsuc : ℕ → ℤ
