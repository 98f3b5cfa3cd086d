-- ===== src/Common/Int.antt =====
-- Signed machine integers: `Price_t` is an `int64_t`. `negsuc n` is -(n + 1).
use Prim.Native.Nat.{ℕ}

pub data ℤ : Type 0 where
  pos : ℕ → ℤ
  negsuc : ℕ → ℤ
