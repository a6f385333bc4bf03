-- ===== src/Prelude/Int.antt =====
-- The signed numbers of the source.
use Prim.Native.Nat.{ℕ}

pub data ℤ : Type 0 where
  pos negsuc : ℕ → ℤ
