-- ===== src/Prelude/Int.antt =====
-- Python's signed numbers over the native numbers, as far as the program compares them.
use Prim.Native.Nat.{ℕ}
use mathlib.Core.Bool.{Bool, true}
use mdmfleetmanagement.Prelude.Tests.{ltb}

-- `negsuc n` is -(n + 1).
pub data ℤ : Type 0 where
  pos : ℕ → ℤ
  negsuc : ℕ → ℤ

-- `i < n` for a limit n of zero or more.
abbrev pub ltb_ℤ : ℤ → ℕ → Bool
ltb_ℤ (pos i) n = ltb i n
ltb_ℤ (negsuc i) n = true
