-- ===== src/Base/Ints.antt =====
-- Python's integers, as far as they are only compared.
use Prim.Native.Nat.{ℕ}
use mathlib.Core.Bool.{Bool, false}
use storage_testbench.Base.Tests.{◌==◌}

-- `negsuc n` is -(n + 1).
pub data ℤ : Type 0 where
  pos : ℕ → ℤ
  negsuc : ℕ → ℤ

-- i == n
abbrev pub int_eq : ℤ → ℕ → Bool
int_eq (pos m) n = m == n
int_eq (negsuc m) n = false
