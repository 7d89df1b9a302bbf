-- ===== src/Base/Int.antt =====
-- A `long`, with the tests that the program makes of one.
use soa_p1_grupo_cu.Base.Tests.{ltb, uint32_max}
use Prim.Native.Nat.{ℕ, zero, suc}
use mathlib.Core.Bool.{Bool, true, false}

-- `negsuc n` is -(n + 1).
pub data ℤ : Type 0 where
  pos : ℕ → ℤ
  negsuc : ℕ → ℤ

-- a <= 0
abbrev pub not_positive : ℤ → Bool
not_positive (pos zero) = true
not_positive (pos (suc n)) = false
not_positive (negsuc n) = true

-- a > UINT32_MAX
abbrev pub too_large : ℤ → Bool
too_large (pos n) = ltb uint32_max n
too_large (negsuc n) = false

-- The cast to `uint32_t` of a number in its range.
abbrev pub to_u32 : ℤ → ℕ
to_u32 (pos n) = n
to_u32 (negsuc n) = 0
