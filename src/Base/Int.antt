-- ===== src/Base/Int.antt =====
-- Signed integers: `negsuc n` is -(n + 1).
use Prim.Native.Nat.{ℕ, ◌^◌}
use elftoolchain_libelf.Base.Tests.{ltb}
use mathlib.Core.Bool.{Bool}

pub data ℤ : Type 0 where
  pos : ℕ → ℤ
  negsuc : ℕ → ℤ

-- INT32_MIN ≤ x ≤ INT32_MAX
abbrev pub fits_s32 : ℤ → Bool
fits_s32 (pos n) = ltb n (2 ^ 31)
fits_s32 (negsuc n) = ltb n (2 ^ 31)
