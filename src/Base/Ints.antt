-- ===== src/Base/Ints.antt =====
-- Go's int and int64, of 64 bits.
use Prim.Native.Nat.{◌<◌, ◌%◌, ℕ}
use mathlib.Core.Path.{◌≡◌}
use native.Mathlib.Omega.{arith}
use goravel_authkit.Base.Tests.{if◌then◌else◌, ltb}

-- `negsuc n` is -(n + 1)
pub data ℤ : Type 0 where
  pos : ℕ → ℤ
  negsuc : ℕ → ℤ

-- An int64 of this bit pattern. A negative number reads as 0: whatever uses one of these durations
-- takes its default for both, and an offset below 0 skips no rows.
unfoldable pub int64 : ℕ → ℕ
int64 n =
    if ltb (n % 18_446_744_073_709_551_616) 9_223_372_036_854_775_808
    then n % 18_446_744_073_709_551_616
    else 0

pub int64-fits : (n : ℕ) → n < 9_223_372_036_854_775_808 → int64 n ≡ n
unfolding int64
int64-fits n h = ground arith
