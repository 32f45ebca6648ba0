-- ===== src/Base/Int.antt =====
-- int64 values that may be negative, such as a `time.Duration`.
use Prim.Native.Nat.{ℕ}
use mathlib.Core.Bool.{Bool, false}
use kvsynk8s.Base.Tests.{ltb}

-- `negsuc n` is -(n + 1).
pub data ℤ : Type 0 where
  pos : ℕ → ℤ
  negsuc : ℕ → ℤ

-- `d > 0`
abbrev pub positive : ℤ → Bool
positive (pos n) = ltb 0 n
positive (negsuc n) = false
