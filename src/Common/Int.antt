-- ===== src/Common/Int.antt =====
-- Go's signed `int` and `time.Duration`: `negsuc n` is -(n + 1). They are only compared here.
use Prim.Native.Nat.{ℕ}
use mathlib.Core.Bool.{Bool, true}
use streamf.Common.Tests.{ltb}

pub data ℤ : Type 0 where
  pos : ℕ → ℤ
  negsuc : ℕ → ℤ

-- `z < n`, against a bound that is not negative.
abbrev pub ltz : ℤ → ℕ → Bool
ltz (pos m) n = ltb m n
ltz (negsuc m) n = true

-- The value, and 0 for a negative one.
abbrev pub pos_part : ℤ → ℕ
pos_part (pos m) = m
pos_part (negsuc m) = 0
