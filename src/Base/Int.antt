-- ===== src/Base/Int.antt =====
-- Signed integers over the native numbers, with C's division, which rounds towards zero.
use Prim.Native.Nat.{ℕ, zero, suc, ◌/◌, ◌%◌}
use mathlib.Core.Bool.{Bool, true, false}
use oracle_fdw.Base.Tests.{◌==◌, if◌then◌else◌}

-- `negsuc n` is -(n + 1).
pub data ℤ : Type 0 where
  pos : ℕ → ℤ
  negsuc : ℕ → ℤ

abbrev pub neg : ℕ → ℤ
neg zero = pos zero
neg (suc n) = negsuc n

-- The magnitude, and whether the number is below, or above, zero.
abbrev pub abs : ℤ → ℕ
abs (pos n) = n
abs (negsuc n) = suc n

abbrev pub is_neg : ℤ → Bool
is_neg (pos n) = false
is_neg (negsuc n) = true

abbrev pub is_pos : ℤ → Bool
is_pos (pos n) = if n == 0 then false else true
is_pos (negsuc n) = false

-- With the sign of the first number.
abbrev pub with_sign : ℤ → ℕ → ℤ
with_sign (pos n) m = pos m
with_sign (negsuc n) m = neg m

-- a / n and a % n
abbrev pub tdiv : ℤ → ℕ → ℤ
tdiv a n = with_sign a (abs a / n)

abbrev pub tmod : ℤ → ℕ → ℤ
tmod a n = with_sign a (abs a % n)
