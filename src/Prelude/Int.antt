-- ===== src/Prelude/Int.antt =====
-- A C++ `int` of 32 bits: what the wakelock counts use of it.
use Prim.Native.Nat.{ℕ, zero, suc, ◌^◌, ◌-◌}
use mathlib.Core.Bool.{Bool, true, false}
use media_hub.Prelude.Tests.{◌==◌, if◌then◌else◌}

-- `negsuc n` is -(n + 1).
pub data ℤ : Type 0 where
  pos : ℕ → ℤ
  negsuc : ℕ → ℤ

-- 2 ^ 31 - 1.
abbrev pub int_max : ℕ
int_max = 2 ^ 31 - 1

-- `++n`, atomically: the greatest number wraps to the least one.
abbrev pub increment : ℤ → ℤ
increment (pos n) = if n == int_max then negsuc int_max else pos (suc n)
increment (negsuc zero) = pos 0
increment (negsuc (suc n)) = negsuc n

-- `--n`, atomically.
abbrev pub decrement : ℤ → ℤ
decrement (pos zero) = negsuc 0
decrement (pos (suc n)) = pos n
decrement (negsuc n) = if n == int_max then pos int_max else negsuc (suc n)

-- `n > 0`.
abbrev pub is_positive : ℤ → Bool
is_positive (pos (suc n)) = true
is_positive _ = false

abbrev pub is_zero : ℤ → Bool
is_zero (pos zero) = true
is_zero _ = false

abbrev pub is_one : ℤ → Bool
is_one (pos (suc zero)) = true
is_one _ = false
