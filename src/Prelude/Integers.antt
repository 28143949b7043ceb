-- ===== src/Prelude/Integers.antt =====
-- Go's `int` where it may be negative, over the native numbers; `negsuc n` is -(n + 1). Its width is
-- left out: the program does not count up to it.
use Prim.Native.Nat.{ℕ, suc, zero}
use mathlib.Core.Bool.{Bool, false, true}

pub data ℤ : Type 0 where
  pos : ℕ → ℤ
  negsuc : ℕ → ℤ

-- `i++`
abbrev pub increment : ℤ → ℤ
increment (pos n) = pos (suc n)
increment (negsuc zero) = pos zero
increment (negsuc (suc n)) = negsuc n

-- `i < 0`
abbrev pub is_negative : ℤ → Bool
is_negative (pos n) = false
is_negative (negsuc n) = true
