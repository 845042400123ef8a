-- ===== src/Prelude/Int.antt =====
-- Python's integers, where a counter may fall below zero. `negsuc n` is -(n + 1).
use Prim.Native.Nat.{ℕ, zero, suc}
use mathlib.Core.Bool.{Bool, true, false}

pub data ℤ : Type 0 where
  pos : ℕ → ℤ
  negsuc : ℕ → ℤ

-- `n - 1`
unfoldable pub pred_int : ℤ → ℤ
pred_int (pos zero) = negsuc zero
pred_int (pos (suc n)) = pos n
pred_int (negsuc n) = negsuc (suc n)

-- `n > 0`
unfoldable pub is_positive : ℤ → Bool
is_positive (pos zero) = false
is_positive (pos (suc n)) = true
is_positive (negsuc n) = false
