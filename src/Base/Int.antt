-- ===== src/Base/Int.antt =====
-- Signed integers over the native numbers, under the library's names, with the division of C++.
use Prim.Native.Nat.{ℕ, zero, suc, ◌+◌, ◌/◌, ◌%◌}
use mathlib.Core.Bool.{Bool}
use cpp_aec.Base.Tests.{ltb}

-- `negsuc n` is -(n + 1).
pub data ℤ : Type 0 where
  pos : ℕ → ℤ
  negsuc : ℕ → ℤ

abbrev pub pos_part : ℤ → ℕ
pos_part (pos n) = n
pos_part (negsuc n) = 0

abbrev pub neg_part : ℤ → ℕ
neg_part (pos n) = 0
neg_part (negsuc n) = suc n

abbrev pub neg : ℕ → ℤ
neg zero = pos zero
neg (suc n) = negsuc n

abbrev pub ltb_ℤ : ℤ → ℤ → Bool
ltb_ℤ a b = ltb (pos_part a + neg_part b) (pos_part b + neg_part a)

-- `/` and `%` round towards zero; the remainder has the sign of the dividend.
abbrev pub div_ℤ : ℤ → ℤ → ℤ
div_ℤ (pos a) (pos b) = pos (a / b)
div_ℤ (pos a) (negsuc b) = neg (a / suc b)
div_ℤ (negsuc a) (pos b) = neg (suc a / b)
div_ℤ (negsuc a) (negsuc b) = pos (suc a / suc b)

abbrev pub mod_ℤ : ℤ → ℤ → ℤ
mod_ℤ (pos a) (pos b) = pos (a % b)
mod_ℤ (pos a) (negsuc b) = pos (a % suc b)
mod_ℤ (negsuc a) (pos b) = neg (suc a % b)
mod_ℤ (negsuc a) (negsuc b) = neg (suc a % suc b)
