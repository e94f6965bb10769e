-- ===== src/Evm/Word.antt =====
-- The 256-bit words of the interpreter: libdevcore/Common.h (u2s, s2u), and the expressions that
-- libevm/LegacyVM.cpp and libevm/LegacyVMOpt.cpp compute on stack items. A u256 is a number below
-- 2 ^ 256, and each operation that can leave the range is written with its wrap-around.
pub mod Bits
pub mod Power
pub mod Shift
pub mod Extend
use mathlib.Core.WellFounded.{Acc}
use mathlib.Core.Logic.{dite}
use cpp_aec.Base.{
  ℕ, suc, ◌+◌, ◌-◌, ◌*◌, ◌/◌, ◌%◌, ◌^◌, ◌<◌, bit_and, bit_or, Bool, arith, ltb, ◌==◌, if◌then◌else◌,
  dec_lt,
}
use cpp_aec.Base.Int.{ℤ, pos, negsuc, neg, ltb_ℤ, div_ℤ, mod_ℤ}
use cpp_aec.Base.Order.{lt_wf}

abbrev pub u256_mod : ℕ
u256_mod = 2 ^ 256

abbrev pub u64_mod : ℕ
u64_mod = 2 ^ 64

abbrev pub IsU256 : ℕ → Type 0
IsU256 x = x < u256_mod

-- boost's bit_test.
abbrev pub bit_test : ℕ → ℕ → Bool
bit_test x i = x / 2 ^ i % 2 == 1

-- u2s: the two's complement reading of a word.
unfoldable pub u2s : ℕ → ℤ
u2s u = if bit_test u 255 then neg (u256_mod - u) else pos u

-- s2u: the word that stands for a signed number.
unfoldable pub s2u : ℤ → ℕ
s2u (pos n) = n % u256_mod
s2u (negsuc n) = (u256_mod - suc n) % u256_mod

-- divWorkaround and modWorkaround at u256.
unfoldable pub div : ℕ → ℕ → ℕ
div a b = if b == 0 then 0 else a / b

unfoldable pub mod_u : ℕ → ℕ → ℕ
mod_u a b = if b == 0 then 0 else a % b

-- The same at s256.
unfoldable pub sdiv : ℕ → ℕ → ℕ
unfolding s2u u2s
sdiv a b = if b == 0 then 0 else s2u (div_ℤ (u2s a) (u2s b))

unfoldable pub smod : ℕ → ℕ → ℕ
unfolding s2u u2s
smod a b = if b == 0 then 0 else s2u (mod_ℤ (u2s a) (u2s b))

abbrev pub of_bool : Bool → ℕ
of_bool b = if b then 1 else 0

unfoldable pub slt : ℕ → ℕ → ℕ
unfolding u2s
slt a b = of_bool (ltb_ℤ (u2s a) (u2s b))

-- case BYTE: the byte `i` of `x`, counted from the most significant.
unfoldable pub byte : ℕ → ℕ → ℕ
byte i x = if ltb i 32 then bit_and (x / 2 ^ (8 * (31 - i))) 0xff else 0

-- cases SHL and SHR.
unfoldable pub shl : ℕ → ℕ → ℕ
shl n x = if ltb n 256 then x * 2 ^ n % u256_mod else 0

unfoldable pub shr : ℕ → ℕ → ℕ
shr n x = if ltb n 256 then x / 2 ^ n else 0

abbrev pub allbits : ℕ
allbits = u256_mod - 1

-- `shiftee & hibit` tests bit 255.
unfoldable pub sar : ℕ → ℕ → ℕ
sar n x =
    let hibit = bit_test x 255 in
    if ltb n 256
    then (if hibit then bit_or (x / 2 ^ n) (allbits * 2 ^ (256 - n) % u256_mod) else x / 2 ^ n)
    else (if hibit then allbits else 0)

unfoldable pub addmod : ℕ → ℕ → ℕ → ℕ
addmod a b m = if m == 0 then 0 else (a + b) % m

unfoldable pub mulmod : ℕ → ℕ → ℕ → ℕ
mulmod a b m = if m == 0 then 0 else a * b % m

-- case SIGNEXTEND: what becomes of the word `number`.
unfoldable pub signextend : ℕ → ℕ → ℕ
signextend k number =
    if ltb k 31
    then (let test_bit = k * 8 + 7 in
        let mask = 2 ^ test_bit - 1 in
        if bit_test number test_bit then bit_or number (allbits - mask) else bit_and number mask)
    else number

-- The loop of exp256, by recursion on the exponent that is left.
exp_loop : (result base exponent : ℕ) → Acc ◌<◌ exponent → ℕ
exp_loop result base exponent (Acc.intro _ smaller) =
    dite (dec_lt 0 exponent)
      (λ h.
        exp_loop (if bit_and (exponent % u64_mod) 1 == 1 then result * base % u256_mod else result)
          (base * base % u256_mod) (exponent / 2) (smaller (exponent / 2) (omega arith)))
      (λ _. result)

unfoldable pub exp256 : ℕ → ℕ → ℕ
unfolding exp_loop lt_wf dec_lt
exp256 base exponent = exp_loop 1 base exponent (lt_wf.apply exponent)
