-- ===== src/Evm/Tests/Words.antt =====
-- The theorems about words and byte strings at concrete numbers.
use cpp_aec.Base.{◌^◌, ◌-◌, ◌%◌, ◌≡◌, arith}
use cpp_aec.Bytes.{from_big_endian, to_big_endian, from-to_big_endian}
use cpp_aec.Evm.Word.{u256_mod, exp256, sar, u2s, s2u, signextend}
use cpp_aec.Evm.Word.Power.{exp256-pow}
use cpp_aec.Evm.Word.Shift.{u2s-sar, floor_shift}
use cpp_aec.Evm.Word.Extend.{u2s-signextend, signed_low, s2u-u2s}

exp256-pow_example : exp256 3 200 ≡ 3 ^ 200 % u256_mod
exp256-pow_example = exp256-pow 3 200

u2s-sar_example : u2s (sar 1 (u256_mod - 3)) ≡ floor_shift (u2s (u256_mod - 3)) 1
u2s-sar_example = u2s-sar 1 (u256_mod - 3) (omega arith)

u2s-signextend_example : u2s (signextend 0 0xff) ≡ signed_low 7 0xff
u2s-signextend_example = u2s-signextend 0 0xff (omega arith)

s2u-u2s_example : s2u (u2s (u256_mod - 1)) ≡ u256_mod - 1
s2u-u2s_example = s2u-u2s (u256_mod - 1) (omega arith)

from-to_big_endian_example : from_big_endian (to_big_endian 2 0x12345) ≡ 0x12345 % 256 ^ 2
from-to_big_endian_example = from-to_big_endian 2 0x12345
