-- ===== src/Evm/Case/Arithmetic.antt =====
-- libevm/LegacyVM.cpp: the cases that compute on words.
use cpp_aec.Base.{
  ℕ, zero, suc, ◌+◌, ◌-◌, ◌*◌, ◌/◌, ◌%◌, bit_and, bit_or, bit_xor, List, [], ◌∷◌, ltb, ◌==◌,
  if◌then◌else◌,
}
use cpp_aec.Bytes.{to_big_endian}
use cpp_aec.Evm.Word.{
  u256_mod, allbits, bit_test, of_bool, div, mod_u, sdiv, smod, slt, byte, shl, shr, sar, addmod,
  mulmod, signextend, exp256,
}
use cpp_aec.Evm.Machine.{ExtVmFace, M, Ctl, next, ◌>>=◌, ◌>>◌, pure, get, modify, skip, branch}
use cpp_aec.Evm.Gas.{sp_at, set_sp, set_run_gas, to_int63, update_io_gas}
use cpp_aec.Evm.Case.{simple, require}

-- FixedHash::firstBitSet of libdevcore/FixedHash.h: the zero bits before the first one.
unfoldable pub leading : (fuel d ret : ℕ) → ℕ
leading zero d ret = ret
leading (suc fuel) d ret =
    let rest = leading fuel (d * 2 % 256) (ret + 1) in if bit_test d 7 then ret else rest

unfoldable pub first_bit_loop : List ℕ → ℕ → ℕ
first_bit_loop [] ret = ret
first_bit_loop (d ∷ ds) ret =
    let rest = first_bit_loop ds (ret + 8) in if d == 0 then rest else leading 8 d ret

unfoldable pub first_bit_set : List ℕ → ℕ
unfolding first_bit_loop leading
first_bit_set h = first_bit_loop h 0

module _ {W : Type 0} where
  abbrev unary : (ℕ → ℕ) → M W Ctl
  unary f = simple (λ s. f (sp_at s 0))

  abbrev binary : (ℕ → ℕ → ℕ) → M W Ctl
  binary f = simple (λ s. f (sp_at s 0) (sp_at s 1))

  abbrev ternary : (ℕ → ℕ → ℕ → ℕ) → M W Ctl
  ternary f = simple (λ s. f (sp_at s 0) (sp_at s 1) (sp_at s 2))

  unfoldable pub case_add : M W Ctl
  case_add = binary (λ a b. (a + b) % u256_mod)

  unfoldable pub case_mul : M W Ctl
  case_mul = binary (λ a b. a * b % u256_mod)

  unfoldable pub case_sub : M W Ctl
  case_sub = binary (λ a b. (a + u256_mod - b) % u256_mod)

  unfoldable pub case_div : M W Ctl
  case_div = binary div

  -- The case ends by `--m_SP`, which the next fetch overwrites.
  unfoldable pub case_sdiv : M W Ctl
  case_sdiv = do c ← binary sdiv; modify (λ s. record s { sp = s.sp - 1 }); pure c

  unfoldable pub case_mod : M W Ctl
  case_mod = binary mod_u

  unfoldable pub case_smod : M W Ctl
  case_smod = binary smod

  unfoldable pub case_not : M W Ctl
  case_not = unary (λ a. allbits - a)

  unfoldable pub case_lt : M W Ctl
  case_lt = binary (λ a b. of_bool (ltb a b))

  unfoldable pub case_gt : M W Ctl
  case_gt = binary (λ a b. of_bool (ltb b a))

  unfoldable pub case_slt : M W Ctl
  case_slt = binary slt

  unfoldable pub case_sgt : M W Ctl
  case_sgt = binary (λ a b. slt b a)

  unfoldable pub case_eq : M W Ctl
  case_eq = binary (λ a b. of_bool (a == b))

  unfoldable pub case_iszero : M W Ctl
  case_iszero = unary (λ a. of_bool (a == 0))

  unfoldable pub case_and : M W Ctl
  case_and = binary bit_and

  unfoldable pub case_or : M W Ctl
  case_or = binary bit_or

  unfoldable pub case_xor : M W Ctl
  case_xor = binary bit_xor

  unfoldable pub case_byte : M W Ctl
  case_byte = binary byte

  unfoldable pub case_addmod : M W Ctl
  case_addmod = ternary addmod

  unfoldable pub case_mulmod : M W Ctl
  case_mulmod = ternary mulmod

  -- Writes m_SP[1], and nothing from index 31 on.
  unfoldable pub case_signextend : M W Ctl
  unfolding update_io_gas
  case_signextend = do
    update_io_gas
    s ← get
    branch (ltb (sp_at s 0) 31) (modify (λ s. set_sp s 1 (signextend (sp_at s 0) (sp_at s 1)))) skip
    pure next

module _ {W : Type 0} (ext : ExtVmFace W) where
  unfoldable pub case_shl : M W Ctl
  case_shl = do require ext.evm_schedule.have_bitwise_shifting; binary shl

  unfoldable pub case_shr : M W Ctl
  case_shr = do require ext.evm_schedule.have_bitwise_shifting; binary shr

  unfoldable pub case_sar : M W Ctl
  case_sar = do require ext.evm_schedule.have_bitwise_shifting; binary sar

  -- The price of EXP: one step for every byte of the exponent.
  unfoldable pub exp_gas_of : ℕ → ℕ
  unfolding first_bit_set
  exp_gas_of expon =
      ext.evm_schedule.exp_gas
      + ext.evm_schedule.exp_byte_gas * (32 - first_bit_set (to_big_endian 32 expon) / 8)

  unfoldable pub case_exp : M W Ctl
  unfolding exp_gas_of to_int63
  case_exp = do s ← get; g ← to_int63 (exp_gas_of (sp_at s 1)); set_run_gas g; binary exp256
