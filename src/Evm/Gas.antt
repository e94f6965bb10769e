-- ===== src/Evm/Gas.antt =====
-- libevm/LegacyVM.cpp: stack bounds, metering and the growth of memory.
use cpp_aec.Base.{
  ℕ, ◌+◌, ◌-◌, ◌*◌, ◌/◌, ◌%◌, Bool, ◌++◌, ltb, ◌==◌, if◌then◌else◌, length, get_or, replicate, set,
}
use cpp_aec.Evm.Word.{u64_mod}
use cpp_aec.Evm.Instruction.{
  Tier, tier_zero, tier_base, tier_very_low, tier_low, tier_mid, tier_high, tier_ext, tier_special,
  tier_invalid, instruction_info,
}
use cpp_aec.Evm.Machine.{
  ExtVmFace, Vm, out_of_gas, out_of_stack, stack_underflow, M, ◌>>=◌, ◌>>◌, pure, get, modify, skip,
  throw_if, branch,
}

-- m_stackEnd - m_stack
abbrev pub stack_limit : ℕ
stack_limit = 1024

abbrev pub int63_max : ℕ
int63_max = 0x7fff_ffff_ffff_ffff

abbrev pub tier_index : Tier → ℕ
tier_index tier_zero = 0
tier_index tier_base = 1
tier_index tier_very_low = 2
tier_index tier_low = 3
tier_index tier_mid = 4
tier_index tier_high = 5
tier_index tier_ext = 6
tier_index tier_special = 7
tier_index tier_invalid = 8

-- The slots m_SP[i] and m_SPP[0].
abbrev pub sp_at : {W : Type 0} → Vm W → ℕ → ℕ
sp_at s i = get_or s.stack (s.sp + i) 0

module _ {W : Type 0} where
  abbrev pub set_spp : Vm W → ℕ → Vm W
  set_spp s v = record s { stack = set s.stack s.spp v }

  abbrev pub set_sp : Vm W → ℕ → ℕ → Vm W
  set_sp s i v = record s { stack = set s.stack (s.sp + i) v }

  unfoldable pub to_int63 : ℕ → M W ℕ
  to_int63 v = do throw_if (ltb int63_max v) out_of_gas; pure v

  -- memNeed
  unfoldable pub mem_need : ℕ → ℕ → M W ℕ
  unfolding to_int63
  mem_need offset size = to_int63 (if size == 0 then 0 else offset + size)

  abbrev pub set_run_gas : ℕ → M W (Unit {0})
  set_run_gas g = modify (λ s. record s { run_gas = g })

  -- updateIOGas
  unfoldable pub update_io_gas : M W (Unit {0})
  update_io_gas = do
    s ← get
    throw_if (ltb s.io_gas s.run_gas) out_of_gas
    modify (λ s. record s { io_gas = s.io_gas - s.run_gas })

  -- adjustStack with throwBadStack: m_SPP past the end leaves fewer items than were to be removed.
  -- A pointer that would fall below the array is not formed here, as ℕ has no such number.
  unfoldable pub adjust_stack : (removed added : ℕ) → M W (Unit {0})
  adjust_stack removed added = do
    modify (λ s. record s { sp = s.spp; spp = s.spp + removed })
    s ← get
    throw_if (ltb stack_limit s.spp) stack_underflow
    throw_if (ltb s.spp added) out_of_stack
    modify (λ s. record s { spp = s.spp - added })

  abbrev pub is_growing : Vm W → Bool
  is_growing s = ltb (length s.mem) s.new_mem_size

  -- m_mem.resize(m_newMemSize)
  abbrev pub resize_mem : Vm W → Vm W
  resize_mem s = record s { mem = s.mem ++ replicate (s.new_mem_size - length s.mem) 0 }

module _ {W : Type 0} (ext : ExtVmFace W) where
  -- gasForMem. The sum is far below 2 ^ 512 for the sizes that occur, which are below 2 ^ 64.
  unfoldable pub gas_for_mem : ℕ → M W ℕ
  unfolding to_int63
  gas_for_mem size = do
    let s = size / 32
    to_int63 (ext.evm_schedule.memory_gas * s + s * s / ext.evm_schedule.quad_coeff_div)

  -- The first statement of updateGas: the price of the new memory.
  unfoldable pub charge_mem : M W (Unit {0})
  unfolding gas_for_mem
  charge_mem = do
    s ← get
    grown ← gas_for_mem s.new_mem_size
    paid ← gas_for_mem (length s.mem)
    more ← to_int63 ((grown + u64_mod - paid) % u64_mod)
    modify (λ s. record s { run_gas = (s.run_gas + more) % u64_mod })

  unfoldable pub update_gas : M W (Unit {0})
  unfolding charge_mem
  update_gas = do
    s ← get
    branch (is_growing s) charge_mem skip
    modify (λ s. record s {
      run_gas =
          (s.run_gas + ext.evm_schedule.copy_gas * ((s.copy_mem_size + 31) % u64_mod / 32))
          % u64_mod;
    })
    s ← get
    throw_if (ltb s.io_gas s.run_gas) out_of_gas

  unfoldable pub update_mem : ℕ → M W (Unit {0})
  unfolding update_gas
  update_mem new_mem = do
    modify (λ s. record s { new_mem_size = (new_mem + 31) % u64_mod / 32 * 32 })
    update_gas
    s ← get
    branch (is_growing s) (modify resize_mem) skip

  -- logGasMem
  unfoldable pub log_gas_mem : M W (Unit {0})
  unfolding mem_need update_mem
  log_gas_mem = do
    s ← get
    let n = s.op - 0xa0
    let sched = ext.evm_schedule
    g ← to_int63 (sched.log_gas + sched.log_topic_gas * n + sched.log_data_gas * sp_at s 1)
    set_run_gas g
    need ← mem_need (sp_at s 0) (sp_at s 1)
    update_mem need

  -- m_schedule->tierStepGas[tier]. The array has eight entries, so that the tier of an unknown opcode
  -- reads past its end; the value is not used, since the opcode's case throws.
  abbrev pub tier_gas : Tier → ℕ
  tier_gas t = get_or ext.evm_schedule.tier_step_gas (tier_index t) 0

  -- fetchInstruction
  unfoldable pub fetch_instruction : M W (Unit {0})
  unfolding adjust_stack instruction_info to_int63
  fetch_instruction = do
    modify (λ s. record s { op = get_or s.code s.pc 0 })
    s ← get
    let metric = instruction_info s.op
    adjust_stack metric.args metric.ret
    g ← to_int63 (tier_gas metric.gas_price_tier)
    modify (λ s. record s { run_gas = g; new_mem_size = length s.mem; copy_mem_size = 0 })
