-- ===== src/Evm/Proof/Fetching.antt =====
-- LegacyVM::fetchInstruction and LegacyVM::adjustStack.
use cpp_aec.Base.{ℕ, ◌+◌, ◌≤◌, ◌≡◌, refl, length, get_or, arith, ◌∙◌}
use cpp_aec.Evm.Instruction.{Tier, instruction_info}
use cpp_aec.Evm.Machine.{ExtVmFace, Vm, interpret_cases}
use cpp_aec.Evm.Gas.{stack_limit, tier_gas, adjust_stack, fetch_instruction}
use cpp_aec.Evm.Proof.Rules.{Ensures, Ensures-follow, Ensures-to_int63}
use cpp_aec.Evm.Proof.Sound.{Sound, Ready, IsSane}
use cpp_aec.Evm.Proof.Memory.{SameGas}

module _ {W : Type 0} where
  -- adjustStack succeeds only with the operands on the stack and room for the results.
  pub record Adjusted (removed added : ℕ) (s t : Vm W) : Type 0 where
    pub gas_eq : t.io_gas ≡ s.io_gas
    pub stack_eq : t.stack ≡ s.stack
    pub mem_eq : t.mem ≡ s.mem
    pub op_eq : t.op ≡ s.op
    pub bounce_eq : t.bounce ≡ s.bounce
    pub sp_eq : t.sp ≡ s.spp
    pub operands : t.sp + removed ≤ stack_limit
    pub results : t.spp + added ≡ t.sp + removed

  pub adjust_stack-Ensures :
      (removed added : ℕ) (s : Vm W)
      → Ensures (λ _ t. Adjusted removed added s t) (SameGas s) (adjust_stack removed added s)
  unfolding adjust_stack
  adjust_stack-Ensures removed added s = record { after = ground arith }

module _ {W : Type 0} (ext : ExtVmFace W) where
  tier_cheap : IsSane ext.evm_schedule → (t : Tier) → tier_gas ext t ≤ 20
  tier_cheap k t = rw k.tiers (ground arith)

  -- What fetchInstruction leaves: the operands are on the stack, there is room for the results, and
  -- the price is that of the tier.
  pub record Fetched (s t : Vm W) : Type 0 where
    pub ready : Ready t
    pub gas_eq : t.io_gas ≡ s.io_gas
    pub op_eq : t.op ≡ get_or s.code s.pc 0
    pub price : t.run_gas ≡ tier_gas ext (instruction_info t.op).gas_price_tier
    pub sp_eq : t.sp ≡ s.spp
    pub operands : t.sp + (instruction_info t.op).args ≤ stack_limit
    pub results : t.spp + (instruction_info t.op).ret ≡ t.sp + (instruction_info t.op).args

  fetched :
      (s t : Vm W)
      → IsSane ext.evm_schedule
      → Sound s
      → s.bounce ≡ interpret_cases
      → Adjusted
          (instruction_info (get_or s.code s.pc 0)).args
          (instruction_info (get_or s.code s.pc 0)).ret
          (record s { op = get_or s.code s.pc 0 })
          t
      → Fetched s (record t {
        run_gas = tier_gas ext (instruction_info (get_or s.code s.pc 0)).gas_price_tier;
        new_mem_size = length t.mem;
        copy_mem_size = 0;
      })
  fetched s t k h b a = record {
    ready = record {
      sound = ground arith;
      cheap = tier_cheap k _;
      no_copy = refl;
      running = a.bounce_eq ∙ b;
    };
    gas_eq = a.gas_eq;
    op_eq = a.op_eq;
    price = rw a.op_eq refl;
    sp_eq = a.sp_eq;
    operands = rw a.op_eq a.operands;
    results = rw a.op_eq a.results;
  }

  -- Under sane prices, from a sound state in the loop, fetchInstruction either throws with the gas
  -- unchanged, or leaves the byte at the program counter as the opcode, the operands of its row of
  -- the table on the stack, exactly the room that its results take, and the price of its tier.
  pub fetch_instruction-Ensures :
      (s : Vm W)
      → IsSane ext.evm_schedule
      → Sound s
      → s.bounce ≡ interpret_cases
      → Ensures (λ _ t. Fetched s t) (SameGas s) (fetch_instruction ext s)
  unfolding fetch_instruction
  fetch_instruction-Ensures s k h b =
      let op = get_or s.code s.pc 0 in
      let metric = instruction_info op in
      let s' = record s { op = op } in
      Ensures-follow (adjust_stack metric.args metric.ret) _ s'
        (adjust_stack-Ensures metric.args metric.ret s') (λ t e. e)
        (λ _ t a.
          Ensures-to_int63 (tier_gas ext metric.gas_price_tier) _ t a.gas_eq
            (λ le. record { after = fetched s t k h b a }))
