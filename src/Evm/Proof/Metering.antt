-- ===== src/Evm/Proof/Metering.antt =====
-- The price that LegacyVM::updateGas adds for new memory and copied bytes.
use cpp_aec.Base.{ℕ, ◌+◌, ◌*◌, ◌/◌, ◌≤◌, ◌≡◌, max, length, arith}
use cpp_aec.Evm.Machine.{ExtVmFace, Vm, branch, skip}
use cpp_aec.Evm.Gas.{int63_max, charge_mem, is_growing, update_gas}
use cpp_aec.Evm.Proof.Rules.{Ensures, Ensures-bind, Ensures-branch}
use cpp_aec.Evm.Proof.Memory.{Payable, SameGas, copy_price}

module _ {W : Type 0} (ext : ExtVmFace W) where
  -- The yellow paper's price of so many bytes of memory.
  unfoldable pub mem_cost : ℕ → ℕ
  mem_cost n =
      let words = n / 32 in
      ext.evm_schedule.memory_gas * words + words * words / ext.evm_schedule.quad_coeff_div

  pub record MemPriced (s t : Vm W) : Type 0 where
    pub price :
        t.run_gas + mem_cost (length s.mem)
        ≡ s.run_gas + mem_cost (max (length s.mem) s.new_mem_size)
    pub bound : t.run_gas ≤ s.run_gas + int63_max
    pub copy_eq : t.copy_mem_size ≡ s.copy_mem_size
    pub gas_eq : t.io_gas ≡ s.io_gas

  grow-MemPriced :
      (s : Vm W)
      → s.run_gas ≤ int63_max
      → Ensures (λ _ t. MemPriced s t) (SameGas s) (branch (is_growing s) (charge_mem ext) skip s)
  unfolding charge_mem mem_cost
  grow-MemPriced s h =
      Ensures-branch (is_growing s) (charge_mem ext) skip s (λ b. record { after = ground arith })
        (λ b. record { after = ground arith })

  -- When the price is payable and the copying price is at most 15, updateGas either throws with
  -- the gas unchanged, or has added to the price exactly the difference of the quadratic price of
  -- memory before and after its growth and the copying price for every word begun, without
  -- wrapping around.
  pub update_gas-price :
      (s : Vm W)
      → Payable s
      → ext.evm_schedule.copy_gas ≤ 15
      → Ensures
          (λ _ t.
            t.run_gas + mem_cost (length s.mem)
            ≡ s.run_gas
              + mem_cost (max (length s.mem) s.new_mem_size)
              + ext.evm_schedule.copy_gas * ((s.copy_mem_size + 31) / 32))
          (SameGas s)
          (update_gas ext s)
  unfolding update_gas
  update_gas-price s h c =
      Ensures-bind (branch (is_growing s) (charge_mem ext) skip) _ s (grow-MemPriced s h.price)
        (λ _ t k.
          let p = copy_price ext ext.evm_schedule.copy_gas t.copy_mem_size c in
          record { after = ground arith })
