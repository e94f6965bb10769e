-- ===== src/Evm/Proof/Memory.antt =====
-- The metering functions of libevm/LegacyVM.cpp change nothing but the price, the gas and the size of
-- memory.
use native.Mathlib.Nat.{mul-le-mul_right}
use cpp_aec.Base.{
  ℕ, ◌+◌, ◌-◌, ◌*◌, ◌/◌, ◌%◌, ◌^◌, ◌≤◌, ◌<◌, ◌≡◌, ◌⊎◌, refl, true, if◌then◌else◌, ◌==◌, length,
  replicate, length-append, length-replicate, arith,
}
use cpp_aec.Evm.Word.{u64_mod}
use cpp_aec.Evm.Machine.{ExtVmFace, Vm, branch, skip, modify}
use cpp_aec.Evm.Case.{pay_mem}
use cpp_aec.Evm.Gas.{
  int63_max, mem_need, update_io_gas, charge_mem, is_growing, resize_mem, update_gas, update_mem,
}
use cpp_aec.Evm.Proof.Rules.{Ensures, Ensures-bind, Ensures-branch, Ensures-to_int63}

-- What metering leaves alone.
pub record Metered {W : Type 0} (s t : Vm W) : Type 0 where
  pub io_gas_eq : t.io_gas ≡ s.io_gas
  pub stack_eq : t.stack ≡ s.stack
  pub sp_eq : t.sp ≡ s.sp
  pub spp_eq : t.spp ≡ s.spp
  pub op_eq : t.op ≡ s.op
  pub pc_eq : t.pc ≡ s.pc
  pub bounce_eq : t.bounce ≡ s.bounce

-- The price and the copied bytes are small enough for the sum of updateGas to stay below 2 ^ 64.
pub record Payable {W : Type 0} (s : Vm W) : Type 0 where
  pub price : s.run_gas ≤ int63_max
  pub copied : s.copy_mem_size ≤ int63_max
  pub either : (s.copy_mem_size ≡ 0) ⊎ (s.run_gas < 2 ^ 32)

abbrev pub SameGas : {W : Type 0} → Vm W → Vm W → Type 0
SameGas s t = t.io_gas ≡ s.io_gas

module _ {W : Type 0} where
  pub record Charged (s t : Vm W) : Type 0 where
    pub metered : Metered s t
    pub more : s.run_gas ≤ t.run_gas
    pub bound : t.run_gas ≤ s.run_gas + int63_max
    pub mem_eq : t.mem ≡ s.mem
    pub size_eq : t.new_mem_size ≡ s.new_mem_size
    pub copy_eq : t.copy_mem_size ≡ s.copy_mem_size

  pub record GasUpdated (s t : Vm W) : Type 0 where
    pub metered : Metered s t
    pub more : s.run_gas ≤ t.run_gas
    pub enough : t.run_gas ≤ t.io_gas
    pub mem_eq : t.mem ≡ s.mem
    pub size_eq : t.new_mem_size ≡ s.new_mem_size

  -- Memory after updateMem: grown to what is needed, in whole words.
  pub record MemUpdated (need : ℕ) (s t : Vm W) : Type 0 where
    pub metered : Metered s t
    pub more : s.run_gas ≤ t.run_gas
    pub enough : t.run_gas ≤ t.io_gas
    pub covers : need ≤ length t.mem
    pub whole : length t.mem % 32 ≡ 0
    pub mono : length s.mem ≤ length t.mem

  -- A case has paid at least the price `m_runGas` had, and the range is in memory.
  pub record MemPaid (offset size : ℕ) (s t : Vm W) : Type 0 where
    pub paid : t.io_gas + s.run_gas ≤ s.io_gas
    pub covers : (size ≡ 0) ⊎ (offset + size ≤ length t.mem)
    pub whole : length t.mem % 32 ≡ 0
    pub mono : length s.mem ≤ length t.mem
    pub stack_eq : t.stack ≡ s.stack
    pub sp_eq : t.sp ≡ s.sp
    pub spp_eq : t.spp ≡ s.spp
    pub bounce_eq : t.bounce ≡ s.bounce

module _ {W : Type 0} (ext : ExtVmFace W) where
  charge_mem-Ensures :
      (s : Vm W)
      → s.run_gas ≤ int63_max
      → Ensures (λ _ t. Charged s t) (SameGas s) (charge_mem ext s)
  unfolding charge_mem
  charge_mem-Ensures s h = record { after = ground arith }

  grow-Ensures :
      (s : Vm W)
      → s.run_gas ≤ int63_max
      → Ensures (λ _ t. Charged s t) (SameGas s) (branch (is_growing s) (charge_mem ext) skip s)
  grow-Ensures s h =
      Ensures-branch (is_growing s) (charge_mem ext) skip s (λ _. charge_mem-Ensures s h)
        (λ _. record { after = ground arith })

  pub copy_price :
      (c n : ℕ) → c ≤ 15 → c * ((n + 31) % u64_mod / 32) ≤ 15 * ((n + 31) % u64_mod / 32)
  copy_price c n h = mul-le-mul_right _ h

  pub update_gas-Ensures :
      (s : Vm W)
      → Payable s
      → ext.evm_schedule.copy_gas ≤ 15
      → Ensures (λ _ t. GasUpdated s t) (SameGas s) (update_gas ext s)
  unfolding update_gas
  update_gas-Ensures s h c =
      Ensures-bind (branch (is_growing s) (charge_mem ext) skip) _ s (grow-Ensures s h.price)
        (λ _ t k.
          let p = copy_price ext.evm_schedule.copy_gas t.copy_mem_size c in
          record { after = ground arith })

  grown :
      (need : ℕ) (s t : Vm W)
      → need ≤ int63_max + 32
      → GasUpdated (record s { new_mem_size = (need + 31) % u64_mod / 32 * 32 }) t
      → is_growing t ≡ true
      → MemUpdated need s (resize_mem t)
  grown need s t hn k b =
      let e = length-append t.mem (replicate (t.new_mem_size - length t.mem) 0) in
      let r = length-replicate {A = ℕ} (t.new_mem_size - length t.mem) 0 in ground arith

  pub update_mem-Ensures :
      (need : ℕ) (s : Vm W)
      → need ≤ int63_max + 32
      → length s.mem % 32 ≡ 0
      → Payable s
      → ext.evm_schedule.copy_gas ≤ 15
      → Ensures (λ _ t. MemUpdated need s t) (SameGas s) (update_mem ext need s)
  unfolding update_mem
  update_mem-Ensures need s hn hm h c =
      let s' = record s { new_mem_size = (need + 31) % u64_mod / 32 * 32 } in
      Ensures-bind (update_gas ext) _ s'
        (update_gas-Ensures s' (record { price = h.price; copied = h.copied; either = h.either }) c)
        (λ _ t k.
          Ensures-branch (is_growing t) (modify resize_mem) skip t
            (λ b. record { after = grown need s t hn k b }) (λ b. record { after = ground arith }))

  -- When memory is whole words, the price is payable and the copying price is at most 15, paying
  -- for a range of memory either throws with the gas unchanged, or leaves an empty range or one
  -- that lies in memory, memory in whole words and no smaller, the stack as it was, and has taken
  -- at least the price that was set.
  pub pay_mem-Ensures :
      (offset size : ℕ) (s : Vm W)
      → length s.mem % 32 ≡ 0
      → Payable s
      → ext.evm_schedule.copy_gas ≤ 15
      → Ensures (λ _ t. MemPaid offset size s t) (SameGas s) (pay_mem ext offset size s)
  unfolding pay_mem mem_need update_io_gas
  pay_mem-Ensures offset size s hm h c =
      Ensures-to_int63 (if size == 0 then 0 else offset + size) _ s refl (λ le.
        Ensures-bind (update_mem ext (if size == 0 then 0 else offset + size)) _ s
          (update_mem-Ensures _ s (ground arith) hm h c) (λ _ u j. record { after = ground arith }))
