-- ===== src/Evm/Case.antt =====
-- libevm/LegacyVM.cpp, interpretCases: what the cases of the switch have in common. ON_OP calls a
-- tracing callback and is left out. The cases stand in the modules below.
pub mod Arithmetic
pub mod Memory
pub mod Environment
pub mod Control
pub mod Calls
use cpp_aec.Base.{ℕ, Bool, not}
use cpp_aec.Evm.Machine.{
  ExtVmFace, Vm, bad_instruction, disallowed_state_change, M, Ctl, next, Bounce, ◌>>=◌, ◌>>◌, pure,
  modify, throw_if,
}
use cpp_aec.Evm.Gas.{set_spp, set_run_gas, to_int63, update_io_gas, update_mem, mem_need}

module _ {W : Type 0} where
  -- `updateIOGas(); m_SPP[0] = e;` with NEXT.
  unfoldable pub simple : (Vm W → ℕ) → M W Ctl
  unfolding update_io_gas
  simple e = do update_io_gas; modify (λ s. set_spp s (e s)); pure next

  -- The same behind `m_runGas = toInt63(price)`.
  unfoldable pub priced : ℕ → (Vm W → ℕ) → M W Ctl
  unfolding to_int63 simple
  priced price e = do g ← to_int63 price; set_run_gas g; simple e

  -- if (!feature) throwBadInstruction();
  abbrev pub require : Bool → M W (Unit {0})
  require feature = throw_if (not feature) bad_instruction

  abbrev pub set_bounce : Bounce → M W (Unit {0})
  set_bounce b = modify (λ s. record s { bounce = b })

  abbrev pub set_copy_mem_size : ℕ → M W (Unit {0})
  set_copy_mem_size n = modify (λ s. record s { copy_mem_size = n })

module _ {W : Type 0} (ext : ExtVmFace W) where
  -- if (m_ext->staticCall) throwDisallowedStateChange();
  abbrev pub not_static : M W (Unit {0})
  not_static = throw_if ext.static_call disallowed_state_change

  -- `updateMem(memNeed(offset, size)); updateIOGas();`
  unfoldable pub pay_mem : ℕ → ℕ → M W (Unit {0})
  unfolding mem_need update_mem update_io_gas
  pay_mem offset size = do need ← mem_need offset size; update_mem ext need; update_io_gas
