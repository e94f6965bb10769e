-- ===== src/Evm/Proof/Computing.antt =====
-- The cases of libevm/LegacyVM.cpp that leave memory alone.
use cpp_aec.Base.{
  ℕ, ◌+◌, ◌-◌, ◌*◌, ◌%◌, ◌^◌, ◌≤◌, ◌≡◌, Bool, true, false, length, set, length-set, arith, suc,
  zero, get_or,
}
use cpp_aec.Evm.Word.{signextend, sdiv, exp256, u256_mod}
use cpp_aec.Evm.Machine.{ExtVmFace, Vm, M, Ctl, ◌>>◌, throw_if, bad_instruction}
use cpp_aec.Evm.Gas.{set_spp, sp_at, update_io_gas}
use cpp_aec.Evm.Case.{simple, priced}
use cpp_aec.Evm.Case.Arithmetic.{case_sdiv, case_signextend, case_exp, exp_gas_of}
use cpp_aec.Evm.Case.Environment.{case_calldataload, calldataload, case_sstore, case_suicide}
use cpp_aec.Evm.Case.Control.{
  case_stop, case_invalid, case_pop, case_pushc, case_push1, case_push, push_loop, case_jump,
  case_jumpi, case_jumpc, case_jumpci, case_swap, case_jumpdest,
}
use cpp_aec.Evm.Case.Calls.{case_create_op, case_create2_op, case_call_op}
use cpp_aec.Evm.Proof.Sound.{CaseEnsures, IsSane}

module _ {W : Type 0} where
  pub simple-Ensures : (e : Vm W → ℕ) → CaseEnsures 1 (simple e)
  unfolding simple
  simple-Ensures e s h p =
      let l = length-set s.stack s.spp (e (record s { io_gas = s.io_gas - s.run_gas })) in
      record { after = ground arith }

  pub priced-Ensures : (price : ℕ) (e : Vm W → ℕ) → 1 ≤ price → CaseEnsures 0 (priced price e)
  unfolding priced
  priced-Ensures price e k s h p =
      let l =
        length-set s.stack s.spp (e (record s { io_gas = s.io_gas - price; run_gas = price })) in
      record { after = ground arith }

  pub require-Ensures :
      (b : Bool) (m : M W Ctl) → CaseEnsures 1 m → CaseEnsures 1 (throw_if b bad_instruction >> m)
  require-Ensures true m k s h p = record { after = ground arith }
  require-Ensures false m k s h p = k s h p

  pub case_sdiv-Ensures : CaseEnsures {W = W} 1 case_sdiv
  unfolding case_sdiv simple
  case_sdiv-Ensures s h p =
      let l = length-set s.stack s.spp (sdiv (sp_at s 0) (sp_at s 1)) in
      record { after = ground arith }

  pub case_signextend-Ensures : CaseEnsures {W = W} 1 case_signextend
  unfolding case_signextend update_io_gas
  case_signextend-Ensures s h p =
      let l = length-set s.stack (s.sp + 1) (signextend (sp_at s 0) (sp_at s 1)) in
      record { after = ground arith }

  pub case_stop-Ensures : CaseEnsures {W = W} 0 case_stop
  unfolding case_stop
  case_stop-Ensures s h p = record { after = ground arith }

  pub case_invalid-Ensures : CaseEnsures {W = W} 0 case_invalid
  unfolding case_invalid
  case_invalid-Ensures s h p = record { after = ground arith }

  pub case_pop-Ensures : CaseEnsures {W = W} 1 case_pop
  unfolding case_pop
  case_pop-Ensures s h p = record { after = ground arith }

  pub case_pushc-Ensures : CaseEnsures {W = W} 1 case_pushc
  unfolding case_pushc
  case_pushc-Ensures s h p =
      let off = get_or s.code (s.pc + 1) 0 * 2 ^ 8 + get_or s.code (s.pc + 2) 0 in
      let l = length-set s.stack s.spp (get_or s.pool off 0) in record { after = ground arith }

  pub case_push1-Ensures : CaseEnsures {W = W} 1 case_push1
  unfolding case_push1
  case_push1-Ensures s h p =
      let l = length-set s.stack s.spp (get_or s.code (s.pc + 1) 0) in
      record { after = ground arith }

  pub case_swap-Ensures : CaseEnsures {W = W} 1 case_swap
  unfolding case_swap
  case_swap-Ensures s h p =
      let n = s.op - 0x90 + 1 in
      let l = length-set s.stack (s.sp + 0) (sp_at s n) in
      let l' = length-set (set s.stack (s.sp + 0) (sp_at s n)) (s.sp + n) (sp_at s 0) in
      record { after = ground arith }

  pub case_jump-Ensures : CaseEnsures {W = W} 1 case_jump
  unfolding case_jump
  case_jump-Ensures s h p = record { after = ground arith }

  pub case_jumpi-Ensures : CaseEnsures {W = W} 1 case_jumpi
  unfolding case_jumpi
  case_jumpi-Ensures s h p = record { after = ground arith }

  pub case_jumpc-Ensures : CaseEnsures {W = W} 1 case_jumpc
  unfolding case_jumpc
  case_jumpc-Ensures s h p = record { after = ground arith }

  pub case_jumpci-Ensures : CaseEnsures {W = W} 1 case_jumpci
  unfolding case_jumpci
  case_jumpci-Ensures s h p = record { after = ground arith }

  pub case_jumpdest-Ensures : CaseEnsures {W = W} 0 case_jumpdest
  unfolding case_jumpdest
  case_jumpdest-Ensures s h p = record { after = ground arith }

  -- What the loop of PUSH leaves alone.
  record Pushed (s t : Vm W) : Type 0 where
    pub slots : length t.stack ≡ length s.stack
    pub spp_eq : t.spp ≡ s.spp
    pub gas_eq : t.io_gas ≡ s.io_gas
    pub mem_eq : t.mem ≡ s.mem
    pub bounce_eq : t.bounce ≡ s.bounce

  push_loop-Pushed : (n : ℕ) (s : Vm W) → Pushed s (push_loop n s)
  unfolding push_loop
  push_loop-Pushed zero s = ground arith
  push_loop-Pushed (suc n) s =
      let v = (get_or s.stack s.spp 0 * 2 ^ 8 + get_or s.code s.pc 0) % u256_mod in
      let l = length-set s.stack s.spp v in
      let rest = push_loop-Pushed n (record (set_spp s v) { pc = s.pc + 1 }) in ground arith

  pub case_push-Ensures : CaseEnsures {W = W} 1 case_push
  unfolding case_push
  case_push-Ensures s h p =
      let l = length-set s.stack s.spp 0 in
      let rest =
        push_loop-Pushed (s.op - 0x60 + 1) (record s {
          io_gas = s.io_gas - s.run_gas;
          stack = set s.stack s.spp 0;
          pc = s.pc + 1;
        }) in
      record { after = ground arith }

module _ {W : Type 0} (ext : ExtVmFace W) where
  pub case_calldataload-Ensures : CaseEnsures 1 (case_calldataload ext)
  unfolding case_calldataload update_io_gas
  case_calldataload-Ensures s h p =
      let l = length-set s.stack (s.sp + 0) (calldataload ext.input (sp_at s 0)) in
      record { after = ground arith }

  pub case_exp-Ensures : 1 ≤ ext.evm_schedule.exp_gas → CaseEnsures 0 (case_exp ext)
  unfolding case_exp simple exp_gas_of
  case_exp-Ensures k s h p =
      let l = length-set s.stack s.spp (exp256 (sp_at s 0) (sp_at s 1)) in
      record { after = ground arith }

  pub case_sstore-Ensures : IsSane ext.evm_schedule → CaseEnsures 0 (case_sstore ext)
  unfolding case_sstore
  case_sstore-Ensures k s h p = record { after = ground arith }

  pub case_suicide-Ensures : CaseEnsures 0 (case_suicide ext)
  unfolding case_suicide
  case_suicide-Ensures s h p = record { after = ground arith }

  pub case_create_op-Ensures : CaseEnsures 0 (case_create_op ext)
  unfolding case_create_op
  case_create_op-Ensures s h p = record { after = ground arith }

  pub case_create2_op-Ensures : CaseEnsures 0 (case_create2_op ext)
  unfolding case_create2_op
  case_create2_op-Ensures s h p = record { after = ground arith }

  pub case_call_op-Ensures : CaseEnsures 0 (case_call_op ext)
  unfolding case_call_op
  case_call_op-Ensures s h p = record { after = ground arith }
