-- ===== src/Evm/Proof/Static/Cases.antt =====
-- Every case of LegacyVM::interpretCases that pays for no memory, in a frame that must not change
-- state.
use cpp_aec.Base.{ℕ, zero, suc, ◌+◌, ◌≡◌, refl, Bool, true, ◌-◌, set, arith}
use cpp_aec.Evm.Machine.{ExtVmFace, Vm, M, Ctl, ◌>>◌, throw_if, bad_instruction}
use cpp_aec.Evm.Gas.{update_io_gas}
use cpp_aec.Evm.Case.{simple, priced}
use cpp_aec.Evm.Case.Arithmetic.{case_exp, case_sdiv, case_signextend, exp_gas_of}
use cpp_aec.Evm.Case.Environment.{case_calldataload, case_sstore, case_suicide}
use cpp_aec.Evm.Case.Calls.{case_call_op, case_create_op}
use cpp_aec.Evm.Case.Memory.{case_log}
use cpp_aec.Evm.Case.Control.{
  case_invalid, case_jump, case_jumpc, case_jumpci, case_jumpdest, case_jumpi, case_pop, case_push,
  case_push1, case_pushc, case_stop, case_swap, push_loop,
}
use cpp_aec.Evm.Proof.Rules.{Ensures-throw_if}
use cpp_aec.Evm.Proof.Static.{Keeps}

module _ {W : Type 0} where
  push_loop-world : (n : ℕ) (s : Vm W) → (push_loop n s).world ≡ s.world
  unfolding push_loop
  push_loop-world zero s = refl
  push_loop-world (suc n) s = push_loop-world n _

  push_loop-bounce : (n : ℕ) (s : Vm W) → (push_loop n s).bounce ≡ s.bounce
  unfolding push_loop
  push_loop-bounce zero s = refl
  push_loop-bounce (suc n) s = push_loop-bounce n _

module _ {W : Type 0} {c2 : Bool} where
  pub Keeps-simple : (e : Vm W → ℕ) → Keeps c2 (simple e)
  unfolding simple
  Keeps-simple e = record { at = λ s. record { after = ground arith } }

  pub Keeps-priced : (price : ℕ) (e : Vm W → ℕ) → Keeps c2 (priced price e)
  unfolding priced
  Keeps-priced price e = record { at = λ s. record { after = ground arith } }

  pub Keeps-require :
      (b : Bool) {m : M W Ctl} → Keeps c2 m → Keeps c2 (throw_if b bad_instruction >> m)
  Keeps-require b h = record { at = λ s. Ensures-throw_if b bad_instruction _ s refl (h.at s) }

  pub Keeps-case_push : Keeps {W = W} c2 case_push
  unfolding case_push
  Keeps-case_push = record {
    at = λ s.
        let s' = record s {
          io_gas = s.io_gas - s.run_gas;
          stack = set s.stack s.spp 0;
          pc = s.pc + 1;
        } in
        let e = push_loop-world (s.op - 0x60 + 1) s' in
        let b = push_loop-bounce (s.op - 0x60 + 1) s' in record { after = ground arith };
  }

  pub Keeps-case_stop : Keeps {W = W} c2 case_stop
  unfolding case_stop
  Keeps-case_stop = record { at = λ s. record { after = ground arith } }

  pub Keeps-case_sdiv : Keeps {W = W} c2 case_sdiv
  unfolding case_sdiv simple
  Keeps-case_sdiv = record { at = λ s. record { after = ground arith } }

  pub Keeps-case_signextend : Keeps {W = W} c2 case_signextend
  unfolding case_signextend update_io_gas
  Keeps-case_signextend = record { at = λ s. record { after = ground arith } }

  pub Keeps-case_pop : Keeps {W = W} c2 case_pop
  unfolding case_pop
  Keeps-case_pop = record { at = λ s. record { after = ground arith } }

  pub Keeps-case_jump : Keeps {W = W} c2 case_jump
  unfolding case_jump
  Keeps-case_jump = record { at = λ s. record { after = ground arith } }

  pub Keeps-case_jumpi : Keeps {W = W} c2 case_jumpi
  unfolding case_jumpi
  Keeps-case_jumpi = record { at = λ s. record { after = ground arith } }

  pub Keeps-case_jumpdest : Keeps {W = W} c2 case_jumpdest
  unfolding case_jumpdest
  Keeps-case_jumpdest = record { at = λ s. record { after = ground arith } }

  pub Keeps-case_push1 : Keeps {W = W} c2 case_push1
  unfolding case_push1
  Keeps-case_push1 = record { at = λ s. record { after = ground arith } }

  pub Keeps-case_pushc : Keeps {W = W} c2 case_pushc
  unfolding case_pushc
  Keeps-case_pushc = record { at = λ s. record { after = ground arith } }

  pub Keeps-case_jumpc : Keeps {W = W} c2 case_jumpc
  unfolding case_jumpc
  Keeps-case_jumpc = record { at = λ s. record { after = ground arith } }

  pub Keeps-case_jumpci : Keeps {W = W} c2 case_jumpci
  unfolding case_jumpci
  Keeps-case_jumpci = record { at = λ s. record { after = ground arith } }

  pub Keeps-case_swap : Keeps {W = W} c2 case_swap
  unfolding case_swap
  Keeps-case_swap = record { at = λ s. record { after = ground arith } }

  pub Keeps-case_invalid : Keeps {W = W} c2 case_invalid
  unfolding case_invalid
  Keeps-case_invalid = record { at = λ s. record { after = ground arith } }

module _ {W : Type 0} {c2 : Bool} (ext : ExtVmFace W) where
  pub Keeps-case_exp : Keeps c2 (case_exp ext)
  unfolding case_exp simple exp_gas_of
  Keeps-case_exp = record { at = λ s. record { after = ground arith } }

  pub Keeps-case_calldataload : Keeps c2 (case_calldataload ext)
  unfolding case_calldataload update_io_gas
  Keeps-case_calldataload = record { at = λ s. record { after = ground arith } }

  pub Keeps-case_call_op : Keeps c2 (case_call_op ext)
  unfolding case_call_op
  Keeps-case_call_op = record { at = λ s. record { after = ground arith } }

  pub Keeps-case_log : ext.static_call ≡ true → (n : ℕ) → Keeps c2 (case_log ext n)
  unfolding case_log
  Keeps-case_log h n = record { at = λ s. record { after = ground arith } }

  pub Keeps-case_sstore : ext.static_call ≡ true → Keeps c2 (case_sstore ext)
  unfolding case_sstore
  Keeps-case_sstore h = record { at = λ s. record { after = ground arith } }

  pub Keeps-case_suicide : ext.static_call ≡ true → Keeps c2 (case_suicide ext)
  unfolding case_suicide
  Keeps-case_suicide h = record { at = λ s. record { after = ground arith } }

  pub Keeps-case_create_op : ext.static_call ≡ true → Keeps c2 (case_create_op ext)
  unfolding case_create_op
  Keeps-case_create_op h = record { at = λ s. record { after = ground arith } }
