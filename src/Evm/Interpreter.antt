-- ===== src/Evm/Interpreter.antt =====
-- libevm/LegacyVM.cpp: the switch of interpretCases, and the trampoline of exec, with
-- LegacyVM::initEntry of libevm/LegacyVMOpt.cpp.
use cpp_aec.Base.{
  ℕ, zero, suc, ◌%◌, ◌==◌, if◌then◌else◌, length, replicate, List, [], ◌∷◌, Option, none, some,
  Bool, true, false,
}
use cpp_aec.Evm.Word.{u64_mod}
use cpp_aec.Evm.Instruction.{is_push, is_dup, is_swap}
use cpp_aec.Evm.Machine.{
  ExtVmFace, Vm, Outcome, ok, throw, M, Ctl, next, continue, break, Bounce, init_entry,
  interpret_cases, stopped, ◌>>=◌, ◌>>◌, get, modify, skip,
}
use cpp_aec.Evm.Machine
use cpp_aec.Evm.Gas.{fetch_instruction, stack_limit}
use cpp_aec.Evm.Jumps.{jump_table, optimize_loop}
use cpp_aec.Evm.Case.Arithmetic.{
  case_add, case_mul, case_sub, case_div, case_sdiv, case_mod, case_smod, case_not, case_lt,
  case_gt, case_slt, case_sgt, case_eq, case_iszero, case_and, case_or, case_xor, case_byte,
  case_addmod, case_mulmod, case_signextend, case_shl, case_shr, case_sar, case_exp,
}
use cpp_aec.Evm.Case.Memory.{
  case_return, case_revert, case_mload, case_mstore, case_mstore8, case_sha3, case_log,
  case_calldatacopy, case_codecopy, case_returndatacopy, case_extcodecopy,
}
use cpp_aec.Evm.Case.Environment.{
  case_address, case_origin, case_balance, case_caller, case_callvalue, case_calldataload,
  case_calldatasize, case_returndatasize, case_codesize, case_extcodesize, case_gasprice,
  case_blockhash, case_coinbase, case_timestamp, case_number, case_difficulty, case_gaslimit,
  case_sload, case_sstore, case_suicide,
}
use cpp_aec.Evm.Case.Control.{
  case_stop, case_invalid, case_pop, case_pushc, case_push1, case_push, case_jump, case_jumpi,
  case_jumpc, case_jumpci, case_dup, case_swap, case_pc, case_msize, case_gas, case_jumpdest,
}
use cpp_aec.Evm.Case.Control.{step_pc}
use cpp_aec.Evm.Case.Calls.{case_create2_op, case_create_op, case_call_op}
use cpp_aec.Evm.Case.Calls

-- What the opcode picks out of the table.
unfoldable pub lookup_case : {A : Type 0} → List (ℕ × A) → A → ℕ → A
lookup_case [] d op = d
lookup_case ((k, c) ∷ cs) d op = let rest = lookup_case cs d op in if op == k then c else rest

module _ {W : Type 0} where
  -- NEXT is `++m_PC; break;`, CONTINUE leaves the program counter, and BREAK leaves the loop.
  abbrev pub after_case : Ctl → M W (Unit {0})
  after_case next = step_pc
  after_case continue = skip
  after_case break = skip

module _ {W : Type 0} (ext : ExtVmFace W) where
  -- The cases of the switch that stand for one opcode each.
  abbrev pub cases : List (ℕ × M W Ctl)
  cases =
      (0x00, case_stop)
      ∷ (0x01, case_add)
      ∷ (0x02, case_mul)
      ∷ (0x03, case_sub)
      ∷ (0x04, case_div)
      ∷ (0x05, case_sdiv)
      ∷ (0x06, case_mod)
      ∷ (0x07, case_smod)
      ∷ (0x08, case_addmod)
      ∷ (0x09, case_mulmod)
      ∷ (0x0a, case_exp ext)
      ∷ (0x0b, case_signextend)
      ∷ (0x10, case_lt)
      ∷ (0x11, case_gt)
      ∷ (0x12, case_slt)
      ∷ (0x13, case_sgt)
      ∷ (0x14, case_eq)
      ∷ (0x15, case_iszero)
      ∷ (0x16, case_and)
      ∷ (0x17, case_or)
      ∷ (0x18, case_xor)
      ∷ (0x19, case_not)
      ∷ (0x1a, case_byte)
      ∷ (0x1b, case_shl ext)
      ∷ (0x1c, case_shr ext)
      ∷ (0x1d, case_sar ext)
      ∷ (0x20, case_sha3 ext)
      ∷ (0x30, case_address ext)
      ∷ (0x31, case_balance ext)
      ∷ (0x32, case_origin ext)
      ∷ (0x33, case_caller ext)
      ∷ (0x34, case_callvalue ext)
      ∷ (0x35, case_calldataload ext)
      ∷ (0x36, case_calldatasize ext)
      ∷ (0x37, case_calldatacopy ext)
      ∷ (0x38, case_codesize ext)
      ∷ (0x39, case_codecopy ext)
      ∷ (0x3a, case_gasprice ext)
      ∷ (0x3b, case_extcodesize ext)
      ∷ (0x3c, case_extcodecopy ext)
      ∷ (0x3d, case_returndatasize ext)
      ∷ (0x3e, case_returndatacopy ext)
      ∷ (0x40, case_blockhash ext)
      ∷ (0x41, case_coinbase ext)
      ∷ (0x42, case_timestamp ext)
      ∷ (0x43, case_number ext)
      ∷ (0x44, case_difficulty ext)
      ∷ (0x45, case_gaslimit ext)
      ∷ (0x50, case_pop)
      ∷ (0x51, case_mload ext)
      ∷ (0x52, case_mstore ext)
      ∷ (0x53, case_mstore8 ext)
      ∷ (0x54, case_sload ext)
      ∷ (0x55, case_sstore ext)
      ∷ (0x56, case_jump)
      ∷ (0x57, case_jumpi)
      ∷ (0x58, case_pc)
      ∷ (0x59, case_msize)
      ∷ (0x5a, case_gas)
      ∷ (0x5b, case_jumpdest)
      ∷ (0x60, case_push1)
      ∷ (0xa0, case_log ext 0)
      ∷ (0xa1, case_log ext 1)
      ∷ (0xa2, case_log ext 2)
      ∷ (0xa3, case_log ext 3)
      ∷ (0xa4, case_log ext 4)
      ∷ (0xac, case_pushc)
      ∷ (0xad, case_jumpc)
      ∷ (0xae, case_jumpci)
      ∷ (0xf0, case_create_op ext)
      ∷ (0xf1, case_call_op ext)
      ∷ (0xf2, case_call_op ext)
      ∷ (0xf3, case_return ext)
      ∷ (0xf4, case_call_op ext)
      ∷ (0xfa, case_call_op ext)
      ∷ (0xfb, case_create2_op ext)
      ∷ (0xfd, case_revert ext)
      ∷ (0xff, case_suicide ext)
      ∷ []

  -- The switch, with its runs of opcodes. What has no case is INVALID: so EIP_615's and EIP_616's,
  -- and in INIT_CASES every byte that is no opcode.
  unfoldable pub dispatch : ℕ → M W Ctl
  unfolding lookup_case
  dispatch op =
      let d =
        if is_push op
        then case_push
        else if is_dup op
        then case_dup
        else if is_swap op
        then case_swap
        else case_invalid in
      lookup_case cases d op

  -- One round of the loop of interpretCases.
  unfoldable pub interpret : M W (Unit {0})
  unfolding fetch_instruction dispatch
  interpret = do fetch_instruction ext; s ← get; c ← dispatch s.op; after_case c

  -- initEntry
  unfoldable pub run_init_entry : M W (Unit {0})
  unfolding jump_table optimize_loop
  run_init_entry = modify (λ s.
      let t = jump_table ext.code in
      let o =
        optimize_loop t.jump_dests (length ext.code) (length ext.code) 0
          (record { code = t.code; pool = [] }) in
      record s {
        bounce = interpret_cases;
        code = o.code;
        pool = o.pool;
        jump_dests = t.jump_dests;
      })

  -- (this->*m_bounce)(), but for interpretCases only its next round.
  unfoldable pub bounce_step : Bounce → M W (Unit {0})
  unfolding run_init_entry interpret
  bounce_step init_entry = run_init_entry
  bounce_step interpret_cases = interpret
  bounce_step Machine.case_create = Calls.case_create ext
  bounce_step Machine.case_call = Calls.case_call ext
  bounce_step stopped = skip

abbrev pub is_stopped : Bounce → Bool
is_stopped stopped = true
is_stopped init_entry = false
is_stopped interpret_cases = false
is_stopped Machine.case_create = false
is_stopped Machine.case_call = false

module _ {W : Type 0} where
  -- A new LegacyVM at the head of `exec`. The stack's array is filled with zeros by the constructor
  -- of u256, and m_io_gas is the gas in 64 bits.
  abbrev pub entered : ℕ → W → Vm W
  entered io_gas world = record {
    io_gas = io_gas % u64_mod;
    output = [];
    mem = [];
    code = [];
    return_data = [];
    stack = replicate stack_limit 0;
    pool = [];
    op = 0;
    pc = 0;
    sp = stack_limit;
    spp = stack_limit;
    run_gas = 0;
    new_mem_size = 0;
    copy_mem_size = 0;
    jump_dests = [];
    bounce = init_entry;
    refunds = 0;
    world = world;
  }

  -- `while (m_bounce)`, where the next call is `f`.
  abbrev pub on_step :
      Outcome W (Unit {0}) → (Vm W → Option (Outcome W (Unit {0}))) → Option (Outcome W (Unit {0}))
  on_step (throw e t) f = some (throw e t)
  on_step (ok _ t) f = elim (is_stopped t.bounce) [ true ↦ some (ok tt t) | false ↦ f t ]

module _ {W : Type 0} (ext : ExtVmFace W) where
  -- The trampoline of `exec`: do ... while (m_bounce), within its try. `none` if the fuel runs out.
  unfoldable pub exec_loop : ℕ → Vm W → Option (Outcome W (Unit {0}))
  unfolding bounce_step
  exec_loop zero s = none
  exec_loop (suc fuel) s = on_step (bounce_step ext s.bounce s) (λ t. exec_loop fuel t)

  -- exec: what it returns or throws, in the state whose `io_gas` is written back to the caller.
  unfoldable pub exec : (fuel io_gas : ℕ) → W → Option (Outcome W (Unit {0}))
  unfolding exec_loop
  exec fuel io_gas world = exec_loop fuel (entered io_gas world)
