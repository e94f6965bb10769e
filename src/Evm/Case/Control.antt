-- ===== src/Evm/Case/Control.antt =====
-- libevm/LegacyVM.cpp: the cases on the stack and the program counter.
use cpp_aec.Base.{ℕ, zero, suc, ◌+◌, ◌-◌, ◌*◌, ◌%◌, ◌^◌, ◌==◌, length, get_or, none, some}
use cpp_aec.Evm.Word.{u256_mod, u64_mod}
use cpp_aec.Evm.Machine.{
  Vm, bad_instruction, bad_jump_destination, M, Ctl, next, continue, break, stopped, ◌>>=◌, ◌>>◌,
  pure, raise, get, modify, branch,
}
use cpp_aec.Evm.Gas.{sp_at, set_spp, set_sp, set_run_gas, update_io_gas}
use cpp_aec.Evm.Jumps.{verify_jump_dest}
use cpp_aec.Evm.Case.{simple, set_bounce}

module _ {W : Type 0} where
  unfoldable pub case_stop : M W Ctl
  unfolding update_io_gas
  case_stop = do update_io_gas; set_bounce stopped; pure break

  -- Opcodes that are no instructions, and those of EIP_615 and EIP_616, which are off.
  unfoldable pub case_invalid : M W Ctl
  case_invalid = raise bad_instruction

  -- The case ends by `--m_SP`, which the next fetch overwrites.
  unfoldable pub case_pop : M W Ctl
  unfolding update_io_gas
  case_pop = do update_io_gas; modify (λ s. record s { sp = s.sp - 1 }); pure next

  -- The pool is read at a two-byte offset (the second byte falls into
  -- eight zero bits), and the last of the bytes behind it tells how many of the
  -- replaced push are left.
  unfoldable pub case_pushc : M W Ctl
  unfolding update_io_gas
  case_pushc = do
    update_io_gas
    modify (λ s.
        let off = get_or s.code (s.pc + 1) 0 * 2 ^ 8 + get_or s.code (s.pc + 2) 0 in
        record (set_spp s (get_or s.pool off 0)) { pc = s.pc + 3 + get_or s.code (s.pc + 3) 0 })
    pure continue

  unfoldable pub case_push1 : M W Ctl
  unfolding update_io_gas
  case_push1 = do
    update_io_gas
    modify (λ s. record (set_spp s (get_or s.code (s.pc + 1) 0)) { pc = s.pc + 1 + 1 })
    pure continue

  -- The loop of PUSH2 to PUSH32.
  unfoldable pub push_loop : (num_bytes : ℕ) → Vm W → Vm W
  push_loop zero s = s
  push_loop (suc n) s =
      push_loop n
        (record (set_spp s ((get_or s.stack s.spp 0 * 2 ^ 8 + get_or s.code s.pc 0) % u256_mod)) {
          pc = s.pc + 1;
        })

  unfoldable pub case_push : M W Ctl
  unfolding update_io_gas push_loop
  case_push = do
    update_io_gas
    modify (λ s. push_loop (s.op - 0x60 + 1) (record (set_spp s 0) { pc = s.pc + 1 }))
    pure continue

  -- `m_PC = verifyJumpDest(m_SP[0]);`
  unfoldable pub jump_to : M W (Unit {0})
  unfolding verify_jump_dest
  jump_to s = elim (verify_jump_dest s.jump_dests (sp_at s 0)) [
    | none ↦ raise bad_jump_destination s
    | some pc ↦ modify (λ s. record s { pc = pc }) s
  ]

  abbrev pub step_pc : M W (Unit {0})
  step_pc = modify (λ s. record s { pc = s.pc + 1 })

  unfoldable pub case_jump : M W Ctl
  unfolding update_io_gas jump_to
  case_jump = do update_io_gas; jump_to; pure continue

  unfoldable pub case_jumpi : M W Ctl
  unfolding update_io_gas jump_to
  case_jumpi = do update_io_gas; s ← get; branch (sp_at s 1 == 0) step_pc jump_to; pure continue

  -- `m_PC = uint64_t(m_SP[0]);`
  abbrev pub jump_verified : M W (Unit {0})
  jump_verified = modify (λ s. record s { pc = sp_at s 0 % u64_mod })

  unfoldable pub case_jumpc : M W Ctl
  unfolding update_io_gas
  case_jumpc = do update_io_gas; jump_verified; pure continue

  unfoldable pub case_jumpci : M W Ctl
  unfolding update_io_gas
  case_jumpci = do
    update_io_gas
    s ← get
    branch (sp_at s 1 == 0) step_pc jump_verified
    pure continue

  unfoldable pub case_dup : M W Ctl
  case_dup = simple (λ s. sp_at s (s.op - 0x80))

  unfoldable pub case_swap : M W Ctl
  unfolding update_io_gas
  case_swap = do
    update_io_gas
    modify (λ s. let n = s.op - 0x90 + 1 in set_sp (set_sp s 0 (sp_at s n)) n (sp_at s 0))
    pure next

  unfoldable pub case_pc : M W Ctl
  case_pc = simple (λ s. s.pc)

  unfoldable pub case_msize : M W Ctl
  case_msize = simple (λ s. length s.mem)

  unfoldable pub case_gas : M W Ctl
  case_gas = simple (λ s. s.io_gas)

  -- `m_runGas = 1;`, not the schedule's jumpdestGas.
  unfoldable pub case_jumpdest : M W Ctl
  unfolding update_io_gas
  case_jumpdest = do set_run_gas 1; update_io_gas; pure next
