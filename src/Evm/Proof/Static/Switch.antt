-- ===== src/Evm/Proof/Static/Switch.antt =====
-- The switch of LegacyVM::interpretCases in a frame that must not change state.
use cpp_aec.Base.{
  ℕ, ◌≡◌, Bool, true, Bool-cases, inl, inr, List, [], ◌∷◌, All, ◌==◌, if◌then◌else◌, arith,
}
use cpp_aec.Evm.Instruction.{is_push, is_dup, is_swap}
use cpp_aec.Evm.Machine.{ExtVmFace, Vm, M, Ctl}
use cpp_aec.Evm.Case.Arithmetic.{
  case_add, case_addmod, case_and, case_byte, case_div, case_eq, case_gt, case_iszero, case_lt,
  case_mod, case_mul, case_mulmod, case_not, case_or, case_sar, case_sgt, case_shl, case_shr,
  case_slt, case_smod, case_sub, case_xor,
}
use cpp_aec.Evm.Case.Environment.{
  case_sstore, case_suicide, case_address, case_balance, case_blockhash, case_calldatasize,
  case_caller, case_callvalue, case_codesize, case_coinbase, case_difficulty, case_extcodesize,
  case_gaslimit, case_gasprice, case_number, case_origin, case_returndatasize, case_sload,
  case_timestamp,
}
use cpp_aec.Evm.Case.Calls.{case_create_op, case_create2_op}
use cpp_aec.Evm.Case.Memory.{case_log, case_calldatacopy, case_codecopy}
use cpp_aec.Evm.Case.Control.{
  case_dup, case_gas, case_invalid, case_msize, case_pc, case_push, case_swap,
}
use cpp_aec.Evm.Interpreter.{lookup_case, cases, dispatch}
use cpp_aec.Evm.Proof.Rules.{Ensures}
use cpp_aec.Evm.Proof.Static.{
  Same, Keeps, Keeps-case_return, Keeps-case_revert, Keeps-case_mload, Keeps-case_mstore,
  Keeps-case_mstore8, Keeps-case_sha3, Keeps-copy_to_mem, Keeps-case_returndatacopy,
  Keeps-case_extcodecopy,
}
use cpp_aec.Evm.Proof.Static.Cases.{
  Keeps-simple, Keeps-priced, Keeps-require, Keeps-case_push, Keeps-case_stop, Keeps-case_sdiv,
  Keeps-case_signextend, Keeps-case_pop, Keeps-case_jump, Keeps-case_jumpi, Keeps-case_jumpdest,
  Keeps-case_push1, Keeps-case_pushc, Keeps-case_jumpc, Keeps-case_jumpci, Keeps-case_swap,
  Keeps-case_invalid, Keeps-case_exp, Keeps-case_calldataload, Keeps-case_call_op, Keeps-case_log,
  Keeps-case_sstore, Keeps-case_suicide, Keeps-case_create_op,
}

module _ {W : Type 0} (ext : ExtVmFace W) where
  abbrev c2 : Bool
  c2 = ext.evm_schedule.have_create2

  Keeps-case_create2_op : Keeps c2 (case_create2_op ext)
  unfolding case_create2_op
  Keeps-case_create2_op = record { at = λ s. record { after = ground arith } }

  pub lookup_case-All :
      (Q : M W Ctl → Type 0) (cs : List (ℕ × M W Ctl)) (d : M W Ctl) (op : ℕ)
      → All (λ r. Q r.1) cs
      → Q d
      → Q (lookup_case cs d op)
  unfolding lookup_case
  lookup_case-All Q [] d op h g = g
  lookup_case-All Q ((k, c) ∷ cs) d op h g =
      let rest = lookup_case-All Q cs d op h.1 g in
      elim (Bool-cases (op == k)) [ inl e ↦ rw e h.0 | inr e ↦ rw e rest ]

  infixr 2 ◌&◌
  abbrev ◌&◌ : {A B : Type 0} → A → B → A × B
  a & b = (a, b)

  -- What holds of every function that leaves the accounts alone, and of the four that may not, holds
  -- of every case.
  pub cases-All :
      (Q : M W Ctl → Type 0)
      → ((m : M W Ctl) → Keeps c2 m → Q m)
      → ((n : ℕ) → Q (case_log ext n))
      → Q (case_sstore ext)
      → Q (case_create_op ext)
      → Q (case_suicide ext)
      → All (λ r. Q r.1) (cases ext)
  unfolding case_add case_addmod case_address case_and case_balance case_blockhash case_byte
      case_calldatacopy case_calldatasize case_caller case_callvalue case_codecopy case_codesize
      case_coinbase case_difficulty case_div case_eq case_extcodesize case_gas case_gaslimit
      case_gasprice case_gt case_iszero case_lt case_mod case_msize case_mul case_mulmod case_not
      case_number case_or case_origin case_pc case_returndatasize case_sar case_sgt case_shl
      case_shr case_sload case_slt case_smod case_sub case_timestamp case_xor
  cases-All Q keep log store create suicide =
      keep _ Keeps-case_stop
      & keep _ (Keeps-simple _)
      & keep _ (Keeps-simple _)
      & keep _ (Keeps-simple _)
      & keep _ (Keeps-simple _)
      & keep _ Keeps-case_sdiv
      & keep _ (Keeps-simple _)
      & keep _ (Keeps-simple _)
      & keep _ (Keeps-simple _)
      & keep _ (Keeps-simple _)
      & keep _ (Keeps-case_exp ext)
      & keep _ Keeps-case_signextend
      & keep _ (Keeps-simple _)
      & keep _ (Keeps-simple _)
      & keep _ (Keeps-simple _)
      & keep _ (Keeps-simple _)
      & keep _ (Keeps-simple _)
      & keep _ (Keeps-simple _)
      & keep _ (Keeps-simple _)
      & keep _ (Keeps-simple _)
      & keep _ (Keeps-simple _)
      & keep _ (Keeps-simple _)
      & keep _ (Keeps-simple _)
      & keep _ (Keeps-require _ (Keeps-simple _))
      & keep _ (Keeps-require _ (Keeps-simple _))
      & keep _ (Keeps-require _ (Keeps-simple _))
      & keep _ (Keeps-case_sha3 ext)
      & keep _ (Keeps-simple _)
      & keep _ (Keeps-priced _ _)
      & keep _ (Keeps-simple _)
      & keep _ (Keeps-simple _)
      & keep _ (Keeps-simple _)
      & keep _ (Keeps-case_calldataload ext)
      & keep _ (Keeps-simple _)
      & keep _ (Keeps-copy_to_mem ext _ 0)
      & keep _ (Keeps-simple _)
      & keep _ (Keeps-copy_to_mem ext _ 0)
      & keep _ (Keeps-simple _)
      & keep _ (Keeps-priced _ _)
      & keep _ (Keeps-case_extcodecopy ext)
      & keep _ (Keeps-require _ (Keeps-simple _))
      & keep _ (Keeps-case_returndatacopy ext)
      & keep _ (Keeps-priced _ _)
      & keep _ (Keeps-simple _)
      & keep _ (Keeps-simple _)
      & keep _ (Keeps-simple _)
      & keep _ (Keeps-simple _)
      & keep _ (Keeps-simple _)
      & keep _ Keeps-case_pop
      & keep _ (Keeps-case_mload ext)
      & keep _ (Keeps-case_mstore ext)
      & keep _ (Keeps-case_mstore8 ext)
      & keep _ (Keeps-priced _ _)
      & store
      & keep _ Keeps-case_jump
      & keep _ Keeps-case_jumpi
      & keep _ (Keeps-simple _)
      & keep _ (Keeps-simple _)
      & keep _ (Keeps-simple _)
      & keep _ Keeps-case_jumpdest
      & keep _ Keeps-case_push1
      & log 0
      & log 1
      & log 2
      & log 3
      & log 4
      & keep _ Keeps-case_pushc
      & keep _ Keeps-case_jumpc
      & keep _ Keeps-case_jumpci
      & create
      & keep _ (Keeps-case_call_op ext)
      & keep _ (Keeps-case_call_op ext)
      & keep _ (Keeps-case_return ext)
      & keep _ (Keeps-case_call_op ext)
      & keep _ (Keeps-case_call_op ext)
      & keep _ Keeps-case_create2_op
      & keep _ (Keeps-case_revert ext)
      & suicide
      & tt

  pub default_case-Keeps :
      (op : ℕ)
      → Keeps {W = W} c2 (
          if is_push op
          then case_push
          else if is_dup op
          then case_dup
          else if is_swap op
          then case_swap
          else case_invalid)
  unfolding case_dup
  default_case-Keeps op = elim (Bool-cases (is_push op)) [
    | inl e ↦ rw e Keeps-case_push
    | inr e ↦ elim (Bool-cases (is_dup op)) [
      | inl e' ↦ rw e (rw e' (Keeps-simple _))
      | inr e' ↦ elim (Bool-cases (is_swap op)) [
        | inl e'' ↦ rw e (rw e' (rw e'' Keeps-case_swap))
        | inr e'' ↦ rw e (rw e' (rw e'' Keeps-case_invalid))
      ]
    ]
  ]

  -- In a frame that must not change state, the case of every opcode leaves the accounts as they
  -- were, from every state, whether it returns or throws; and if it returns, m_bounce is as it
  -- was, is 0 or is caseCall, or it is caseCreate under a schedule that has CREATE2.
  pub dispatch-Same :
      (op : ℕ) (s : Vm W)
      → ext.static_call ≡ true
      → Ensures (λ _ t. Same c2 s t) (λ t. t.world ≡ s.world) (dispatch ext op s)
  unfolding dispatch
  dispatch-Same op s h =
      let all =
        cases-All (Keeps c2) (λ m k. k) (Keeps-case_log ext h) (Keeps-case_sstore ext h)
          (Keeps-case_create_op ext h) (Keeps-case_suicide ext h) in
      (lookup_case-All (Keeps c2) (cases ext) _ op all (default_case-Keeps op)).at s
