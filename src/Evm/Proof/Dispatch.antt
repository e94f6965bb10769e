-- ===== src/Evm/Proof/Dispatch.antt =====
-- The switch of LegacyVM::interpretCases: every opcode's case is sound at the price that
-- fetchInstruction set.
use cpp_aec.Base.{
  ℕ, ◌≤◌, ◌≡◌, refl, sym, Bool, true, false, Bool-cases, inl, inr, List, [], ◌∷◌, All, ◌==◌, ==_iff,
  subst, arith, if◌then◌else◌,
}
use cpp_aec.Evm.Instruction.{
  Tier, tier_zero, tier_base, tier_very_low, tier_low, tier_mid, tier_high, tier_ext, tier_special,
  tier_invalid, instruction_info, is_push, is_dup, is_swap,
}
use cpp_aec.Evm.Machine.{ExtVmFace, Vm, M, Ctl}
use cpp_aec.Evm.Gas.{tier_gas}
use cpp_aec.Evm.Case.Arithmetic.{
  case_add, case_addmod, case_and, case_byte, case_div, case_eq, case_gt, case_iszero, case_lt,
  case_mod, case_mul, case_mulmod, case_not, case_or, case_sar, case_sgt, case_shl, case_shr,
  case_slt, case_smod, case_sub, case_xor,
}
use cpp_aec.Evm.Case.Environment.{
  case_address, case_balance, case_blockhash, case_calldatasize, case_caller, case_callvalue,
  case_codesize, case_coinbase, case_difficulty, case_extcodesize, case_gaslimit, case_gasprice,
  case_number, case_origin, case_returndatasize, case_sload, case_timestamp,
}
use cpp_aec.Evm.Case.Memory.{case_calldatacopy, case_codecopy}
use cpp_aec.Evm.Case.Control.{
  case_dup, case_gas, case_invalid, case_msize, case_pc, case_push, case_swap,
}
use cpp_aec.Evm.Proof.Computing.{
  simple-Ensures, priced-Ensures, require-Ensures, case_sdiv-Ensures, case_signextend-Ensures,
  case_stop-Ensures, case_invalid-Ensures, case_pop-Ensures, case_pushc-Ensures, case_push1-Ensures,
  case_swap-Ensures, case_jump-Ensures, case_jumpi-Ensures, case_jumpc-Ensures, case_jumpci-Ensures,
  case_jumpdest-Ensures, case_push-Ensures, case_calldataload-Ensures, case_exp-Ensures,
  case_sstore-Ensures, case_suicide-Ensures, case_create_op-Ensures, case_create2_op-Ensures,
  case_call_op-Ensures,
}
use cpp_aec.Evm.Proof.Storing.{
  case_return-Ensures, case_revert-Ensures, case_mload-Ensures, case_mstore-Ensures,
  case_mstore8-Ensures, case_sha3-Ensures, case_copy-Ensures, case_returndatacopy-Ensures,
  case_extcodecopy-Ensures, case_log-Ensures,
}
use cpp_aec.Evm.Interpreter.{lookup_case, cases, dispatch}
use cpp_aec.Evm.Proof.Rules.{Ensures}
use cpp_aec.Evm.Proof.Sound.{Ready, CaseDone, CaseEnsures, NoMoreGas, IsSane}

abbrev is_paid : Tier → Bool
is_paid tier_zero = false
is_paid tier_base = true
is_paid tier_very_low = true
is_paid tier_low = true
is_paid tier_mid = true
is_paid tier_high = true
is_paid tier_ext = true
is_paid tier_special = false
is_paid tier_invalid = false

infixr 2 ◌&◌
abbrev ◌&◌ : {A B : Type 0} → A → B → A × B
a & b = (a, b)

module _ {W : Type 0} (ext : ExtVmFace W) where
  tier_paid : IsSane ext.evm_schedule → (t : Tier) → is_paid t ≡ true → 1 ≤ tier_gas ext t
  tier_paid k t h = rw k.tiers (ground arith)

  -- The case is right for the opcode, at the price of the opcode's tier.
  abbrev pub CaseAt : ℕ → M W Ctl → Type 0
  CaseAt op m =
      (s : Vm W)
      → Ready s
      → s.run_gas ≡ tier_gas ext (instruction_info op).gas_price_tier
      → Ensures (CaseDone s) (NoMoreGas s) (m s)

  free_at : (op : ℕ) {m : M W Ctl} → CaseEnsures 0 m → CaseAt op m
  free_at op h s r p = h s r (ground arith)

  paid_at :
      IsSane ext.evm_schedule
      → (op : ℕ) {m : M W Ctl} → is_paid (instruction_info op).gas_price_tier ≡ true
      → CaseEnsures 1 m
      → CaseAt op m
  paid_at k op q h s r p = h s r (rw p (tier_paid k _ q))

  lookup_case-At :
      (cs : List (ℕ × M W Ctl)) (d : M W Ctl) (op : ℕ)
      → All (λ r. CaseAt r.0 r.1) cs
      → CaseAt op d
      → CaseAt op (lookup_case cs d op)
  unfolding lookup_case
  lookup_case-At [] d op h g = g
  lookup_case-At ((k, c) ∷ cs) d op h g =
      let rest = lookup_case-At cs d op h.1 g in
      elim (Bool-cases (op == k)) [
        | inl e ↦ rw e (subst (λ o. CaseAt o c) (sym ((==_iff op k).0 e)) h.0)
        | inr e ↦ rw e rest
      ]

  cases-At : IsSane ext.evm_schedule → All (λ r. CaseAt r.0 r.1) (cases ext)
  unfolding instruction_info case_add case_addmod case_address case_and case_balance case_blockhash
      case_byte case_calldatacopy case_calldatasize case_caller case_callvalue case_codecopy
      case_codesize case_coinbase case_difficulty case_div case_eq case_extcodesize case_gas
      case_gaslimit case_gasprice case_gt case_iszero case_lt case_mod case_msize case_mul
      case_mulmod case_not case_number case_or case_origin case_pc case_returndatasize case_sar
      case_sgt case_shl case_shr case_sload case_slt case_smod case_sub case_timestamp case_xor
  cases-At k =
      free_at 0x00 case_stop-Ensures
      & paid_at k 0x01 refl (simple-Ensures _)
      & paid_at k 0x02 refl (simple-Ensures _)
      & paid_at k 0x03 refl (simple-Ensures _)
      & paid_at k 0x04 refl (simple-Ensures _)
      & paid_at k 0x05 refl case_sdiv-Ensures
      & paid_at k 0x06 refl (simple-Ensures _)
      & paid_at k 0x07 refl (simple-Ensures _)
      & paid_at k 0x08 refl (simple-Ensures _)
      & paid_at k 0x09 refl (simple-Ensures _)
      & free_at 0x0a (case_exp-Ensures ext k.exp)
      & paid_at k 0x0b refl case_signextend-Ensures
      & paid_at k 0x10 refl (simple-Ensures _)
      & paid_at k 0x11 refl (simple-Ensures _)
      & paid_at k 0x12 refl (simple-Ensures _)
      & paid_at k 0x13 refl (simple-Ensures _)
      & paid_at k 0x14 refl (simple-Ensures _)
      & paid_at k 0x15 refl (simple-Ensures _)
      & paid_at k 0x16 refl (simple-Ensures _)
      & paid_at k 0x17 refl (simple-Ensures _)
      & paid_at k 0x18 refl (simple-Ensures _)
      & paid_at k 0x19 refl (simple-Ensures _)
      & paid_at k 0x1a refl (simple-Ensures _)
      & paid_at k 0x1b refl (require-Ensures _ _ (simple-Ensures _))
      & paid_at k 0x1c refl (require-Ensures _ _ (simple-Ensures _))
      & paid_at k 0x1d refl (require-Ensures _ _ (simple-Ensures _))
      & free_at 0x20 (case_sha3-Ensures ext k)
      & paid_at k 0x30 refl (simple-Ensures _)
      & free_at 0x31 (priced-Ensures _ _ k.balance)
      & paid_at k 0x32 refl (simple-Ensures _)
      & paid_at k 0x33 refl (simple-Ensures _)
      & paid_at k 0x34 refl (simple-Ensures _)
      & paid_at k 0x35 refl (case_calldataload-Ensures ext)
      & paid_at k 0x36 refl (simple-Ensures _)
      & paid_at k 0x37 refl (case_copy-Ensures ext _ k)
      & paid_at k 0x38 refl (simple-Ensures _)
      & paid_at k 0x39 refl (case_copy-Ensures ext _ k)
      & paid_at k 0x3a refl (simple-Ensures _)
      & free_at 0x3b (priced-Ensures _ _ k.extcodesize)
      & free_at 0x3c (case_extcodecopy-Ensures ext k)
      & paid_at k 0x3d refl (require-Ensures _ _ (simple-Ensures _))
      & paid_at k 0x3e refl (case_returndatacopy-Ensures ext k)
      & free_at 0x40 (priced-Ensures _ _ k.blockhash)
      & paid_at k 0x41 refl (simple-Ensures _)
      & paid_at k 0x42 refl (simple-Ensures _)
      & paid_at k 0x43 refl (simple-Ensures _)
      & paid_at k 0x44 refl (simple-Ensures _)
      & paid_at k 0x45 refl (simple-Ensures _)
      & paid_at k 0x50 refl case_pop-Ensures
      & paid_at k 0x51 refl (case_mload-Ensures ext k)
      & paid_at k 0x52 refl (case_mstore-Ensures ext k)
      & paid_at k 0x53 refl (case_mstore8-Ensures ext k)
      & free_at 0x54 (priced-Ensures _ _ k.sload)
      & free_at 0x55 (case_sstore-Ensures ext k)
      & paid_at k 0x56 refl case_jump-Ensures
      & paid_at k 0x57 refl case_jumpi-Ensures
      & paid_at k 0x58 refl (simple-Ensures _)
      & paid_at k 0x59 refl (simple-Ensures _)
      & paid_at k 0x5a refl (simple-Ensures _)
      & free_at 0x5b case_jumpdest-Ensures
      & paid_at k 0x60 refl case_push1-Ensures
      & free_at 0xa0 (case_log-Ensures ext 0 k)
      & free_at 0xa1 (case_log-Ensures ext 1 k)
      & free_at 0xa2 (case_log-Ensures ext 2 k)
      & free_at 0xa3 (case_log-Ensures ext 3 k)
      & free_at 0xa4 (case_log-Ensures ext 4 k)
      & paid_at k 0xac refl case_pushc-Ensures
      & paid_at k 0xad refl case_jumpc-Ensures
      & paid_at k 0xae refl case_jumpci-Ensures
      & free_at 0xf0 (case_create_op-Ensures ext)
      & free_at 0xf1 (case_call_op-Ensures ext)
      & free_at 0xf2 (case_call_op-Ensures ext)
      & free_at 0xf3 (case_return-Ensures ext k)
      & free_at 0xf4 (case_call_op-Ensures ext)
      & free_at 0xfa (case_call_op-Ensures ext)
      & free_at 0xfb (case_create2_op-Ensures ext)
      & free_at 0xfd (case_revert-Ensures ext k)
      & free_at 0xff (case_suicide-Ensures ext)
      & tt

  default_case-At :
      IsSane ext.evm_schedule
      → (op : ℕ)
      → CaseAt op (
          if is_push op
          then case_push
          else if is_dup op
          then case_dup
          else if is_swap op
          then case_swap
          else case_invalid)
  unfolding case_dup instruction_info
  default_case-At k op = elim (Bool-cases (is_push op)) [
    | inl e ↦ rw e (λ s h p. case_push-Ensures s h (rw p (tier_paid k tier_very_low refl)))
    | inr e ↦ elim (Bool-cases (is_dup op)) [
      | inl e' ↦
          rw e (rw e' (λ s h p. simple-Ensures _ s h (rw p (tier_paid k tier_very_low refl))))
      | inr e' ↦ elim (Bool-cases (is_swap op)) [
        | inl e'' ↦ rw e (
            rw e' (rw e'' (λ s h p. case_swap-Ensures s h (rw p (tier_paid k tier_very_low refl)))))
        | inr e'' ↦ rw e (rw e' (rw e'' (λ s h p. case_invalid-Ensures s h (ground arith))))
      ]
    ]
  ]

  pub dispatch-At : IsSane ext.evm_schedule → (op : ℕ) → CaseAt op (dispatch ext op)
  unfolding dispatch
  dispatch-At k op = lookup_case-At (cases ext) _ op (cases-At k) (default_case-At k op)

  -- Under sane prices, from any state that fetchInstruction leaves with the price of the opcode's
  -- tier, the opcode's case keeps the stack pointer within the stack, the gas within 64 bits and
  -- memory in whole words. A case that goes on has spent gas; one that leaves the loop has added
  -- none and has set m_bounce to another function; one that throws has added no gas.
  pub dispatch-CaseDone :
      (op : ℕ) (s : Vm W)
      → IsSane ext.evm_schedule
      → Ready s
      → s.run_gas ≡ tier_gas ext (instruction_info op).gas_price_tier
      → Ensures (CaseDone s) (NoMoreGas s) (dispatch ext op s)
  dispatch-CaseDone op s k h p = dispatch-At k op s h p
