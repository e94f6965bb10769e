-- ===== src/Evm/Proof/Deep.antt =====
-- LegacyVM::exec in a frame at depth 1024 or below: no other frame is called.
use cpp_aec.Base.{arith, [], ℕ, zero, suc, ◌≡◌, refl, ap, ◌∙◌, false, ltb, List}
use cpp_aec.Evm.Machine.{
  ExtVmFace, Vm, M, Ctl, get, modify, branch, on_ok, ◌>>=◌, ◌>>◌, CallParameters, CallResult,
  CreateResult, Outcome, Bounce, init_entry, interpret_cases, stopped,
}
use cpp_aec.Evm.Machine
use cpp_aec.Evm.Gas.{
  to_int63, set_run_gas, sp_at, set_spp, charge_mem, update_gas, update_mem, log_gas_mem,
  fetch_instruction, gas_for_mem,
}
use cpp_aec.Evm.Case.{pay_mem}
use cpp_aec.Evm.Case.Arithmetic.{case_shl, case_shr, case_sar, exp_gas_of, case_exp}
use cpp_aec.Evm.Case.Environment.{
  case_address, case_origin, case_balance, case_caller, case_callvalue, case_calldataload,
  case_calldatasize, case_returndatasize, case_codesize, case_extcodesize, case_gasprice,
  case_blockhash, case_coinbase, case_timestamp, case_number, case_difficulty, case_gaslimit,
  case_sload, ss_gas, earns_refund, update_ss_gas, case_sstore, suicide_extra, case_suicide,
}
use cpp_aec.Evm.Case.Memory.{
  case_return, case_revert, pay_word, case_mload, case_mstore, case_mstore8, case_sha3, case_log,
  copy_to_mem, case_calldatacopy, case_codecopy, case_returndatacopy, case_extcodecopy,
}
use cpp_aec.Evm.Case.Calls.{
  init_off, init_size, can_send, call_value, refuse_call, case_create2_op, case_create_op,
  case_call_op, do_create, case_create, new_account_gas, value_transfer_gas, granted_gas, stipend,
  grant_call, call_setup, do_call, case_call,
}
use cpp_aec.Evm.Interpreter.{
  after_case, entered, dispatch, interpret, run_init_entry, bounce_step, on_step, exec_loop, exec,
}
use cpp_aec.Evm.Case.Control.{step_pc}

module _ {W : Type 0} (ext : ExtVmFace W) (call : W → CallParameters → CallResult W)
    (create : W → (endowment gas : ℕ) → (init_code : List ℕ) → (op salt : ℕ) → CreateResult W) where
  -- The same view with other frames to call.
  abbrev pub with_frames : ExtVmFace W
  with_frames = record ext { call = call; create = create }

  dispatch-with_frames : (op : ℕ) → dispatch ext op ≡ dispatch with_frames op
  unfolding dispatch charge_mem update_gas update_mem log_gas_mem gas_for_mem pay_mem case_shl
      case_shr case_sar exp_gas_of case_exp case_address case_origin case_balance case_caller
      case_callvalue case_calldataload case_calldatasize case_returndatasize case_codesize
      case_extcodesize case_gasprice case_blockhash case_coinbase case_timestamp case_number
      case_difficulty case_gaslimit case_sload ss_gas earns_refund update_ss_gas case_sstore
      suicide_extra case_suicide case_return case_revert pay_word case_mload case_mstore
      case_mstore8 case_sha3 case_log copy_to_mem case_calldatacopy case_codecopy
      case_returndatacopy case_extcodecopy case_create2_op case_create_op case_call_op
  dispatch-with_frames op = refl

  fetch_instruction-with_frames : fetch_instruction ext ≡ fetch_instruction with_frames
  unfolding fetch_instruction log_gas_mem gas_for_mem charge_mem update_gas
  fetch_instruction-with_frames = refl

  interpret-with_frames : (s : Vm W) → interpret ext s ≡ interpret with_frames s
  unfolding interpret
  interpret-with_frames s =
      ap (λ (m : M W (Unit {0})). (do m; t ← get; c ← dispatch ext t.op; after_case c) s)
        fetch_instruction-with_frames
      ∙ ap
          (λ (d : ℕ → M W Ctl).
            (do fetch_instruction with_frames; t ← get; c ← d t.op; after_case c) s)
          (λ i op. dispatch-with_frames op i)

  call_setup-with_frames : call_setup ext ≡ call_setup with_frames
  unfolding call_setup new_account_gas value_transfer_gas granted_gas stipend grant_call update_mem
      update_gas charge_mem gas_for_mem
  call_setup-with_frames = refl

  pay_mem-with_frames : (a b : ℕ) → pay_mem ext a b ≡ pay_mem with_frames a b
  unfolding pay_mem update_mem update_gas charge_mem gas_for_mem
  pay_mem-with_frames a b = refl

  can_send-deep : (s : Vm W) (v : ℕ) → ltb ext.depth 1024 ≡ false → can_send ext s v ≡ false
  can_send-deep s v h = ground arith

  -- What follows the setup of a call.
  abbrev sends : (ExtVmFace W) → ℕ → M W (Unit {0})
  sends e gas = do
    s ← get
    branch (can_send e s (call_value s)) (do_call e gas) (refuse_call gas)
    step_pc

  sends-with_frames :
      ltb ext.depth 1024 ≡ false → (gas : ℕ) (s : Vm W) → sends ext gas s ≡ sends with_frames gas s
  sends-with_frames h gas s = rw (can_send-deep s (call_value s) h) refl

  case_call-with_frames :
      ltb ext.depth 1024 ≡ false → (s : Vm W) → case_call ext s ≡ case_call with_frames s
  unfolding case_call
  case_call-with_frames h s =
      let s' = record s { bounce = interpret_cases; return_data = [] } in
      ap (λ (m : M W ℕ). on_ok (m s') (sends ext)) call_setup-with_frames
      ∙ ap (λ (f : ℕ → M W (Unit {0})). on_ok (call_setup with_frames s') f)
          (λ i gas t. sends-with_frames h gas t i)

  -- What follows the payment of a creation.
  abbrev creates : ExtVmFace W → M W (Unit {0})
  creates e = do
    modify (λ s. record s { return_data = [] })
    s ← get
    branch (can_send e s (sp_at s 0)) (do_create e) (modify (λ s. set_spp s 0))
    step_pc

  creates-with_frames :
      ltb ext.depth 1024 ≡ false → (s : Vm W) → creates ext s ≡ creates with_frames s
  creates-with_frames h s =
      let s' = record s { return_data = [] } in rw (can_send-deep s' (sp_at s' 0) h) refl

  -- caseCreate up to that.
  abbrev paying : (ℕ → ℕ → M W (Unit {0})) → M W (Unit {0}) → M W (Unit {0})
  paying pay rest = do
    g ← to_int63 ext.evm_schedule.create_gas
    set_run_gas g
    s ← get
    pay (init_off s) (init_size s)
    rest

  case_create-with_frames :
      ltb ext.depth 1024 ≡ false → (s : Vm W) → case_create ext s ≡ case_create with_frames s
  unfolding case_create
  case_create-with_frames h s =
      let s' = record s { bounce = interpret_cases } in
      ap (λ (pay : ℕ → ℕ → M W (Unit {0})). paying pay (creates ext) s')
        (λ i a b. pay_mem-with_frames a b i)
      ∙ ap (λ (rest : M W (Unit {0})). paying (pay_mem with_frames) rest s')
          (λ i t. creates-with_frames h t i)

  bounce_step-with_frames :
      ltb ext.depth 1024 ≡ false
      → (b : Bounce) (s : Vm W) → bounce_step ext b s ≡ bounce_step with_frames b s
  unfolding bounce_step run_init_entry
  bounce_step-with_frames h init_entry s = refl
  bounce_step-with_frames h interpret_cases s = interpret-with_frames s
  bounce_step-with_frames h Machine.case_create s = case_create-with_frames h s
  bounce_step-with_frames h Machine.case_call s = case_call-with_frames h s
  bounce_step-with_frames h stopped s = refl

  exec_loop-with_frames :
      ltb ext.depth 1024 ≡ false
      → (fuel : ℕ) (s : Vm W) → exec_loop ext fuel s ≡ exec_loop with_frames fuel s
  unfolding exec_loop
  exec_loop-with_frames h zero s = refl
  exec_loop-with_frames h (suc fuel) s =
      ap (λ o. on_step o (λ t. exec_loop ext fuel t)) (bounce_step-with_frames h s.bounce s)
      ∙ ap (on_step (bounce_step with_frames s.bounce s)) (λ i t. exec_loop-with_frames h fuel t i)

  -- At depth 1024 or more, exec does not depend on what calls and creations of other frames do:
  -- whatever functions take their place, it returns or throws the same.
  pub exec-with_frames :
      ltb ext.depth 1024 ≡ false
      → (fuel gas : ℕ) (w : W) → exec ext fuel gas w ≡ exec with_frames fuel gas w
  unfolding exec
  exec-with_frames h fuel gas w = exec_loop-with_frames h fuel (entered gas w)
