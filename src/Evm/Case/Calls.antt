-- ===== src/Evm/Case/Calls.antt =====
-- libevm/LegacyVMCalls.cpp: caseCreate, caseCall and caseCallSetup, and the cases of
-- libevm/LegacyVM.cpp that lead to them.
use cpp_aec.Base.{
  ℕ, ◌+◌, ◌-◌, ◌/◌, ◌%◌, min, max, [], Bool, ltb, leb, ◌==◌, if◌then◌else◌, take, ◌&&◌, ◌||◌, not,
}
use cpp_aec.Bytes.{write_at, slice}
use cpp_aec.Evm.Word.{u256_mod, u64_mod}
use cpp_aec.Evm.Schedule.{static_call_depth_limit, zero_value_transfer_charges_new_account_gas}
use cpp_aec.Evm.Machine.{
  ExtVmFace, CallParameters, Vm, bad_instruction, disallowed_state_change, M, Ctl, break,
  interpret_cases, ◌>>=◌, ◌>>◌, pure, get, modify, throw_if, branch,
}
use cpp_aec.Evm.Machine
use cpp_aec.Evm.Gas.{sp_at, set_spp, set_run_gas, to_int63, mem_need, update_io_gas, update_mem}
use cpp_aec.Evm.Case.{require, set_bounce, not_static, pay_mem}
use cpp_aec.Evm.Case.Environment.{as_address}
use cpp_aec.Evm.Case.Control.{step_pc}

abbrev pub op_create : ℕ
op_create = 0xf0

abbrev pub op_call : ℕ
op_call = 0xf1

abbrev pub op_callcode : ℕ
op_callcode = 0xf2

abbrev pub op_delegatecall : ℕ
op_delegatecall = 0xf4

abbrev pub op_staticcall : ℕ
op_staticcall = 0xfa

abbrev pub have_value_arg : ℕ → Bool
have_value_arg op = op == op_call || op == op_callcode

-- What "all but one 64th" leaves of an amount of gas.
abbrev pub all_but_one_64th : ℕ → ℕ
all_but_one_64th g = g - g / 64

module _ {W : Type 0} where
  -- The slots of the salt, the offset and the size: CREATE has no salt.
  abbrev pub salt_of : Vm W → ℕ
  salt_of s = if s.op == op_create then 0 else sp_at s 1

  abbrev pub init_off : Vm W → ℕ
  init_off s = sp_at s (if s.op == op_create then 1 else 2)

  abbrev pub init_size : Vm W → ℕ
  init_size s = sp_at s (if s.op == op_create then 2 else 3)

  -- m_SP[2] of a call that has a value, and valueTransfer.
  abbrev pub call_value : Vm W → ℕ
  call_value s = if have_value_arg s.op then sp_at s 2 else 0

  -- Where the four arguments that describe memory begin.
  abbrev pub sizes_offset : Vm W → ℕ
  sizes_offset s = if have_value_arg s.op then 3 else 2

  unfoldable pub add_run_gas : ℕ → M W (Unit {0})
  unfolding to_int63
  add_run_gas g = do g ← to_int63 g; modify (λ s. record s { run_gas = (s.run_gas + g) % u64_mod })

  -- The memory that the arguments and the result of a call need.
  unfoldable pub call_mem_need : Vm W → M W ℕ
  unfolding mem_need
  call_mem_need s = do
    let k = sizes_offset s
    input ← mem_need (sp_at s k) (sp_at s (k + 1))
    output ← mem_need (sp_at s (k + 2)) (sp_at s (k + 3))
    pure (max input output)

  -- The branch in which the call is not made.
  unfoldable pub refuse_call : ℕ → M W (Unit {0})
  refuse_call gas =
      modify (λ s. record (set_spp s 0) { io_gas = (s.io_gas + gas % u64_mod) % u64_mod })

module _ {W : Type 0} (ext : ExtVmFace W) where
  -- CREATE2 asks for the feature and not for a message that may change state.
  unfoldable pub case_create2_op : M W Ctl
  case_create2_op = do
    require ext.evm_schedule.have_create2
    set_bounce Machine.case_create
    pure break

  unfoldable pub case_create_op : M W Ctl
  case_create_op = do not_static ext; set_bounce Machine.case_create; pure break

  unfoldable pub case_call_op : M W Ctl
  case_call_op = do
    s ← get
    throw_if (s.op == op_delegatecall && not ext.evm_schedule.have_delegate_call) bad_instruction
    throw_if (s.op == op_staticcall && not ext.evm_schedule.have_static_call) bad_instruction
    throw_if (s.op == op_call && ext.static_call && not (sp_at s 2 == 0)) disallowed_state_change
    set_bounce Machine.case_call
    pure break

  abbrev pub create_gas : Vm W → ℕ
  create_gas s =
      if static_call_depth_limit ext.evm_schedule then s.io_gas else all_but_one_64th s.io_gas

  -- The call of m_ext->create, and `*m_io_gas_p -= (createGas - gas)` over u256.
  unfoldable pub do_create : M W (Unit {0})
  do_create = modify (λ s.
      let paid = create_gas s in
      let init_code = slice s.mem (init_off s % u64_mod) (init_size s % u64_mod) in
      let result = ext.create s.world (sp_at s 0) paid init_code s.op (salt_of s) in
      record (set_spp s result.address) {
        return_data = result.output;
        world = result.world;
        io_gas =
            (s.io_gas + u256_mod - (paid + u256_mod - result.gas) % u256_mod) % u256_mod % u64_mod;
      })

  -- The test of the balance and the depth that every outgoing call makes.
  abbrev pub can_send : Vm W → ℕ → Bool
  can_send s value = leb value (ext.balance s.world ext.my_address) && ltb ext.depth 1024

  unfoldable pub case_create : M W (Unit {0})
  unfolding to_int63 pay_mem do_create
  case_create = do
    set_bounce interpret_cases
    g ← to_int63 ext.evm_schedule.create_gas
    set_run_gas g
    s ← get
    pay_mem ext (init_off s) (init_size s)
    modify (λ s. record s { return_data = [] })
    s ← get
    branch (can_send s (sp_at s 0)) do_create (modify (λ s. set_spp s 0))
    step_pc

  -- The first surcharge of caseCallSetup: the callee is to be created.
  unfoldable pub new_account_gas : Vm W → ℕ
  new_account_gas s =
      if s.op == op_call
        && not (ext.exists s.world (as_address (sp_at s 1)))
        && (ltb 0 (sp_at s 2) || zero_value_transfer_charges_new_account_gas ext.evm_schedule)
      then ext.evm_schedule.call_new_account_gas
      else 0

  -- The second: value is sent.
  unfoldable pub value_transfer_gas : Vm W → ℕ
  value_transfer_gas s =
      if ltb 0 (call_value s) then ext.evm_schedule.call_value_transfer_gas else 0

  -- The gas that the caller grants: what it names, or at most all but one 64th of what it has.
  unfoldable pub granted_gas : Vm W → ℕ
  granted_gas s =
      if static_call_depth_limit ext.evm_schedule
      then sp_at s 0
      else min (sp_at s 0) (all_but_one_64th s.io_gas)

  -- What the callee gets on top when value is sent.
  unfoldable pub stipend : Vm W → ℕ
  stipend s = if ltb 0 (call_value s) then ext.evm_schedule.call_stipend else 0

  -- The part of caseCallSetup that follows updateMem: the price is paid, and then the gas of the call.
  unfoldable pub grant_call : M W ℕ
  unfolding update_io_gas granted_gas to_int63 stipend
  grant_call = do
    update_io_gas
    s ← get
    let gas = granted_gas s
    g ← to_int63 gas
    set_run_gas g
    update_io_gas
    pure ((gas + stipend s) % u256_mod)

  -- caseCallSetup up to the parameters that are not gas; returns callParams->gas.
  unfoldable pub call_setup : M W ℕ
  unfolding to_int63 add_run_gas new_account_gas value_transfer_gas call_mem_need update_mem
      update_io_gas granted_gas
  call_setup = do
    g ← to_int63 ext.evm_schedule.call_gas
    set_run_gas g
    s ← get
    add_run_gas (new_account_gas s)
    add_run_gas (value_transfer_gas s)
    need ← call_mem_need s
    modify (λ s. record s { new_mem_size = need })
    update_mem ext need
    grant_call

  -- The parameters that caseCallSetup fills in.
  unfoldable pub call_parameters : Vm W → ℕ → CallParameters
  call_parameters s gas =
      let k = sizes_offset s in
      record {
        sender_address = if s.op == op_delegatecall then ext.caller else ext.my_address;
        code_address = as_address (sp_at s 1);
        receive_address =
            if s.op == op_call || s.op == op_staticcall
            then as_address (sp_at s 1)
            else ext.my_address;
        value_transfer = call_value s;
        apparent_value =
            if have_value_arg s.op
            then sp_at s 2
            else if s.op == op_delegatecall
            then ext.value
            else 0;
        gas = gas;
        input_data = slice s.mem (sp_at s k % u64_mod) (sp_at s (k + 1) % u64_mod);
        static_call = s.op == op_staticcall || ext.static_call;
      }

  -- The call of m_ext->call, with the result put into memory as far as there is room for it, and the
  -- gas that is left given back.
  unfoldable pub do_call : ℕ → M W (Unit {0})
  unfolding call_parameters
  do_call gas = modify (λ s.
      let k = sizes_offset s in
      let result = ext.call s.world (call_parameters s gas) in
      record (set_spp s (if result.success then 1 else 0)) {
        mem =
            write_at s.mem (sp_at s (k + 2) % u64_mod)
              (take (sp_at s (k + 3) % u64_mod) result.output);
        return_data = result.output;
        world = result.world;
        io_gas = (s.io_gas + result.gas % u64_mod) % u64_mod;
      })

  unfoldable pub case_call : M W (Unit {0})
  unfolding call_setup do_call refuse_call
  case_call = do
    set_bounce interpret_cases
    modify (λ s. record s { return_data = [] })
    gas ← call_setup
    s ← get
    branch (can_send s (call_value s)) (do_call gas) (refuse_call gas)
    step_pc
