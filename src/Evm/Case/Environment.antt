-- ===== src/Evm/Case/Environment.antt =====
-- libevm/LegacyVM.cpp: the cases that read the message, the block and the accounts, and those that
-- write storage.
use cpp_aec.Base.{
  ℕ, zero, suc, ◌+◌, ◌%◌, ◌^◌, List, [], ◌∷◌, Bool, ltb, leb, ◌==◌, if◌then◌else◌, length, get_or,
  ◌&&◌, ◌||◌, not,
}
use cpp_aec.Bytes.{from_big_endian, slice}
use cpp_aec.Evm.Word.{u256_mod, u64_mod}
use cpp_aec.Evm.Schedule.{
  suicide_charges_new_account_gas, zero_value_transfer_charges_new_account_gas,
}
use cpp_aec.Evm.Machine.{
  ExtVmFace, Vm, M, Ctl, next, break, stopped, ◌>>=◌, ◌>>◌, pure, get, modify,
}
use cpp_aec.Evm.Gas.{sp_at, set_sp, set_run_gas, to_int63, update_io_gas}
use cpp_aec.Evm.Case.{simple, priced, require, set_bounce, not_static}

-- asAddress
abbrev pub as_address : ℕ → ℕ
as_address x = x % 2 ^ 160

-- The 32 bytes from `i` on, with zeros past the end: the loop of CALLDATALOAD.
unfoldable pub padded : List ℕ → (i n : ℕ) → List ℕ
padded input i zero = []
padded input i (suc n) = get_or input i 0 ∷ padded input (i + 1) n

-- The three branches of CALLDATALOAD.
unfoldable pub calldataload : List ℕ → ℕ → ℕ
unfolding padded
calldataload input i =
    if ltb (i + 31) (length input)
    then from_big_endian (slice input (i % u64_mod) 32)
    else if leb (length input) i
    then 0
    else from_big_endian (padded input (i % u64_mod) 32)

module _ {W : Type 0} (ext : ExtVmFace W) where
  unfoldable pub case_address : M W Ctl
  case_address = simple (λ _. ext.my_address)

  unfoldable pub case_origin : M W Ctl
  case_origin = simple (λ _. ext.origin)

  unfoldable pub case_balance : M W Ctl
  case_balance =
      priced ext.evm_schedule.balance_gas (λ s. ext.balance s.world (as_address (sp_at s 0)))

  unfoldable pub case_caller : M W Ctl
  case_caller = simple (λ _. ext.caller)

  unfoldable pub case_callvalue : M W Ctl
  case_callvalue = simple (λ _. ext.value)

  -- Writes m_SP[0].
  unfoldable pub case_calldataload : M W Ctl
  unfolding calldataload update_io_gas
  case_calldataload = do
    update_io_gas
    modify (λ s. set_sp s 0 (calldataload ext.input (sp_at s 0)))
    pure next

  unfoldable pub case_calldatasize : M W Ctl
  case_calldatasize = simple (λ _. length ext.input)

  unfoldable pub case_returndatasize : M W Ctl
  case_returndatasize = do
    require ext.evm_schedule.have_return_data
    simple (λ s. length s.return_data)

  unfoldable pub case_codesize : M W Ctl
  case_codesize = simple (λ _. length ext.code)

  unfoldable pub case_extcodesize : M W Ctl
  case_extcodesize =
      priced ext.evm_schedule.extcodesize_gas
        (λ s. ext.code_size_at s.world (as_address (sp_at s 0)))

  unfoldable pub case_gasprice : M W Ctl
  case_gasprice = simple (λ _. ext.gas_price)

  unfoldable pub case_blockhash : M W Ctl
  case_blockhash = priced ext.evm_schedule.blockhash_gas (λ s. ext.block_hash (sp_at s 0))

  unfoldable pub case_coinbase : M W Ctl
  case_coinbase = simple (λ _. ext.author)

  unfoldable pub case_timestamp : M W Ctl
  case_timestamp = simple (λ _. ext.timestamp)

  unfoldable pub case_number : M W Ctl
  case_number = simple (λ _. ext.number)

  unfoldable pub case_difficulty : M W Ctl
  case_difficulty = simple (λ _. ext.difficulty)

  unfoldable pub case_gaslimit : M W Ctl
  case_gaslimit = simple (λ _. ext.gas_limit)

  unfoldable pub case_sload : M W Ctl
  case_sload = priced ext.evm_schedule.sload_gas (λ s. ext.store s.world (sp_at s 0))

  -- updateSSGas: its price, and whether the write earns a refund.
  unfoldable pub ss_gas : Vm W → ℕ
  ss_gas s =
      if ext.store s.world (sp_at s 0) == 0 && not (sp_at s 1 == 0)
      then ext.evm_schedule.sstore_set_gas
      else ext.evm_schedule.sstore_reset_gas

  unfoldable pub earns_refund : Vm W → Bool
  earns_refund s = not (ext.store s.world (sp_at s 0) == 0) && sp_at s 1 == 0

  unfoldable pub update_ss_gas : M W (Unit {0})
  unfolding ss_gas earns_refund to_int63
  update_ss_gas = do
    s ← get
    g ← to_int63 (ss_gas s)
    set_run_gas g
    modify (λ s.
        if earns_refund s
        then record s { refunds = (s.refunds + ext.evm_schedule.sstore_refund_gas) % u256_mod }
        else s)

  unfoldable pub case_sstore : M W Ctl
  unfolding update_ss_gas update_io_gas
  case_sstore = do
    not_static ext
    update_ss_gas
    update_io_gas
    modify (λ s. record s { world = ext.set_store s.world (sp_at s 0) (sp_at s 1) })
    pure next

  -- The price of SUICIDE beyond suicideGas.
  unfoldable pub suicide_extra : Vm W → ℕ
  suicide_extra s =
      if (ltb 0 (ext.balance s.world ext.my_address)
          || zero_value_transfer_charges_new_account_gas ext.evm_schedule)
        && suicide_charges_new_account_gas ext.evm_schedule
        && not (ext.exists s.world (as_address (sp_at s 0)))
      then ext.evm_schedule.call_new_account_gas
      else 0

  unfoldable pub case_suicide : M W Ctl
  unfolding suicide_extra to_int63 update_io_gas
  case_suicide = do
    not_static ext
    g ← to_int63 ext.evm_schedule.suicide_gas
    set_run_gas g
    modify (λ s. record s { run_gas = (s.run_gas + suicide_extra s) % u64_mod })
    update_io_gas
    modify (λ s. record s { world = ext.suicide s.world (as_address (sp_at s 0)) })
    set_bounce stopped
    pure break
