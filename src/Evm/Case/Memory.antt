-- ===== src/Evm/Case/Memory.antt =====
-- libevm/LegacyVM.cpp: the cases that read or grow memory, and LegacyVM::copyDataToMemory of
-- libevm/LegacyVMCalls.cpp.
use cpp_aec.Base.{
  ℕ, zero, suc, ◌+◌, ◌-◌, ◌*◌, ◌/◌, ◌%◌, ◌^◌, List, [], ◌∷◌, ltb, if◌then◌else◌, length, replicate,
}
use cpp_aec.Bytes.{from_big_endian, to_big_endian, write_at, slice}
use cpp_aec.Evm.Word.{u64_mod}
use cpp_aec.Evm.Machine.{
  ExtVmFace, Vm, M, Ctl, next, break, stopped, buffer_overrun, revert_instruction, ◌>>=◌, ◌>>◌,
  pure, raise, get, modify, throw_if,
}
use cpp_aec.Evm.Gas.{sp_at, set_spp, set_run_gas, to_int63, update_io_gas, update_mem, log_gas_mem}
use cpp_aec.Evm.Case.{require, set_bounce, set_copy_mem_size, not_static, pay_mem}

-- (unsigned)x
abbrev pub u32 : ℕ → ℕ
u32 x = x % 2 ^ 32

-- copyDataToMemory, with `index` and `offset` as they stand on the stack. `index + size` is an s512.
unfoldable pub size_to_be_copied : (n_data index size : ℕ) → ℕ
size_to_be_copied n_data index size =
    if ltb n_data (index + size)
    then (if ltb n_data index then 0 else n_data - index % u64_mod)
    else size

unfoldable pub copy_data_to_memory : List ℕ → (offset index size : ℕ) → List ℕ → List ℕ
unfolding size_to_be_copied write_at
copy_data_to_memory input offset index size mem =
    let n = size_to_be_copied (length input) index (size % u64_mod) in
    let copied = write_at mem (offset % u64_mod) (slice input (index % u64_mod) n) in
    write_at copied (offset % u64_mod + n) (replicate (size % u64_mod - n) 0)

module _ {W : Type 0} (ext : ExtVmFace W) where
  -- The output {move(m_mem), b, s}.
  abbrev mem_output : Vm W → List ℕ
  mem_output s = slice s.mem (sp_at s 0 % u64_mod) (sp_at s 1 % u64_mod)

  unfoldable pub case_return : M W Ctl
  unfolding pay_mem
  case_return = do
    set_copy_mem_size 0
    s ← get
    pay_mem ext (sp_at s 0) (sp_at s 1)
    modify (λ s. record s { output = mem_output s })
    set_bounce stopped
    pure break

  unfoldable pub case_revert : M W Ctl
  unfolding pay_mem
  case_revert = do
    require ext.evm_schedule.have_revert
    set_copy_mem_size 0
    s ← get
    pay_mem ext (sp_at s 0) (sp_at s 1)
    s ← get
    raise (revert_instruction (mem_output s))

  -- `updateMem(toInt63(m_SP[0]) + size); updateIOGas();`
  unfoldable pub pay_word : ℕ → M W (Unit {0})
  unfolding to_int63 update_mem update_io_gas
  pay_word size = do
    s ← get
    offset ← to_int63 (sp_at s 0)
    update_mem ext (offset + size)
    update_io_gas

  unfoldable pub case_mload : M W Ctl
  unfolding pay_word
  case_mload = do
    pay_word 32
    modify (λ s. set_spp s (from_big_endian (slice s.mem (u32 (sp_at s 0)) 32)))
    pure next

  unfoldable pub case_mstore : M W Ctl
  unfolding pay_word
  case_mstore = do
    pay_word 32
    modify (λ s. record s { mem = write_at s.mem (u32 (sp_at s 0)) (to_big_endian 32 (sp_at s 1)) })
    pure next

  unfoldable pub case_mstore8 : M W Ctl
  unfolding pay_word
  case_mstore8 = do
    pay_word 1
    modify (λ s. record s { mem = write_at s.mem (u32 (sp_at s 0)) (sp_at s 1 % 256 ∷ []) })
    pure next

  unfoldable pub case_sha3 : M W Ctl
  unfolding pay_mem
  case_sha3 = do
    s ← get
    g ←
        to_int63
          (ext.evm_schedule.sha3_gas + (sp_at s 1 + 31) / 32 * ext.evm_schedule.sha3_word_gas)
    set_run_gas g
    pay_mem ext (sp_at s 0) (sp_at s 1)
    modify (λ s. set_spp s (ext.sha3 (mem_output s)))
    pure next

  -- The topics m_SP[2] to m_SP[n + 1].
  topics : (n i : ℕ) → Vm W → List ℕ
  topics zero i s = []
  topics (suc n) i s = sp_at s i ∷ topics n (suc i) s

  -- LOG0 to LOG4, with the number of topics.
  unfoldable pub case_log : ℕ → M W Ctl
  unfolding topics log_gas_mem update_io_gas
  case_log n = do
    not_static ext
    log_gas_mem ext
    update_io_gas
    modify (λ s. record s { world = ext.log s.world (topics n 2 s) (mem_output s) })
    pure next

  -- The copying cases, from the slot `i` of the first of their three arguments on.
  unfoldable pub copy_to_mem : (Vm W → List ℕ) → ℕ → M W Ctl
  unfolding pay_mem copy_data_to_memory
  copy_to_mem input i = do
    s ← get
    n ← to_int63 (sp_at s (i + 2))
    set_copy_mem_size n
    pay_mem ext (sp_at s i) (sp_at s (i + 2))
    modify (λ s. record s {
      mem = copy_data_to_memory (input s) (sp_at s i) (sp_at s (i + 1)) (sp_at s (i + 2)) s.mem;
    })
    pure next

  unfoldable pub case_calldatacopy : M W Ctl
  case_calldatacopy = copy_to_mem (λ _. ext.input) 0

  unfoldable pub case_codecopy : M W Ctl
  case_codecopy = copy_to_mem (λ _. ext.code) 0

  -- endOfAccess is a bigint.
  unfoldable pub case_returndatacopy : M W Ctl
  case_returndatacopy = do
    require ext.evm_schedule.have_return_data
    s ← get
    throw_if (ltb (length s.return_data) (sp_at s 1 + sp_at s 2)) buffer_overrun
    copy_to_mem (λ s. s.return_data) 0

  unfoldable pub case_extcodecopy : M W Ctl
  case_extcodecopy = do
    g ← to_int63 ext.evm_schedule.extcodecopy_gas
    set_run_gas g
    copy_to_mem (λ s. ext.code_at s.world (sp_at s 0 % 2 ^ 160)) 1
