-- ===== src/Evm/Proof/Storing.antt =====
-- The cases of libevm/LegacyVM.cpp that read or grow memory.
use cpp_aec.Base.{
  ℕ, ◌+◌, ◌-◌, ◌*◌, ◌/◌, ◌%◌, ◌^◌, ◌≤◌, ◌<◌, ◌≡◌, refl, List, [], ◌∷◌, length, length-set, arith,
  replicate, ◌∙◌, not, if◌then◌else◌, ◌==◌, ltb,
}
use cpp_aec.Bytes.{from_big_endian, to_big_endian, slice, length-write_at}
use cpp_aec.Evm.Word.{u64_mod}
use cpp_aec.Evm.Machine.{
  ExtVmFace, Vm, M, Ctl, next, continue, break, disallowed_state_change, bad_instruction,
  buffer_overrun, interpret_cases, ◌>>=◌,
}
use cpp_aec.Evm.Gas.{sp_at, update_io_gas, update_mem, log_gas_mem, mem_need}
use cpp_aec.Evm.Case.{pay_mem}
use cpp_aec.Evm.Case.Memory.{
  u32, size_to_be_copied, copy_data_to_memory, case_return, case_revert, pay_word, case_mload,
  case_mstore, case_mstore8, case_sha3, case_log, copy_to_mem, case_returndatacopy,
  case_extcodecopy,
}
use cpp_aec.Evm.Proof.Rules.{
  Ensures, Ensures-bind, Ensures-follow, Ensures-to_int63, Ensures-throw_if, Ensures-mono,
}
use cpp_aec.Evm.Proof.Memory.{
  MemPaid, MemUpdated, Payable, SameGas, pay_mem-Ensures, update_mem-Ensures,
}
use cpp_aec.Evm.Proof.Sound.{Sound, Ready, CaseDone, CaseEnsures, NoMoreGas, IsSane}

length-copy_data :
    (input : List ℕ) (offset index size : ℕ) (mem : List ℕ)
    → length (copy_data_to_memory input offset index size mem) ≡ length mem
unfolding copy_data_to_memory
length-copy_data input offset index size mem =
    let n = size_to_be_copied (length input) index (size % u64_mod) in
    length-write_at _ (offset % u64_mod + n) (replicate (size % u64_mod - n) 0)
    ∙ length-write_at mem (offset % u64_mod) (slice input (index % u64_mod) n)

repriced :
    {W : Type 0} (s t : Vm W) (g : ℕ) (c : Ctl)
    → CaseDone (record s { run_gas = g }) c t
    → CaseDone s c t
repriced s t g next h = ground arith
repriced s t g continue h = ground arith
repriced s t g break h = ground arith

module _ {W : Type 0} (ext : ExtVmFace W) where
  pub pay_word-Ensures :
      (size : ℕ) (s : Vm W)
      → size ≤ 32
      → length s.mem % 32 ≡ 0
      → Payable s
      → ext.evm_schedule.copy_gas ≤ 15
      → Ensures (λ _ t. MemPaid (sp_at s 0) size s t) (SameGas s) (pay_word ext size s)
  unfolding pay_word
  pay_word-Ensures size s b hm h c = Ensures-to_int63 (sp_at s 0) _ s refl (λ le.
      Ensures-bind (update_mem ext (sp_at s 0 + size)) _ s
        (update_mem-Ensures ext _ s (ground arith) hm h c)
        (λ _ u j. record { after = ground arith }))

  Ready-Payable : (s : Vm W) → Ready s → Payable s
  Ready-Payable s h = ground arith

  pub case_return-Ensures : IsSane ext.evm_schedule → CaseEnsures 0 (case_return ext)
  unfolding case_return
  case_return-Ensures k s h p =
      let s' = record s { copy_mem_size = 0 } in
      Ensures-follow (pay_mem ext (sp_at s 0) (sp_at s 1)) _ s'
        (pay_mem-Ensures ext _ _ s' (ground arith) (ground arith) k.copy) (λ t e. ground arith)
        (λ _ t j. record { after = ground arith })

  pub case_revert-Ensures : IsSane ext.evm_schedule → CaseEnsures 0 (case_revert ext)
  unfolding case_revert
  case_revert-Ensures k s h p =
      let s' = record s { copy_mem_size = 0 } in
      Ensures-throw_if (not ext.evm_schedule.have_revert) bad_instruction _ s (ground arith) (
        Ensures-follow (pay_mem ext (sp_at s 0) (sp_at s 1)) _ s'
          (pay_mem-Ensures ext _ _ s' (ground arith) (ground arith) k.copy) (λ t e. ground arith)
          (λ _ t j. record { after = ground arith }))

  -- What MLOAD, MSTORE and MSTORE8 pay, whatever they then do.
  word_case-Ensures :
      (size : ℕ) (f : Unit {0} → M W Ctl) (s : Vm W)
      → size ≤ 32
      → IsSane ext.evm_schedule
      → Ready s
      → ((t : Vm W) → MemPaid (sp_at s 0) size s t → Ensures (CaseDone s) (NoMoreGas s) (f tt t))
      → Ensures (CaseDone s) (NoMoreGas s) ((pay_word ext size >>= f) s)
  word_case-Ensures size f s b k h g =
      Ensures-follow (pay_word ext size) f s
        (pay_word-Ensures size s b (ground arith) (Ready-Payable s h) k.copy) (λ t e. ground arith)
        (λ _ t j. g t j)

  pub case_mload-Ensures : IsSane ext.evm_schedule → CaseEnsures 1 (case_mload ext)
  unfolding case_mload
  case_mload-Ensures k s h p = word_case-Ensures 32 _ s (ground arith) k h (λ t j.
      let l = length-set t.stack t.spp (from_big_endian (slice t.mem (u32 (sp_at t 0)) 32)) in
      record { after = ground arith })

  pub case_mstore-Ensures : IsSane ext.evm_schedule → CaseEnsures 1 (case_mstore ext)
  unfolding case_mstore
  case_mstore-Ensures k s h p = word_case-Ensures 32 _ s (ground arith) k h (λ t j.
      let l = length-write_at t.mem (u32 (sp_at t 0)) (to_big_endian 32 (sp_at t 1)) in
      record { after = ground arith })

  pub case_mstore8-Ensures : IsSane ext.evm_schedule → CaseEnsures 1 (case_mstore8 ext)
  unfolding case_mstore8
  case_mstore8-Ensures k s h p = word_case-Ensures 1 _ s (ground arith) k h (λ t j.
      let l = length-write_at t.mem (u32 (sp_at t 0)) (sp_at t 1 % 256 ∷ []) in
      record { after = ground arith })

  pub case_sha3-Ensures : IsSane ext.evm_schedule → CaseEnsures 0 (case_sha3 ext)
  unfolding case_sha3
  case_sha3-Ensures k s h p =
      let price =
        ext.evm_schedule.sha3_gas + (sp_at s 1 + 31) / 32 * ext.evm_schedule.sha3_word_gas in
      let s' = record s { run_gas = price } in
      Ensures-to_int63 price _ s (ground arith) (λ le.
        Ensures-follow (pay_mem ext (sp_at s 0) (sp_at s 1)) _ s'
          (pay_mem-Ensures ext _ _ s' (ground arith) (ground arith) k.copy) (λ t e. ground arith)
          (λ _ t j.
            let l =
              length-set t.stack t.spp
                (ext.sha3 (slice t.mem (sp_at t 0 % u64_mod) (sp_at t 1 % u64_mod))) in
            record { after = ground arith }))

  -- The copying cases, whose price is at most that of EXTCODECOPY.
  pub copy_to_mem-Ensures :
      (input : Vm W → List ℕ) (i : ℕ) (s : Vm W)
      → IsSane ext.evm_schedule
      → Sound s
      → s.bounce ≡ interpret_cases
      → 1 ≤ s.run_gas
      → s.run_gas < 2 ^ 32
      → Ensures (CaseDone s) (NoMoreGas s) (copy_to_mem ext input i s)
  unfolding copy_to_mem
  copy_to_mem-Ensures input i s k h r lo hi =
      let s' = record s { copy_mem_size = sp_at s (i + 2) } in
      Ensures-to_int63 (sp_at s (i + 2)) _ s (ground arith) (λ le.
        Ensures-follow (pay_mem ext (sp_at s i) (sp_at s (i + 2))) _ s'
          (pay_mem-Ensures ext _ _ s' (ground arith) (ground arith) k.copy) (λ t e. ground arith)
          (λ _ t j.
            let l =
              length-copy_data (input t) (sp_at t i) (sp_at t (i + 1)) (sp_at t (i + 2)) t.mem in
            record { after = ground arith }))

  pub case_copy-Ensures :
      (input : Vm W → List ℕ) → IsSane ext.evm_schedule → CaseEnsures 1 (copy_to_mem ext input 0)
  case_copy-Ensures input k s h p =
      copy_to_mem-Ensures input 0 s k h.sound h.running p (ground arith)

  pub case_returndatacopy-Ensures :
      IsSane ext.evm_schedule → CaseEnsures 1 (case_returndatacopy ext)
  unfolding case_returndatacopy
  case_returndatacopy-Ensures k s h p =
      Ensures-throw_if (not ext.evm_schedule.have_return_data) bad_instruction _ s (ground arith) (
        Ensures-throw_if (ltb (length s.return_data) (sp_at s 1 + sp_at s 2)) buffer_overrun _ s
          (ground arith) (case_copy-Ensures (λ s. s.return_data) k s h p))

  pub case_extcodecopy-Ensures : IsSane ext.evm_schedule → CaseEnsures 0 (case_extcodecopy ext)
  unfolding case_extcodecopy
  case_extcodecopy-Ensures k s h p =
      let s' = record s { run_gas = ext.evm_schedule.extcodecopy_gas } in
      Ensures-to_int63 ext.evm_schedule.extcodecopy_gas _ s (ground arith) (λ le.
        Ensures-mono _
          (copy_to_mem-Ensures (λ s. ext.code_at s.world (sp_at s 0 % 2 ^ 160)) 1 s' k
            (ground arith) (ground arith) (ground arith) (ground arith))
          (λ c t j. repriced s t ext.evm_schedule.extcodecopy_gas c j) (λ t j. ground arith))

  abbrev log_price : Vm W → ℕ
  log_price s =
      ext.evm_schedule.log_gas
      + ext.evm_schedule.log_topic_gas * (s.op - 0xa0)
      + ext.evm_schedule.log_data_gas * sp_at s 1

  abbrev log_need : Vm W → ℕ
  log_need s = if sp_at s 1 == 0 then 0 else sp_at s 0 + sp_at s 1

  pub log_gas_mem-Ensures :
      (s : Vm W)
      → IsSane ext.evm_schedule
      → Ready s
      → Ensures
          (λ _ t. MemUpdated (log_need s) (record s { run_gas = log_price s }) t)
          (SameGas s)
          (log_gas_mem ext s)
  unfolding log_gas_mem mem_need
  log_gas_mem-Ensures s k h =
      let s' = record s { run_gas = log_price s } in
      Ensures-to_int63 (log_price s) _ s (ground arith) (λ le.
        Ensures-to_int63 (log_need s) _ s' (ground arith) (λ le'.
          update_mem-Ensures ext (log_need s) s' (ground arith) (ground arith) (ground arith)
            k.copy))

  pub case_log-Ensures : (n : ℕ) → IsSane ext.evm_schedule → CaseEnsures 0 (case_log ext n)
  unfolding case_log update_io_gas
  case_log-Ensures n k s h p =
      Ensures-throw_if ext.static_call disallowed_state_change _ s (ground arith) (
        Ensures-follow (log_gas_mem ext) _ s (log_gas_mem-Ensures s k h) (λ t e. ground arith)
          (λ _ t j. record { after = ground arith }))
