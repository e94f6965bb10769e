-- ===== src/Evm/Proof/Calling.antt =====
-- caseCreate and caseCall of libevm/LegacyVMCalls.cpp: what they spend, given that the frames they call
-- give back at most the gas they are given.
use cpp_aec.Base.{
  ℕ, ◌+◌, ◌-◌, ◌%◌, ◌^◌, ◌≤◌, ◌<◌, ◌≡◌, refl, [], length, length-set, arith, if◌then◌else◌, take,
  ◌⊎◌,
}
use cpp_aec.Bytes.{slice, length-write_at}
use cpp_aec.Evm.Word.{u64_mod}
use cpp_aec.Evm.Machine.{ExtVmFace, Vm, modify, interpret_cases, branch}
use cpp_aec.Evm.Gas.{set_spp, sp_at, update_io_gas, to_int63, update_mem, int63_max, mem_need}
use cpp_aec.Evm.Case.{pay_mem}
use cpp_aec.Evm.Case.Calls.{
  create_gas, do_create, can_send, case_create, call_value, sizes_offset, new_account_gas,
  value_transfer_gas, add_run_gas, call_mem_need, call_setup, call_parameters, do_call, refuse_call,
  case_call, init_off, init_size, salt_of, stipend, grant_call,
}
use cpp_aec.Evm.Proof.Rules.{Ensures, Ensures-follow, Ensures-to_int63, Ensures-branch}
use cpp_aec.Evm.Proof.Memory.{Metered, SameGas, pay_mem-Ensures, update_mem-Ensures}
use cpp_aec.Evm.Proof.Sound.{Sound, CallDone, NoMoreGas, IsSane, IsFrugal}

module _ {W : Type 0} (ext : ExtVmFace W) where
  -- The gas after a creation is what was not used: the subtraction over u256 does not wrap.
  record Created (s t : Vm W) : Type 0 where
    pub gas : t.io_gas ≤ s.io_gas
    pub sound : Sound t
    pub bounce_eq : t.bounce ≡ s.bounce

  do_create-Ensures :
      (s : Vm W)
      → IsFrugal ext
      → Sound s
      → Ensures (λ _ t. Created s t) (λ t. NoMoreGas s t) (do_create ext s)
  unfolding do_create
  do_create-Ensures s f h =
      let init_code = slice s.mem (init_off s % u64_mod) (init_size s % u64_mod) in
      let r = ext.create s.world (sp_at s 0) (create_gas ext s) init_code s.op (salt_of s) in
      let le = f.create_gas s.world (sp_at s 0) (create_gas ext s) init_code s.op (salt_of s) in
      let l = length-set s.stack s.spp r.address in record { after = ground arith }

  -- Under sane prices and frames that give back at most the gas they are given, from a sound state
  -- with nothing to copy, caseCreate either throws without adding gas, or leaves a sound state
  -- with strictly less gas that goes back to interpretCases.
  pub case_create-Ensures :
      (s : Vm W)
      → IsSane ext.evm_schedule
      → IsFrugal ext
      → Sound s
      → s.copy_mem_size ≡ 0
      → Ensures (λ _ t. CallDone s t) (NoMoreGas s) (case_create ext s)
  unfolding case_create
  case_create-Ensures s k f h c =
      let s' = record s { bounce = interpret_cases } in
      let s'' = record s' { run_gas = ext.evm_schedule.create_gas } in
      Ensures-to_int63 ext.evm_schedule.create_gas _ s' (ground arith) (λ le.
        Ensures-follow (pay_mem ext (init_off s) (init_size s)) _ s''
          (pay_mem-Ensures ext _ _ s'' (ground arith) (ground arith) k.copy) (λ t e. ground arith)
          (λ _ t j.
            let t' = record t { return_data = [] } in
            Ensures-follow
              (branch (can_send ext t' (sp_at t' 0)) (do_create ext) (modify (λ s. set_spp s 0))) _
              t'
              (Ensures-branch _ (do_create ext) (modify (λ s. set_spp s 0)) t'
                (λ _. do_create-Ensures t' f (ground arith))
                (λ _. let l = length-set t.stack t.spp 0 in record { after = ground arith }))
              (λ u e. ground arith) (λ _ u q. record { after = ground arith })))

-- What is asked for `offset` and `size` is no more than `need`.
abbrev pub Covers : (need offset size : ℕ) → Type 0
Covers need offset size = (size ≡ 0) ⊎ (offset + size ≤ need)

module _ {W : Type 0} where
  -- Only the price has changed.
  record Priced (g : ℕ) (s t : Vm W) : Type 0 where
    pub metered : Metered s t
    pub run_eq : t.run_gas ≡ s.run_gas + g
    pub mem_eq : t.mem ≡ s.mem
    pub copy_eq : t.copy_mem_size ≡ s.copy_mem_size

  add_run_gas-Ensures :
      (g : ℕ) (s : Vm W)
      → g < 2 ^ 62
      → s.run_gas < 2 ^ 62
      → Ensures (λ _ t. Priced g s t) (SameGas s) (add_run_gas g s)
  unfolding add_run_gas
  add_run_gas-Ensures g s h r = record { after = ground arith }

  record CallNeed (s : Vm W) (need : ℕ) (t u : Vm W) : Type 0 where
    pub priced : Priced 0 t u
    pub le : need ≤ int63_max
    pub input : Covers need (sp_at s (sizes_offset s)) (sp_at s (sizes_offset s + 1))
    pub output : Covers need (sp_at s (sizes_offset s + 2)) (sp_at s (sizes_offset s + 3))

  call_mem_need-Ensures :
      (s t : Vm W) → Ensures (λ need u. CallNeed s need t u) (SameGas t) (call_mem_need s t)
  unfolding call_mem_need mem_need to_int63
  call_mem_need-Ensures s t = record { after = ground arith }

module _ {W : Type 0} (ext : ExtVmFace W) where
  -- The surcharges are as the schedule has them, and sending value costs at least the stipend.
  record Surcharged (s : Vm W) : Type 0 where
    pub new_account : new_account_gas ext s < 2 ^ 60
    pub transfer : value_transfer_gas ext s < 2 ^ 60
    pub stipend_le : stipend ext s ≤ value_transfer_gas ext s

  surcharged : (s : Vm W) → IsSane ext.evm_schedule → Surcharged s
  unfolding new_account_gas value_transfer_gas stipend
  surcharged s k = ground arith

  -- The gas that a call is given is paid for, together with the price of the call.
  pub record CallPaid (s : Vm W) (gas : ℕ) (t : Vm W) : Type 0 where
    pub paid : t.io_gas + gas + ext.evm_schedule.call_gas ≤ s.io_gas
    pub whole : length t.mem % 32 ≡ 0
    pub stack_eq : t.stack ≡ s.stack
    pub sp_eq : t.sp ≡ s.sp
    pub spp_eq : t.spp ≡ s.spp
    pub op_eq : t.op ≡ s.op
    pub bounce_eq : t.bounce ≡ s.bounce
    pub input : Covers (length t.mem) (sp_at s (sizes_offset s)) (sp_at s (sizes_offset s + 1))
    pub output : Covers (length t.mem) (sp_at s (sizes_offset s + 2)) (sp_at s (sizes_offset s + 3))

  -- Memory is there, and the price is known and can be paid.
  record CallPriced (s t : Vm W) : Type 0 where
    pub gas_eq : t.io_gas ≡ s.io_gas
    pub afford : t.run_gas ≤ t.io_gas
    pub price : ext.evm_schedule.call_gas + stipend ext s ≤ t.run_gas
    pub whole : length t.mem % 32 ≡ 0
    pub stack_eq : t.stack ≡ s.stack
    pub sp_eq : t.sp ≡ s.sp
    pub spp_eq : t.spp ≡ s.spp
    pub op_eq : t.op ≡ s.op
    pub bounce_eq : t.bounce ≡ s.bounce
    pub input : Covers (length t.mem) (sp_at s (sizes_offset s)) (sp_at s (sizes_offset s + 1))
    pub output : Covers (length t.mem) (sp_at s (sizes_offset s + 2)) (sp_at s (sizes_offset s + 3))

  stipend-same :
      (s t : Vm W) → t.stack ≡ s.stack → t.sp ≡ s.sp → t.op ≡ s.op → stipend ext t ≡ stipend ext s
  unfolding stipend
  stipend-same s t a b c = rw a (rw b (rw c refl))

  grant_call-Ensures :
      (s t : Vm W)
      → CallPriced s t
      → Ensures (λ gas u. CallPaid s gas u) (NoMoreGas s) (grant_call ext t)
  unfolding grant_call update_io_gas
  grant_call-Ensures s t h =
      let e =
        stipend-same s (record t { io_gas = t.io_gas - t.run_gas }) h.stack_eq h.sp_eq h.op_eq in
      record { after = ground arith }

  -- Under sane prices, with memory in whole words and nothing to copy, caseCallSetup either throws
  -- without adding gas, or it has taken the price of a call and all the gas of the callee, stipend
  -- included, from the gas of the caller, and the ranges of the input and the output lie in
  -- memory.
  pub call_setup-Ensures :
      (s : Vm W)
      → IsSane ext.evm_schedule
      → length s.mem % 32 ≡ 0
      → s.copy_mem_size ≡ 0
      → Ensures (λ gas t. CallPaid s gas t) (NoMoreGas s) (call_setup ext s)
  unfolding call_setup
  call_setup-Ensures s k w c =
      let s' = record s { run_gas = ext.evm_schedule.call_gas } in
      let sur = surcharged s' k in
      let same = stipend-same s s' refl refl refl in
      Ensures-to_int63 ext.evm_schedule.call_gas _ s (ground arith) (λ le.
        Ensures-follow (add_run_gas (new_account_gas ext s')) _ s'
          (add_run_gas-Ensures _ s' (ground arith) (ground arith)) (λ t e. ground arith)
          (λ _ t j.
            Ensures-follow (add_run_gas (value_transfer_gas ext s')) _ t
              (add_run_gas-Ensures _ t (ground arith) (ground arith)) (λ t e. ground arith)
              (λ _ u q.
                Ensures-follow (call_mem_need s') _ u (call_mem_need-Ensures s' u)
                  (λ t e. ground arith)
                  (λ need v n.
                    let v' = record v { new_mem_size = need } in
                    Ensures-follow (update_mem ext need) _ v'
                      (update_mem-Ensures ext need v' (ground arith) (ground arith) (ground arith)
                        k.copy)
                      (λ t e. ground arith) (λ _ x m. grant_call-Ensures s x (ground arith))))))

  -- The call itself: the callee gives gas back.
  do_call-Ensures :
      (gas : ℕ) (s : Vm W)
      → IsFrugal ext
      → Sound s
      → Ensures
          (λ _ t. (t.io_gas ≤ s.io_gas + gas) × Sound t × (t.bounce ≡ s.bounce))
          (SameGas s)
          (do_call ext gas s)
  unfolding do_call call_parameters
  do_call-Ensures gas s f h =
      let r = ext.call s.world (call_parameters ext s gas) in
      let le = f.call_gas s.world (call_parameters ext s gas) in
      let l = length-set s.stack s.spp (if r.success then 1 else 0) in
      let m =
        length-write_at s.mem (sp_at s (sizes_offset s + 2) % u64_mod)
          (take (sp_at s (sizes_offset s + 3) % u64_mod) r.output) in
      record { after = ground arith }

  refuse_call-Ensures :
      (gas : ℕ) (s : Vm W)
      → Sound s
      → Ensures
          (λ _ t. (t.io_gas ≤ s.io_gas + gas) × Sound t × (t.bounce ≡ s.bounce))
          (SameGas s)
          (refuse_call gas s)
  unfolding refuse_call
  refuse_call-Ensures gas s h =
      let l = length-set s.stack s.spp 0 in record { after = ground arith }

  -- Under sane prices and frames that give back at most the gas they are given, from a sound state
  -- with nothing to copy, caseCall either throws without adding gas, or leaves a sound state with
  -- strictly less gas that goes back to interpretCases.
  pub case_call-Ensures :
      (s : Vm W)
      → IsSane ext.evm_schedule
      → IsFrugal ext
      → Sound s
      → s.copy_mem_size ≡ 0
      → Ensures (λ _ t. CallDone s t) (NoMoreGas s) (case_call ext s)
  unfolding case_call
  case_call-Ensures s k f h c =
      let s' = record s { bounce = interpret_cases; return_data = [] } in
      Ensures-follow (call_setup ext) _ s' (call_setup-Ensures s' k (ground arith) (ground arith))
        (λ t e. ground arith)
        (λ gas t j.
          Ensures-follow
            (branch (can_send ext t (call_value t)) (do_call ext gas) (refuse_call gas)) _ t
            (Ensures-branch _ (do_call ext gas) (refuse_call gas) t
              (λ _. do_call-Ensures gas t f (ground arith))
              (λ _. refuse_call-Ensures gas t (ground arith)))
            (λ u e. ground arith) (λ _ u q. record { after = ground arith }))
