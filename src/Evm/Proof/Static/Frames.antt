-- ===== src/Evm/Proof/Static/Frames.antt =====
-- fetchInstruction, caseCallSetup and the calls of other frames, in a frame that must not change
-- state.
use cpp_aec.Base.{refl, ◌≤◌, ℕ, ◌+◌, ◌≡◌, Bool, true, false, get_or, arith, if◌then◌else◌, ◌==◌}
use cpp_aec.Evm.Instruction.{instruction_info}
use cpp_aec.Evm.Machine.{ExtVmFace, CallParameters, Vm, ◌>>◌, modify}
use cpp_aec.Evm.Gas.{
  adjust_stack, fetch_instruction, tier_gas, update_mem, to_int63, update_io_gas, sp_at, mem_need,
}
use cpp_aec.Evm.Case.Calls.{
  can_send, call_value, call_setup, add_run_gas, new_account_gas, value_transfer_gas, call_mem_need,
  grant_call, do_call, refuse_call, call_parameters, sizes_offset,
}
use cpp_aec.Evm.Proof.Rules.{Ensures, Ensures-bind, Ensures-mono, Ensures-to_int63}
use cpp_aec.Evm.Proof.Static.{Same, Same-trans, Keeps, Keeps-bind, Keeps-to_int63, Keeps-update_mem}

-- A call whose parameters say that it is static, and that sends no more than there is, preserves P.
pub record IsQuiet {W : Type 0} (P : W → Type 0) (ext : ExtVmFace W) : Type 0 where
  pub call :
      (w : W) (p : CallParameters)
      → p.static_call ≡ true
      → p.value_transfer ≤ ext.balance w ext.my_address
      → P w
      → P (ext.call w p).world

module _ {W : Type 0} {c2 : Bool} where
  pub Keeps-adjust_stack : (removed added : ℕ) → Keeps {W = W} c2 (adjust_stack removed added)
  unfolding adjust_stack
  Keeps-adjust_stack removed added = record { at = λ s. record { after = ground arith } }

  pub Keeps-add_run_gas : (g : ℕ) → Keeps {W = W} c2 (add_run_gas g)
  unfolding add_run_gas
  Keeps-add_run_gas g = record { at = λ s. record { after = ground arith } }

  pub Keeps-call_mem_need : (s : Vm W) → Keeps c2 (call_mem_need s)
  unfolding call_mem_need mem_need
  Keeps-call_mem_need s =
      let k = sizes_offset s in
      Keeps-bind (to_int63 (if sp_at s (k + 1) == 0 then 0 else sp_at s k + sp_at s (k + 1))) _
        (Keeps-to_int63 _)
        (λ i.
          Keeps-bind
            (to_int63 (if sp_at s (k + 3) == 0 then 0 else sp_at s (k + 2) + sp_at s (k + 3))) _
            (Keeps-to_int63 _) (λ o. record { at = λ t. record { after = ground arith } }))

module _ {W : Type 0} (ext : ExtVmFace W) where
  pub Keeps-fetch_instruction : Keeps false (fetch_instruction ext)
  unfolding fetch_instruction
  Keeps-fetch_instruction = record {
    at = λ s.
        let op = get_or s.code s.pc 0 in
        let metric = instruction_info op in
        let s' = record s { op = op } in
        Ensures-bind (adjust_stack metric.args metric.ret) _ s'
          ((Keeps-adjust_stack {c2 = false} metric.args metric.ret).at s')
          (λ _ t e.
            Ensures-to_int63 (tier_gas ext metric.gas_price_tier) _ t (ground arith)
              (λ le. record { after = ground arith }));
  }

  pub Keeps-grant_call : Keeps false (grant_call ext)
  unfolding grant_call update_io_gas
  Keeps-grant_call = record { at = λ s. record { after = ground arith } }

  pub Keeps-call_memory :
      (need : ℕ)
      → Keeps false (
          modify (λ s. record s { new_mem_size = need }) >> (update_mem ext need >> grant_call ext))
  Keeps-call_memory need = record {
    at = λ s.
        let s' = record s { new_mem_size = need } in
        let keeps =
          Keeps-bind (update_mem ext need) _ (Keeps-update_mem ext need) (λ _. Keeps-grant_call) in
        Ensures-mono _ (keeps.at s') (λ _ t e. Same-trans s s' t (ground arith) e) (λ t e. e);
  }

  pub Keeps-call_setup : Keeps false (call_setup ext)
  unfolding call_setup
  Keeps-call_setup = Keeps-bind (to_int63 ext.evm_schedule.call_gas) _ (Keeps-to_int63 _) (λ g.
      record {
        at = λ s.
            let s' = record s { run_gas = g } in
            let keeps =
              Keeps-bind (add_run_gas (new_account_gas ext s')) _ (Keeps-add_run_gas _) (λ _.
                Keeps-bind (add_run_gas (value_transfer_gas ext s')) _ (Keeps-add_run_gas _) (λ _.
                  Keeps-bind (call_mem_need s') _ (Keeps-call_mem_need s')
                    (λ need. Keeps-call_memory need))) in
            Ensures-mono _ (keeps.at s') (λ _ t e. Same-trans s s' t (ground arith) e) (λ t e. e);
      })

  -- A call of another frame is made with the flag of this frame.
  pub do_call-Quiet :
      (P : W → Type 0) (gas : ℕ) (s : Vm W)
      → IsQuiet P ext
      → ext.static_call ≡ true
      → can_send ext s (call_value s) ≡ true
      → P s.world
      → Ensures (λ _ t. P t.world × (t.bounce ≡ s.bounce)) (λ t. P t.world) (do_call ext gas s)
  unfolding do_call call_parameters
  do_call-Quiet P gas s q h c p =
      let flag : (call_parameters ext s gas).static_call ≡ true = ground arith in
      let value : call_value s ≤ ext.balance s.world ext.my_address = ground arith in
      record { after = (q.call s.world (call_parameters ext s gas) flag value p, refl) }

  pub refuse_call-Same :
      (gas : ℕ) (s : Vm W)
      → Ensures (λ _ t. Same false s t) (λ t. t.world ≡ s.world) (refuse_call gas s)
  unfolding refuse_call
  refuse_call-Same gas s = record { after = ground arith }
