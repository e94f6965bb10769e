-- ===== src/Evm/Proof/Running.antt =====
-- The member functions that the trampoline of LegacyVM::exec calls.
use cpp_aec.Base.{ℕ, ◌+◌, ◌*◌, ◌≤◌, ◌<◌, ◌≡◌, ◌⊎◌, true, false, arith}
use cpp_aec.Evm.Machine.{
  ExtVmFace, Vm, Ctl, next, continue, break, Bounce, init_entry, interpret_cases, stopped,
}
use cpp_aec.Evm.Machine
use cpp_aec.Evm.Gas.{fetch_instruction}
use cpp_aec.Evm.Interpreter.{
  dispatch, after_case, interpret, run_init_entry, bounce_step, is_stopped,
}
use cpp_aec.Evm.Proof.Rules.{Ensures, Ensures-follow, Ensures-mono}
use cpp_aec.Evm.Proof.Sound.{Sound, CaseDone, NoMoreGas, IsSane, IsFrugal, Waits, is_leaving}
use cpp_aec.Evm.Proof.Calling.{case_create-Ensures, case_call-Ensures}
use cpp_aec.Evm.Proof.Dispatch.{dispatch-At}
use cpp_aec.Evm.Proof.Fetching.{fetch_instruction-Ensures}

-- Every call of a member function takes the machine down in this measure.
abbrev pub rank : Bounce → ℕ
rank init_entry = 3
rank interpret_cases = 2
rank Machine.case_create = 1
rank Machine.case_call = 1
rank stopped = 0

module _ {W : Type 0} where
  -- What holds when the trampoline calls a member function.
  pub record Running (s : Vm W) : Type 0 where
    pub sound : Sound s
    pub waits : (is_leaving s.bounce ≡ false) ⊎ Waits s

  abbrev pub measure : Vm W → ℕ
  measure s = 2 * s.io_gas + rank s.bounce

  pub record Stepped (s t : Vm W) : Type 0 where
    pub running : Running t
    pub gas : t.io_gas ≤ s.io_gas
    pub less : measure t < measure s

module _ {W : Type 0} (ext : ExtVmFace W) where
  rank_leaving : (b : Bounce) → is_leaving b ≡ true → rank b ≤ 1
  rank_leaving init_entry h = ground arith
  rank_leaving interpret_cases h = ground arith
  rank_leaving Machine.case_create h = ground arith
  rank_leaving Machine.case_call h = ground arith
  rank_leaving stopped h = ground arith

  case-Stepped :
      (s t : Vm W) (c : Ctl)
      → s.bounce ≡ interpret_cases
      → CaseDone s c t
      → Ensures (λ _ u. Stepped s u) (NoMoreGas s) (after_case c t)
  case-Stepped s t next b h = record { after = ground arith }
  case-Stepped s t continue b h = record { after = ground arith }
  case-Stepped s t break b h =
      let r = rank_leaving t.bounce h.spends.1 in record { after = ground arith }

  interpret-Ensures :
      (s : Vm W)
      → IsSane ext.evm_schedule
      → Running s
      → s.bounce ≡ interpret_cases
      → Ensures (λ _ t. Stepped s t) (NoMoreGas s) (interpret ext s)
  unfolding interpret
  interpret-Ensures s k h b =
      Ensures-follow (fetch_instruction ext) _ s (fetch_instruction-Ensures ext s k h.sound b)
        (λ t e. ground arith)
        (λ _ t f.
          Ensures-follow (dispatch ext t.op) _ t (dispatch-At ext k t.op t f.ready f.price)
            (λ u e. ground arith)
            (λ c u d.
              Ensures-mono _ (case-Stepped t u c f.ready.running d) (λ _ v q. ground arith)
                (λ v q. ground arith)))

  run_init_entry-Ensures :
      (s : Vm W)
      → Running s
      → s.bounce ≡ init_entry
      → Ensures (λ _ t. Stepped s t) (NoMoreGas s) (run_init_entry ext s)
  unfolding run_init_entry
  run_init_entry-Ensures s h b = record { after = ground arith }

  -- Under prices that are sane and frames that give back at most the gas they are given, every
  -- member function that the trampoline calls in a running state that has not stopped, initEntry,
  -- one round of interpretCases, caseCreate or caseCall, leaves a running state in which the
  -- measure, twice the gas and the rank of m_bounce, is smaller, without adding gas; or it throws
  -- without adding gas.
  pub bounce_step-Ensures :
      (s : Vm W) (b : Bounce)
      → IsSane ext.evm_schedule
      → IsFrugal ext
      → Running s
      → s.bounce ≡ b
      → is_stopped b ≡ false
      → Ensures (λ _ t. Stepped s t) (NoMoreGas s) (bounce_step ext b s)
  unfolding bounce_step
  bounce_step-Ensures s init_entry k f h b n = run_init_entry-Ensures s h b
  bounce_step-Ensures s interpret_cases k f h b n = interpret-Ensures s k h b
  bounce_step-Ensures s Machine.case_create k f h b n =
      Ensures-mono _ (case_create-Ensures ext s k f h.sound (ground arith)) (λ _ t d. ground arith)
        (λ t d. d)
  bounce_step-Ensures s Machine.case_call k f h b n =
      Ensures-mono _ (case_call-Ensures ext s k f h.sound (ground arith)) (λ _ t d. ground arith)
        (λ t d. d)
  bounce_step-Ensures s stopped k f h b n = ground arith
