-- ===== src/Evm/Proof/Holding.antt =====
-- What holds of the accounts throughout a run of LegacyVM::exec: what every change and every call of
-- another frame preserves.
use cpp_aec.Base.{Bool-cases, inl, inr, ℕ, ◌+◌, ◌%◌, false, [], if◌then◌else◌}
use cpp_aec.Evm.Word.{u64_mod, u256_mod}
use cpp_aec.Evm.Machine.{
  ExtVmFace, CallParameters, Vm, M, Ctl, next, continue, break, Fault, Outcome, Bounce, init_entry,
  interpret_cases, stopped, disallowed_state_change, ◌>>=◌, ◌>>◌, get, modify, pure, throw_if,
  branch, skip,
}
use cpp_aec.Evm.Machine
use cpp_aec.Evm.Gas.{
  set_run_gas, set_spp, log_gas_mem, mem_need, to_int63, update_io_gas, update_mem,
  fetch_instruction, sp_at,
}
use cpp_aec.Evm.Case.{set_bounce, pay_mem}
use cpp_aec.Evm.Case.Memory.{case_log}
use cpp_aec.Evm.Case.Environment.{
  case_sstore, case_suicide, update_ss_gas, ss_gas, earns_refund, suicide_extra, as_address,
}
use cpp_aec.Evm.Case.Calls.{
  case_create_op, do_create, case_create, init_off, init_size, can_send, call_setup, call_value,
  do_call, refuse_call, case_call,
}
use cpp_aec.Evm.Interpreter.{cases, dispatch, interpret, run_init_entry, bounce_step, entered, exec}
use cpp_aec.Evm.Proof.Static.{Keeps-update_mem, Keeps-pay_mem}
use cpp_aec.Evm.Proof.Static.Switch.{cases-All, lookup_case-All, default_case-Keeps}
use cpp_aec.Evm.Proof.Static.Frames.{Keeps-fetch_instruction, Keeps-call_setup}
use cpp_aec.Evm.Proof.Stepping.{Leaves, exec_loop-Leaves}
use cpp_aec.Evm.Proof.Worlds.{
  Maintains, Holds, Holds-bind, Keeps-Holds, Holds-get, Holds-throw_if, Holds-branch, Holds-pure,
  Holds-modify, Holds-to_int63, Holds-set_run_gas, Holds-update_io_gas, Holds-mem_need,
  Holds-step_pc, Holds-after_case,
}

module _ {W : Type 0} (P : W → Type 0) (ext : ExtVmFace W) where
  Holds-update_mem : (need : ℕ) → Holds P (update_mem ext need)
  Holds-update_mem need = Keeps-Holds {c2 = false} _ (Keeps-update_mem ext need)

  Holds-log_gas_mem : Holds P (log_gas_mem ext)
  unfolding log_gas_mem
  Holds-log_gas_mem = Holds-get _ (λ s. Holds-bind (to_int63 _) _ (Holds-to_int63 _) (λ g.
      Holds-bind (set_run_gas g) _ (Holds-set_run_gas g) (λ _.
        Holds-bind (mem_need (sp_at s 0) (sp_at s 1)) _ (Holds-mem_need _ _)
          (λ need. Holds-update_mem need))))

  abbrev with_refund : Vm W → Vm W
  with_refund s =
      if earns_refund ext s
      then record s { refunds = (s.refunds + ext.evm_schedule.sstore_refund_gas) % u256_mod }
      else s

  with_refund-P : (s : Vm W) → P s.world → P (with_refund s).world
  with_refund-P s p = elim (Bool-cases (earns_refund ext s)) [ inl e ↦ rw e p | inr e ↦ rw e p ]

  Holds-update_ss_gas : Holds P (update_ss_gas ext)
  unfolding update_ss_gas
  Holds-update_ss_gas = Holds-get _ (λ s.
      Holds-bind (to_int63 (ss_gas ext s)) _ (Holds-to_int63 _) (λ g.
        Holds-bind (set_run_gas g) _ (Holds-set_run_gas g)
          (λ _. Holds-modify with_refund with_refund-P)))

  Holds-case_log : Maintains P ext → (n : ℕ) → Holds P (case_log ext n)
  unfolding case_log
  Holds-case_log m n = Holds-throw_if _ _ _ (
      Holds-bind (log_gas_mem ext) _ Holds-log_gas_mem (λ _.
        Holds-bind update_io_gas _ Holds-update_io_gas
          (λ _. record { at = λ s p. record { after = m.log _ _ _ p } })))

  Holds-case_sstore : Maintains P ext → Holds P (case_sstore ext)
  unfolding case_sstore
  Holds-case_sstore m = Holds-throw_if _ _ _ (
      Holds-bind (update_ss_gas ext) _ Holds-update_ss_gas (λ _.
        Holds-bind update_io_gas _ Holds-update_io_gas
          (λ _. record { at = λ s p. record { after = m.set_store _ _ _ p } })))

  Holds-case_suicide : Maintains P ext → Holds P (case_suicide ext)
  unfolding case_suicide
  Holds-case_suicide m = Holds-throw_if _ _ _ (
      Holds-bind (to_int63 ext.evm_schedule.suicide_gas) _ (Holds-to_int63 _) (λ g.
        Holds-bind (set_run_gas g) _ (Holds-set_run_gas g) (λ _.
          Holds-bind
            (modify (λ s. record s { run_gas = (s.run_gas + suicide_extra ext s) % u64_mod })) _
            (Holds-modify _ (λ s p. p))
            (λ _. Holds-bind update_io_gas _ Holds-update_io_gas (λ _.
              Holds-bind
                (modify (λ s. record s { world = ext.suicide s.world (as_address (sp_at s 0)) })) _
                (Holds-modify _ (λ s p. m.suicide s.world (as_address (sp_at s 0)) p))
                (λ _.
                  Holds-bind (set_bounce stopped) _ (Holds-modify _ (λ s p. p))
                    (λ _. Holds-pure break)))))))

  Holds-case_create_op : Holds P (case_create_op ext)
  unfolding case_create_op
  Holds-case_create_op =
      Holds-throw_if ext.static_call disallowed_state_change
        (set_bounce Machine.case_create >> pure break) (record { at = λ s p. record { after = p } })

  Holds-dispatch : Maintains P ext → (op : ℕ) → Holds P (dispatch ext op)
  unfolding dispatch
  Holds-dispatch m op =
      lookup_case-All ext (Holds P) (cases ext) _ op
        (cases-All ext (Holds P) (λ c k. Keeps-Holds c k) (Holds-case_log m) (Holds-case_sstore m)
          Holds-case_create_op (Holds-case_suicide m))
        (Keeps-Holds _ (default_case-Keeps ext op))

  Holds-interpret : Maintains P ext → Holds P (interpret ext)
  unfolding interpret
  Holds-interpret m =
      Holds-bind (fetch_instruction ext) _ (Keeps-Holds _ (Keeps-fetch_instruction ext)) (λ _.
        Holds-get _
          (λ s. Holds-bind (dispatch ext s.op) _ (Holds-dispatch m s.op) (λ c. Holds-after_case c)))

  Holds-do_create : Maintains P ext → Holds P (do_create ext)
  unfolding do_create
  Holds-do_create m = Holds-modify _ (λ s p. m.create _ _ _ _ _ _ p)

  Holds-case_create : Maintains P ext → Holds P (case_create ext)
  unfolding case_create
  Holds-case_create m = Holds-bind (set_bounce interpret_cases) _ (Holds-modify _ (λ s p. p)) (λ _.
      Holds-bind (to_int63 ext.evm_schedule.create_gas) _ (Holds-to_int63 _) (λ g.
        Holds-bind (set_run_gas g) _ (Holds-set_run_gas g) (λ _. Holds-get _ (λ s.
          Holds-bind (pay_mem ext (init_off s) (init_size s)) _
            (Keeps-Holds {c2 = false} _ (Keeps-pay_mem ext _ _))
            (λ _.
              Holds-bind (modify (λ s. record s { return_data = [] })) _ (Holds-modify _ (λ s p. p))
                (λ _. Holds-get _ (λ s.
                  Holds-bind
                    (branch (can_send ext s (sp_at s 0)) (do_create ext)
                      (modify (λ s. set_spp s 0)))
                    _ (Holds-branch _ _ _ (Holds-do_create m) (Holds-modify _ (λ s p. p)))
                    (λ _. Holds-step_pc))))))))

  Holds-do_call : Maintains P ext → (gas : ℕ) → Holds P (do_call ext gas)
  unfolding do_call
  Holds-do_call m gas = Holds-modify _ (λ s p. m.call _ _ p)

  Holds-case_call : Maintains P ext → Holds P (case_call ext)
  unfolding case_call refuse_call
  Holds-case_call m = Holds-bind (set_bounce interpret_cases) _ (Holds-modify _ (λ s p. p)) (λ _.
      Holds-bind (modify (λ s. record s { return_data = [] })) _ (Holds-modify _ (λ s p. p)) (λ _.
        Holds-bind (call_setup ext) _ (Keeps-Holds _ (Keeps-call_setup ext)) (λ gas.
          Holds-get _ (λ s.
            Holds-bind (branch (can_send ext s (call_value s)) (do_call ext gas) (refuse_call gas))
              _ (Holds-branch _ _ _ (Holds-do_call m gas) (Holds-modify _ (λ s p. p)))
              (λ _. Holds-step_pc)))))

  Holds-bounce_step : Maintains P ext → (b : Bounce) → Holds P (bounce_step ext b)
  unfolding bounce_step run_init_entry
  Holds-bounce_step m init_entry = Holds-modify _ (λ s p. p)
  Holds-bounce_step m interpret_cases = Holds-interpret m
  Holds-bounce_step m Machine.case_create = Holds-case_create m
  Holds-bounce_step m Machine.case_call = Holds-case_call m
  Holds-bounce_step m stopped = Holds-pure tt

  pub exec-Leaves :
      (fuel io_gas : ℕ) (w : W)
      → Maintains P ext
      → P w
      → Leaves (λ t. P t.world) (exec ext fuel io_gas w)
  unfolding exec
  exec-Leaves fuel io_gas w m p =
      exec_loop-Leaves ext (λ t. P t.world) (λ t. P t.world) (λ t q. q)
        (λ s q. (Holds-bounce_step m s.bounce).at s q) fuel (entered io_gas w) p
