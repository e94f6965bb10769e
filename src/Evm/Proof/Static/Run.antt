-- ===== src/Evm/Proof/Static/Run.antt =====
-- A whole run of LegacyVM::exec in a frame that must not change state.
use cpp_aec.Base.{sym, ℕ, ◌≡◌, inl, inr, refl, Bool, true, false, subst, arith, []}
use cpp_aec.Evm.Machine.{
  ExtVmFace, Vm, Ctl, next, continue, break, Outcome, ok, throw, Bounce, init_entry,
  interpret_cases, stopped, branch,
}
use cpp_aec.Evm.Machine
use cpp_aec.Evm.Gas.{fetch_instruction}
use cpp_aec.Evm.Case.Calls.{call_setup, call_value, can_send, do_call, refuse_call, case_call}
use cpp_aec.Evm.Interpreter.{
  dispatch, after_case, interpret, run_init_entry, bounce_step, entered, exec,
}
use cpp_aec.Evm.Proof.Rules.{Ensures, Ensures-bind, Ensures-mono, Ensures-branch}
use cpp_aec.Evm.Proof.Stepping.{Leaves, exec_loop-Leaves}
use cpp_aec.Evm.Proof.Static.{Same}
use cpp_aec.Evm.Proof.Static.Switch.{dispatch-Same}
use cpp_aec.Evm.Proof.Static.Frames.{
  Keeps-fetch_instruction, Keeps-call_setup, do_call-Quiet, refuse_call-Same, IsQuiet,
}

abbrev is_create : Bounce → Bool
is_create init_entry = false
is_create interpret_cases = false
is_create Machine.case_create = true
is_create Machine.case_call = false
is_create stopped = false

-- P holds of the accounts, and caseCreate is not what comes next.
record Safe {W : Type 0} (P : W → Type 0) (s : Vm W) : Type 0 where
  pub holds : P s.world
  pub no_create : is_create s.bounce ≡ false

module _ {W : Type 0} (P : W → Type 0) where
  Same-holds : (s t : Vm W) → P s.world → t.world ≡ s.world → P t.world
  Same-holds s t p e = subst P (sym e) p

  Same-Safe : (s t : Vm W) → Safe P s → Same false s t → Safe P t
  Same-Safe s t h e = record {
    holds = Same-holds s t h.holds e.world_eq;
    no_create = elim e.bounces [
      | inl b ↦ rw b h.no_create
      | inr (inl b) ↦ rw b refl
      | inr (inr (inl b)) ↦ rw b refl
      | inr (inr (inr b)) ↦ ground arith
    ];
  }

module _ {W : Type 0} (P : W → Type 0) (ext : ExtVmFace W) where
  send-Safe :
      (gas : ℕ) (s : Vm W)
      → IsQuiet P ext
      → ext.static_call ≡ true
      → Safe P s
      → Ensures
          (λ _ t. Safe P t)
          (λ t. P t.world)
          (branch (can_send ext s (call_value s)) (do_call ext gas) (refuse_call gas) s)
  send-Safe gas s q h safe =
      Ensures-branch (can_send ext s (call_value s)) (do_call ext gas) (refuse_call gas) s
        (λ c.
          Ensures-mono _ (do_call-Quiet ext P gas s q h c safe.holds)
            (λ _ t k. record { holds = k.0; no_create = rw k.1 safe.no_create }) (λ t k. k))
        (λ _.
          Ensures-mono _ (refuse_call-Same ext gas s) (λ _ t k. Same-Safe P s t safe k)
            (λ t k. Same-holds P s t safe.holds k))

  case_call-Safe :
      (s : Vm W)
      → IsQuiet P ext
      → ext.static_call ≡ true
      → P s.world
      → Ensures (λ _ t. Safe P t) (λ t. P t.world) (case_call ext s)
  unfolding case_call
  case_call-Safe s q h p =
      let s' = record s { bounce = interpret_cases; return_data = [] } in
      let safe : Safe P s' = record { holds = p; no_create = refl } in
      Ensures-bind (call_setup ext) _ s'
        (Ensures-mono _ ((Keeps-call_setup ext).at s') (λ _ t k. Same-Safe P s' t safe k)
          (λ t k. Same-holds P s' t p k))
        (λ gas t safe'.
          Ensures-bind (branch (can_send ext t (call_value t)) (do_call ext gas) (refuse_call gas))
            _ t (send-Safe gas t q h safe')
            (λ _ u safe''. record {
              after = record { holds = safe''.holds; no_create = safe''.no_create };
            }))

  after_case-Safe :
      (c : Ctl) (s : Vm W) → Safe P s → Ensures (λ _ t. Safe P t) (λ t. P t.world) (after_case c s)
  after_case-Safe next s h = record { after = record { holds = h.holds; no_create = h.no_create } }
  after_case-Safe continue s h = record { after = h }
  after_case-Safe break s h = record { after = h }

  interpret-Safe :
      (s : Vm W)
      → ext.static_call ≡ true
      → ext.evm_schedule.have_create2 ≡ false
      → Safe P s
      → Ensures (λ _ t. Safe P t) (λ t. P t.world) (interpret ext s)
  unfolding interpret
  interpret-Safe s h n safe =
      Ensures-bind (fetch_instruction ext) _ s
        (Ensures-mono _ ((Keeps-fetch_instruction ext).at s) (λ _ t k. Same-Safe P s t safe k)
          (λ t k. Same-holds P s t safe.holds k))
        (λ _ t safe'.
          Ensures-bind (dispatch ext t.op) _ t
            (Ensures-mono _ (dispatch-Same ext t.op t h)
              (λ _ u k. Same-Safe P t u safe' (subst (λ c2. Same c2 t u) n k))
              (λ u k. Same-holds P t u safe'.holds k))
            (λ c u safe''. after_case-Safe c u safe''))

  run_init_entry-Safe :
      (s : Vm W) → P s.world → Ensures (λ _ t. Safe P t) (λ t. P t.world) (run_init_entry ext s)
  unfolding run_init_entry
  run_init_entry-Safe s p = record { after = record { holds = p; no_create = refl } }

  bounce_step-Safe :
      (b : Bounce) (s : Vm W)
      → IsQuiet P ext
      → ext.static_call ≡ true
      → ext.evm_schedule.have_create2 ≡ false
      → s.bounce ≡ b
      → Safe P s
      → Ensures (λ _ t. Safe P t) (λ t. P t.world) (bounce_step ext b s)
  unfolding bounce_step
  bounce_step-Safe init_entry s q h n e safe = run_init_entry-Safe s safe.holds
  bounce_step-Safe interpret_cases s q h n e safe = interpret-Safe s h n safe
  bounce_step-Safe Machine.case_create s q h n e safe = absurd (ground arith)
  bounce_step-Safe Machine.case_call s q h n e safe = case_call-Safe s q h safe.holds
  bounce_step-Safe stopped s q h n e safe = record { after = safe }

  -- What quiet calls preserve, a run of exec in a frame that must not change state preserves.
  pub exec-Quiet :
      (fuel io_gas : ℕ) (w : W)
      → IsQuiet P ext
      → ext.static_call ≡ true
      → ext.evm_schedule.have_create2 ≡ false
      → P w
      → Leaves (λ t. P t.world) (exec ext fuel io_gas w)
  unfolding exec
  exec-Quiet fuel io_gas w q h n p =
      exec_loop-Leaves ext (Safe P) (λ t. P t.world) (λ t e. e.holds)
        (λ s e. bounce_step-Safe s.bounce s q h n refl e) fuel (entered io_gas w)
        (record { holds = p; no_create = refl })
