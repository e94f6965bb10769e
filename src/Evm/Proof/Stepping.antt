-- ===== src/Evm/Proof/Stepping.antt =====
-- The trampoline of LegacyVM::exec, step by step: what each call preserves holds at the end.
use mathlib.Core.Option.{some_inj}
use cpp_aec.Base.{ℕ, zero, suc, ◌≡◌, inl, inr, Bool-cases, Option, some, subst, arith}
use cpp_aec.Evm.Machine.{ExtVmFace, Vm, Outcome, ok, throw}
use cpp_aec.Evm.Interpreter.{bounce_step, is_stopped, on_step, exec_loop}
use cpp_aec.Evm.Proof.Rules.{After, Ensures}

module _ {W : Type 0} where
  -- What the trampoline ends with, if it ends.
  abbrev pub Leaves : (Vm W → Type 0) → Option (Outcome W (Unit {0})) → Type 0
  Leaves E o = (r : Outcome W (Unit {0})) → o ≡ some r → After (λ _ t. E t) E r

  some-Leaves :
      (E : Vm W → Type 0) (r : Outcome W (Unit {0})) → After (λ _ t. E t) E r → Leaves E (some r)
  some-Leaves E r h r' e = subst (After (λ _ t. E t) E) (some_inj.0 e) h

  on_step-Leaves :
      (Q E : Vm W → Type 0) (o : Outcome W (Unit {0})) (f : Vm W → Option (Outcome W (Unit {0})))
      → ((t : Vm W) → Q t → E t)
      → After (λ _ t. Q t) E o
      → ((t : Vm W) → Q t → Leaves E (f t))
      → Leaves E (on_step o f)
  on_step-Leaves Q E (throw e t) f qe a rest = some-Leaves E (throw e t) a
  on_step-Leaves Q E (ok _ t) f qe a rest = elim (Bool-cases (is_stopped t.bounce)) [
    | inl e ↦ rw (e, on_step) (some-Leaves E (ok tt t) (qe t a))
    | inr e ↦ rw (e, on_step) (rest t a)
  ]

module _ {W : Type 0} (ext : ExtVmFace W) where
  pub exec_loop-Leaves :
      (Q E : Vm W → Type 0)
      → ((t : Vm W) → Q t → E t)
      → ((s : Vm W) → Q s → Ensures (λ _ t. Q t) E (bounce_step ext s.bounce s))
      → (fuel : ℕ) (s : Vm W) → Q s
      → Leaves E (exec_loop ext fuel s)
  unfolding exec_loop
  exec_loop-Leaves Q E qe step zero s q = λ r e. absurd (ground arith)
  exec_loop-Leaves Q E qe step (suc fuel) s q =
      let rest = λ (t : Vm W). exec_loop-Leaves Q E qe step fuel t in
      on_step-Leaves Q E _ _ qe (step s q).after rest
