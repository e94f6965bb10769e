-- ===== src/Evm/Proof/Ending.antt =====
-- The trampoline of LegacyVM::exec comes to an end.
use cpp_aec.Base.{
  ℕ, zero, suc, ◌+◌, ◌*◌, ◌%◌, ◌≤◌, ◌≡◌, inl, inr, refl, Bool-cases, true, false, arith, Option,
  none, some, length-replicate,
}
use cpp_aec.Evm.Word.{u64_mod}
use cpp_aec.Evm.Machine.{
  ExtVmFace, Vm, Outcome, ok, throw, Bounce, init_entry, interpret_cases, stopped,
}
use cpp_aec.Evm.Machine
use cpp_aec.Evm.Gas.{stack_limit}
use cpp_aec.Evm.Interpreter.{is_stopped, on_step, exec_loop, entered, exec}
use cpp_aec.Evm.Proof.Rules.{After, Ensures, Ensures-mono}
use cpp_aec.Evm.Proof.Sound.{Sound, NoMoreGas, IsSane, IsFrugal}
use cpp_aec.Evm.Proof.Running.{rank, measure, Running, Stepped, bounce_step-Ensures}

module _ {W : Type 0} where
  -- What the trampoline ends with: the state after the last call, or an exception.
  pub record Finished (s t : Vm W) : Type 0 where
    pub sound : Sound t
    pub gas : t.io_gas ≤ s.io_gas
    pub end : t.bounce ≡ stopped

  -- The trampoline returns or throws.
  pub record Ends (s : Vm W) (o : Option (Outcome W (Unit {0}))) : Type 0 where
    pub outcome : Outcome W (Unit {0})
    pub eq : o ≡ some outcome
    pub after : After (λ _ t. Finished s t) (NoMoreGas s) outcome

module _ {W : Type 0} (ext : ExtVmFace W) where
  rank_live : (b : Bounce) → is_stopped b ≡ false → 1 ≤ rank b
  rank_live init_entry n = ground arith
  rank_live interpret_cases n = ground arith
  rank_live Machine.case_create n = ground arith
  rank_live Machine.case_call n = ground arith
  rank_live stopped n = ground arith

  nothing_left : (s : Vm W) → is_stopped s.bounce ≡ false → measure s ≤ 0 → Ends s none
  nothing_left s n m = let r = rank_live s.bounce n in absurd (ground arith)

  later :
      (s t : Vm W) (o : Option (Outcome W (Unit {0}))) → t.io_gas ≤ s.io_gas → Ends t o → Ends s o
  later s t o h e =
      let w : Ensures (λ _ u. Finished s u) (NoMoreGas s) e.outcome =
        Ensures-mono e.outcome (record { after = e.after }) (λ _ u q. ground arith)
          (λ u q. ground arith) in
      record { outcome = e.outcome; eq = e.eq; after = w.after }

  is_stopped-eq : (b : Bounce) → is_stopped b ≡ true → b ≡ stopped
  is_stopped-eq init_entry h = ground arith
  is_stopped-eq interpret_cases h = ground arith
  is_stopped-eq Machine.case_create h = ground arith
  is_stopped-eq Machine.case_call h = ground arith
  is_stopped-eq stopped h = refl

  on_step-Ends :
      (fuel : ℕ) (s : Vm W) (o : Outcome W (Unit {0})) (f : Vm W → Option (Outcome W (Unit {0})))
      → After (λ _ t. Stepped s t) (NoMoreGas s) o
      → ((t : Vm W) → Running t → is_stopped t.bounce ≡ false → measure t ≤ fuel → Ends t (f t))
      → measure s ≤ suc fuel
      → Ends s (on_step o f)
  on_step-Ends fuel s (throw e t) f a rest m = record { outcome = throw e t; eq = refl; after = a }
  on_step-Ends fuel s (ok _ t) f a rest m = elim (Bool-cases (is_stopped t.bounce)) [
    | inl e ↦
        rw (e, on_step)
          (record {
            outcome = ok tt t;
            eq = refl;
            after = record { sound = a.running.sound; gas = a.gas; end = is_stopped-eq t.bounce e };
          })
    | inr e ↦ rw (e, on_step) (later s t (f t) a.gas (rest t a.running e (ground arith)))
  ]

  pub exec_loop-Ends :
      (fuel : ℕ) (s : Vm W)
      → IsSane ext.evm_schedule
      → IsFrugal ext
      → Running s
      → is_stopped s.bounce ≡ false
      → measure s ≤ fuel
      → Ends s (exec_loop ext fuel s)
  unfolding exec_loop
  exec_loop-Ends zero s k f h n m = nothing_left s n m
  exec_loop-Ends (suc fuel) s k f h n m =
      let rest = λ (t : Vm W). exec_loop-Ends fuel t k f in
      on_step-Ends fuel s _ _ (bounce_step-Ensures ext s s.bounce k f h refl n).after rest m

  -- Under prices that are sane and frames that give back at most the gas they are given, exec with
  -- fuel 2 g + 3 for the gas g that it is given modulo 2 ^ 64 returns or throws. If it returns, it
  -- has stopped, the stack pointer is within the 1024 slots, memory is whole words, and no gas has
  -- been added; if it throws, no gas has been added either.
  pub exec-Ends :
      (fuel io_gas : ℕ) (world : W)
      → IsSane ext.evm_schedule
      → IsFrugal ext
      → 2 * (io_gas % u64_mod) + 3 ≤ fuel
      → Ends (entered io_gas world) (exec ext fuel io_gas world)
  unfolding exec
  exec-Ends fuel io_gas world k f m =
      let l = length-replicate {A = ℕ} stack_limit 0 in
      exec_loop-Ends fuel (entered io_gas world) k f (ground arith) refl m
