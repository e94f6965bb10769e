-- ===== src/Executive/Proof/Static.antt =====
-- Frames that must not change state, of libaecereum/Executive.cpp: how a call of one begins.
pub mod Returning
pub mod Levels
use cpp_aec.Base.{
  ℕ, zero, suc, ◌+◌, ◌-◌, ◌*◌, ◌%◌, ◌≤◌, ◌<◌, ◌≡◌, ◌++◌, refl, ap, sym, ◌∙◌, subst, Bool, true,
  false, ltb, leb, List, [], Option, none, some, inl, inr, Bool-cases, Option-cases, if◌then◌else◌,
  arith,
}
use cpp_aec.Evm.Word.{u64_mod, u256_mod}
use cpp_aec.Evm.Machine.{
  ExtVmFace, Vm, CallParameters, Fault, Outcome, ok, throw, revert_instruction, bad_instruction,
  bad_jump_destination, out_of_gas, out_of_stack, stack_underflow, disallowed_state_change,
  buffer_overrun,
}
use cpp_aec.Evm.Interpreter.{exec}
use cpp_aec.Evm.Proof.Rules.{After}
use cpp_aec.Evm.Proof.Sound.{IsSane}
use cpp_aec.Evm.Proof.Ending.{exec-Ends}
use cpp_aec.Evm.Proof.Static.Frames.{IsQuiet}
use cpp_aec.Evm.Proof.Static.Run.{exec-Quiet}
use cpp_aec.State.Account.{Db}
use cpp_aec.State.Journal
use cpp_aec.State.Journal.{State, state_of, done}
use cpp_aec.State.Cache
use cpp_aec.State.Cache.{load, address_has_code}
use cpp_aec.State.Changes.{transfer_balance, credit, rollback, savepoint}
use cpp_aec.State.Proof.Coherent.{IsLawful}
use cpp_aec.State.Proof.Undoing.{Journaled}
use cpp_aec.State.Proof.Moving.{balance-bound}
use cpp_aec.State.Proof.Querying.{Reads-World}
use cpp_aec.State.Proof.Quiet.{
  Quiet, Quiet-trans, nothing-Quiet, load-Quiet, code-Quiet, credit-Quiet, transfer_balance-Quiet,
  rollback-Quiet,
}
use cpp_aec.Executive.Frame.{Env, Params, Context, Stop, SubState, no_sub, make_ext}
use cpp_aec.Executive.Starting.{
  Executive, Excepted, and_then, revert, transfer, call_precompiled, call_code, call_from_savepoint,
  call, fresh_executive, out_of_gas_base,
}
use cpp_aec.Executive.Running.{leave, fail, caught, returned, run, go_from, go, fuel_for}
use cpp_aec.Executive.Frames.{no_call, no_create, leave_frame, ext_call, ext_create, ext_vm}
use cpp_aec.Executive.Proof.Spending.{IsFair, ext_vm-IsFair}

-- No account of the sub-state is to die, and nothing is logged.
pub record IsBare (sub : SubState) : Type 0 where
  pub suicides_eq : sub.suicides ≡ []
  pub logs_eq : sub.logs ≡ []

-- The frame to be run, if there is one, is static and no creation.
abbrev pub IsStatic : Option Params → Type 0
IsStatic none = Unit {0}
IsStatic (some ps) = (ps.static_call ≡ true) × (ps.is_create ≡ false)

module _ (db : Db) (law : IsLawful db) (env : Env) where
  -- A call that has begun at `s`, where it can be rolled back to.
  pub record Begun (s : State) (e : Executive) : Type 0 where
    pub quiet : Quiet db s e.state
    pub bare : IsBare e.sub
    pub static : IsStatic e.ext
    pub savepoint_eq : e.savepoint ≡ savepoint s

  and_then-Begun :
      (s : State) (o : Journal.Outcome) (e : Executive)
      → Begun s e
      → Quiet db s (state_of o)
      → Begun s (and_then o e (λ x. x))
  and_then-Begun s (Journal.done t) e b q = record {
    quiet = q;
    bare = b.bare;
    static = b.static;
    savepoint_eq = b.savepoint_eq;
  }
  and_then-Begun s (Journal.throw f t) e b q = record {
    quiet = q;
    bare = b.bare;
    static = b.static;
    savepoint_eq = b.savepoint_eq;
  }

  transfer-Begun :
      (s : State) (p : CallParameters) (e : Executive)
      → p.value_transfer < u256_mod
      → Begun s e
      → Begun s (transfer db env p e)
  unfolding transfer
  transfer-Begun s p e h b =
      and_then-Begun s
        (transfer_balance db p.sender_address p.receive_address p.value_transfer e.state) e b
        (Quiet-trans db s e.state _ b.quiet (
          transfer_balance-Quiet db law p.sender_address p.receive_address p.value_transfer e.state
            h b.quiet.undoable.journaled))

  call_precompiled-Begun :
      (s : State) (p : CallParameters) (e : Executive)
      → p.value_transfer < u256_mod
      → Begun s e
      → Begun s (call_precompiled db env p e)
  unfolding call_precompiled
  call_precompiled-Begun s p e h b =
      let g = env.cost_of_precompiled p.code_address p.input_data in
      let result = env.execute_precompiled p.code_address p.input_data in
      let paid = record e { gas = p.gas - g; output = result.1 } in
      let failed = record e { excepted = some out_of_gas_base } in
      elim (Bool-cases (ltb p.gas g)) [
        | inl q ↦ elim (Bool-cases (leb env.eip158_fork_block env.number)) [
          | inl r ↦
              rw (q, r)
                (and_then-Begun s (credit db p.code_address 0 e.state) failed
                  (record {
                    quiet = b.quiet;
                    bare = b.bare;
                    static = b.static;
                    savepoint_eq = b.savepoint_eq;
                  })
                  (Quiet-trans db s e.state _ b.quiet (
                    credit-Quiet db law p.code_address 0 e.state (omega arith)
                      b.quiet.undoable.journaled)))
          | inr r ↦
              rw (q, r)
                (record {
                  quiet = b.quiet;
                  bare = b.bare;
                  static = b.static;
                  savepoint_eq = b.savepoint_eq;
                })
        ]
        | inr q ↦ elim (Bool-cases result.0) [
          | inl r ↦
              rw (q, r)
                (transfer-Begun s p paid h (record {
                  quiet = b.quiet;
                  bare = b.bare;
                  static = b.static;
                  savepoint_eq = b.savepoint_eq;
                }))
          | inr r ↦
              rw (q, r)
                (record {
                  quiet = b.quiet;
                  bare = b.bare;
                  static = b.static;
                  savepoint_eq = b.savepoint_eq;
                })
        ]
      ]

  call_code-Begun :
      (gas_price origin depth : ℕ) (s : State) (p : CallParameters) (e : Executive)
      → p.value_transfer < u256_mod
      → p.static_call ≡ true
      → Begun s e
      → Begun s (call_code db env gas_price origin depth p e)
  unfolding call_code
  call_code-Begun gas_price origin depth s p e h f b =
      let u = load db p.code_address e.state in
      let q1 =
        Quiet-trans db s e.state u b.quiet
          (load-Quiet db law p.code_address e.state b.quiet.undoable.journaled) in
      let q2 = Quiet-trans db s u _ q1 (code-Quiet db law p.code_address u q1.undoable.journaled) in
      elim (Bool-cases (address_has_code db p.code_address e.state)) [
        | inl q ↦ rw q (
            transfer-Begun s p _ h (record {
              quiet = q2;
              bare = b.bare;
              static = (f, refl);
              savepoint_eq = b.savepoint_eq;
            }))
        | inr q ↦ rw q (
            transfer-Begun s p _ h (record {
              quiet = q1;
              bare = b.bare;
              static = b.static;
              savepoint_eq = b.savepoint_eq;
            }))
      ]

  pub call-Begun :
      (gas_price origin depth : ℕ) (p : CallParameters) (s : State) (stop : Option Stop)
      → Journaled db s
      → p.value_transfer < u256_mod
      → p.static_call ≡ true
      → Begun s (call db env false gas_price origin depth p (fresh_executive s stop))
  unfolding call call_from_savepoint
  call-Begun gas_price origin depth p s stop j h f =
      let e = record (fresh_executive s stop) { savepoint = savepoint s } in
      let b : Begun s e = record {
        quiet = nothing-Quiet db law s j;
        bare = record { suicides_eq = refl; logs_eq = refl };
        static = tt;
        savepoint_eq = refl;
      } in
      elim (Bool-cases (env.is_precompiled p.code_address)) [
        | inl r ↦ rw r (call_precompiled-Begun s p e h b)
        | inr r ↦ rw r (call_code-Begun gas_price origin depth s p e h f b)
      ]
