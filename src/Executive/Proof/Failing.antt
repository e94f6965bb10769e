-- ===== src/Executive/Proof/Failing.antt =====
-- Executive::go of libaecereum/Executive.cpp when the interpreter throws.
use cpp_aec.Base.{ℕ, ◌≡◌, refl, false, List, none}
use cpp_aec.Evm.Machine.{
  Vm, Fault, throw, out_of_gas, revert_instruction, bad_instruction, bad_jump_destination,
  out_of_stack, stack_underflow, disallowed_state_change, buffer_overrun,
}
use cpp_aec.State.Account.{Db}
use cpp_aec.State.Journal.{State}
use cpp_aec.State.Changes.{rollback, savepoint}
use cpp_aec.State.Proof.Coherent.{IsLawful}
use cpp_aec.State.Proof.Undoing.{Journaled}
use cpp_aec.State.Proof.History.{Steps, Restored, rollback-Restored}
use cpp_aec.Executive.Frame.{Env, Params, Context, no_sub}
use cpp_aec.Executive.Starting.{Executive, revert}
use cpp_aec.Executive.Running.{leave, fail, caught, returned}
use cpp_aec.Executive.Frames.{is_success}

-- REVERT leaves the gas that there is and gives output; every other exception takes all the gas.
abbrev kept_gas : Fault → ℕ → ℕ
kept_gas (revert_instruction out) g = g
kept_gas bad_instruction g = 0
kept_gas bad_jump_destination g = 0
kept_gas out_of_gas g = 0
kept_gas out_of_stack g = 0
kept_gas stack_underflow g = 0
kept_gas disallowed_state_change g = 0
kept_gas buffer_overrun g = 0

abbrev given_output : Fault → List ℕ → List ℕ
given_output (revert_instruction out) before = out
given_output bad_instruction before = before
given_output bad_jump_destination before = before
given_output out_of_gas before = before
given_output out_of_stack before = before
given_output stack_underflow before = before
given_output disallowed_state_change before = before
given_output buffer_overrun before = before

module _ (db : Db) (law : IsLawful db) (env : Env) where
  -- A frame has failed, where it had gas `g` left and output `before`: the accounts are as in `s`.
  pub record Failed (s : State) (f : Fault) (g : ℕ) (before : List ℕ) (e' : Executive)
      : Type 0 where
    pub restored : Restored db law s e'.state
    pub sub_eq : e'.sub ≡ no_sub
    pub address_eq : e'.new_address ≡ 0
    pub gas_eq : e'.gas ≡ kept_gas f g
    pub output_eq : e'.output ≡ given_output f before
    pub fails : is_success e'.excepted ≡ false

  caught-Failed :
      (s : State) (f : Fault) (e : Executive)
      → Restored db law s (rollback db e.savepoint e.state)
      → Failed s f e.gas e.output (caught db env f e)
  unfolding caught fail revert
  caught-Failed s (revert_instruction out) e r = record {
    restored = r;
    sub_eq = refl;
    address_eq = refl;
    gas_eq = refl;
    output_eq = refl;
    fails = refl;
  }
  caught-Failed s bad_instruction e r = record {
    restored = r;
    sub_eq = refl;
    address_eq = refl;
    gas_eq = refl;
    output_eq = refl;
    fails = refl;
  }
  caught-Failed s bad_jump_destination e r = record {
    restored = r;
    sub_eq = refl;
    address_eq = refl;
    gas_eq = refl;
    output_eq = refl;
    fails = refl;
  }
  caught-Failed s out_of_gas e r = record {
    restored = r;
    sub_eq = refl;
    address_eq = refl;
    gas_eq = refl;
    output_eq = refl;
    fails = refl;
  }
  caught-Failed s out_of_stack e r = record {
    restored = r;
    sub_eq = refl;
    address_eq = refl;
    gas_eq = refl;
    output_eq = refl;
    fails = refl;
  }
  caught-Failed s stack_underflow e r = record {
    restored = r;
    sub_eq = refl;
    address_eq = refl;
    gas_eq = refl;
    output_eq = refl;
    fails = refl;
  }
  caught-Failed s disallowed_state_change e r = record {
    restored = r;
    sub_eq = refl;
    address_eq = refl;
    gas_eq = refl;
    output_eq = refl;
    fails = refl;
  }
  caught-Failed s buffer_overrun e r = record {
    restored = r;
    sub_eq = refl;
    address_eq = refl;
    gas_eq = refl;
    output_eq = refl;
    fails = refl;
  }

  -- Where the interpreter throws after changes of the accounts that are a sequence of calls of
  -- State since the savepoint of the frame, from a state that satisfies the invariant, go leaves
  -- every account as it was seen at the savepoint, an empty sub-state, no new address and an
  -- exception set; a revert keeps the gas that is left and gives its output, and any other
  -- exception leaves no gas and no other output.
  pub returned-Failed :
      (ps : Params) (s : State) (f : Fault) (t : Vm Context) (e : Executive)
      → Journaled db s
      → Steps db s t.world.state
      → e.savepoint ≡ savepoint s
      → t.world.stop ≡ none
      → Failed s f t.io_gas e.output (returned db env ps (throw f t) e)
  unfolding returned
  returned-Failed ps s f t e j h q p =
      let r : Restored db law s (rollback db e.savepoint t.world.state) =
        rw q (rollback-Restored db law s t.world.state j h) in
      rw (p, returned) (caught-Failed s f (leave t e) r)
