-- ===== src/Executive/Running.antt =====
-- class Executive of libaecereum/Executive.cpp: the run of the interpreter, and the end of a
-- transaction.
use cpp_aec.Base.{
  ℕ, ◌+◌, ◌-◌, ◌*◌, ◌%◌, ltb, leb, List, [], Option, none, some, length, if◌then◌else◌,
}
use cpp_aec.Evm.Word.{u64_mod, u256_mod}
use cpp_aec.Evm.Machine.{
  ExtVmFace, Vm, Fault, Outcome, ok, throw, out_of_gas, revert_instruction, bad_instruction,
  bad_jump_destination, out_of_stack, stack_underflow, disallowed_state_change, buffer_overrun,
}
use cpp_aec.Evm.Interpreter.{exec}
use cpp_aec.State.Account.{Db}
use cpp_aec.State.Changes.{clear_store, change_code}
use cpp_aec.Executive.Frame.{Env, Params, no_sub, Context, Stop, no_fuel, after}
use cpp_aec.Executive.Starting.{reverted, vm_fault, Executive, and_then, revert}

-- The accounts, the sub-state and the gas that the interpreter leaves.
abbrev pub leave : Vm Context → Executive → Executive
leave t e = record e {
  state = t.world.state;
  stop = t.world.stop;
  sub = record t.world.sub { refunds = (t.world.sub.refunds + t.refunds) % u256_mod };
  gas = t.io_gas;
}

module _ (db : Db) (env : Env) where
  -- `catch (VMException const&)`
  unfoldable pub fail : Fault → Executive → Executive
  unfolding revert
  fail f e = revert db (record e { gas = 0; excepted = some (vm_fault f) })

  -- The handlers of `go`: a revert keeps the gas, and gives its output.
  unfoldable pub caught : Fault → Executive → Executive
  unfolding fail revert
  caught (revert_instruction out) e = record (revert db e) {
    output = out;
    excepted = some reverted;
  }
  caught bad_instruction e = fail bad_instruction e
  caught bad_jump_destination e = fail bad_jump_destination e
  caught out_of_gas e = fail out_of_gas e
  caught out_of_stack e = fail out_of_stack e
  caught stack_underflow e = fail stack_underflow e
  caught disallowed_state_change e = fail disallowed_state_change e
  caught buffer_overrun e = fail buffer_overrun e

  abbrev pub deposit_cost : List ℕ → ℕ
  deposit_cost out = length out * env.evm_schedule.create_data_gas % u64_mod

  abbrev pub set_code : ℕ → List ℕ → Executive → Executive
  set_code a code e = and_then (change_code db a code e.state) e (λ x. x)

  -- What a creation does with the output of its init code.
  unfoldable pub deposit : ℕ → List ℕ → Executive → Executive
  unfolding fail
  deposit a out e =
      if ltb env.evm_schedule.max_code_size (length out)
      then fail out_of_gas e
      else if leb (deposit_cost out) e.gas
      then set_code a out (record e { gas = e.gas - deposit_cost out })
      else if env.evm_schedule.exceptional_failed_code_deposit
      then fail out_of_gas e
      else set_code a [] e

  -- The end of the interpreter's run. After `exit(1)` in an inner frame there is no more to do.
  unfoldable pub returned : Params → Outcome Context (Unit {0}) → Executive → Executive
  unfolding deposit caught
  returned ps (ok _ t) e = elim t.world.stop [
    | some _ ↦ leave t e
    | none ↦
        if ps.is_create
        then deposit ps.my_address t.output (leave t e)
        else record (leave t e) { output = t.output }
  ]
  returned ps (throw f t) e = elim t.world.stop [ some _ ↦ leave t e | none ↦ caught f (leave t e) ]

  -- Enough for every run of the interpreter.
  abbrev pub fuel_for : ℕ → ℕ
  fuel_for gas = 2 * (gas % u64_mod) + 3

  abbrev pub finished : Params → Option (Outcome Context (Unit {0})) → Executive → Executive
  finished ps none e = record e { stop = some no_fuel }
  finished ps (some o) e = returned ps o e

  unfoldable pub run : (Params → ExtVmFace Context) → Params → Executive → Executive
  unfolding returned
  run ext ps e =
      let w : Context = record { state = e.state; sub = no_sub; stop = e.stop } in
      let begun = if ps.is_create then after (clear_store db ps.my_address e.state) w else w in
      finished ps (exec (ext ps) (fuel_for e.gas) e.gas begun) e

  unfoldable pub go_from :
      (Params → ExtVmFace Context) → Option Stop → Option Params → Executive → Executive
  unfolding run
  go_from ext (some x) ps e = e
  go_from ext none none e = e
  go_from ext none (some ps) e = run ext ps e

  -- go, with the interpreter's view of the frames that it calls.
  unfoldable pub go : (Params → ExtVmFace Context) → Executive → Executive
  unfolding go_from
  go ext e = go_from ext e.stop e.ext e
