-- ===== src/Executive/Frames.antt =====
-- ExtVM::call and ExtVM::create of libaecereum/ExtVM.cpp: frames within frames. A frame at depth
-- 1024 does not call another: `levels` is how many more can be nested.
use cpp_aec.Base.{
  ℕ, zero, suc, ◌+◌, ◌%◌, ◌==◌, Bool, true, false, List, [], ◌++◌, Option, none, some,
  if◌then◌else◌,
}
use cpp_aec.Evm.Word.{u256_mod}
use cpp_aec.Evm.Machine.{ExtVmFace, CallParameters, CallResult, CreateResult}
use cpp_aec.Evm.Case.Calls.{op_create}
use cpp_aec.State.Account.{Db}
use cpp_aec.Executive.Frame.{Env, Params, SubState, union, Context, make_ext}
use cpp_aec.Executive.Starting.{
  Excepted, Executive, fresh_executive, call, create_opcode, create2_opcode,
}
use cpp_aec.Executive.Running.{go}

-- SubState::operator+=
abbrev pub accrue : SubState → SubState → SubState
accrue to from = record {
  suicides = union from.suicides to.suicides;
  logs = to.logs ++ from.logs;
  refunds = (to.refunds + from.refunds) % u256_mod;
}

-- `if (!e.call(...)) { go(depth, e, onOp); e.accrueSubState(sub); }`: accrueSubState adds nothing
-- where no interpreter was set up.
abbrev pub leave_frame : Executive → Context → Context
leave_frame e w = record { state = e.state; sub = accrue w.sub e.sub; stop = e.stop }

abbrev pub is_success : Option Excepted → Bool
is_success none = true
is_success (some _) = false

module _ (db : Db) (env : Env) (ext : Params → ExtVmFace Context) where
  unfoldable pub ext_call : Params → Context → CallParameters → CallResult Context
  unfolding call go
  ext_call ps w p =
      let e = go db env ext (
        call db env false ps.gas_price ps.origin (ps.depth + 1) p
          (fresh_executive w.state w.stop)) in
      record {
        success = is_success e.excepted;
        output = e.output;
        gas = e.gas;
        world = leave_frame e w;
      }

  unfoldable pub ext_create :
      Params
      → Context
      → (endowment gas : ℕ) → (init_code : List ℕ) → (op salt : ℕ) → CreateResult Context
  unfolding create_opcode create2_opcode go
  ext_create ps w endowment gas init op salt =
      let begun =
        if op == op_create
        then create_opcode db env ps.my_address endowment ps.gas_price gas ps.origin (ps.depth + 1)
            init (fresh_executive w.state w.stop)
        else create2_opcode db env ps.my_address endowment ps.gas_price gas ps.origin (ps.depth + 1)
            init salt (fresh_executive w.state w.stop) in
      let e = go db env ext begun in
      record { address = e.new_address; output = e.output; gas = e.gas; world = leave_frame e w }

-- At depth 1024 these are not called: the interpreter tests the depth before.
abbrev pub no_call : Context → CallParameters → CallResult Context
no_call w p = record { success = false; output = []; gas = 0; world = w }

abbrev pub no_create :
    Context → (endowment gas : ℕ) → (init_code : List ℕ) → (op salt : ℕ) → CreateResult Context
no_create w endowment gas init op salt = record { address = 0; output = []; gas = 0; world = w }

unfoldable pub ext_vm : Db → Env → (levels : ℕ) → Params → ExtVmFace Context
unfolding make_ext ext_call ext_create
ext_vm db env zero ps = make_ext db env no_call no_create ps
ext_vm db env (suc levels) ps =
    let below = ext_vm db env levels in
    make_ext db env (ext_call db env below ps) (ext_create db env below ps) ps
