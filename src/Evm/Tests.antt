-- ===== src/Evm/Tests.antt =====
-- The theorems about the interpreter at concrete machines.
mod Words
mod Content
use cpp_aec.Base.{
  ◌≤◌, ◌%◌, ◌+◌, ℕ, ◌/◌, ◌++◌, ◌≡◌, refl, true, false, List, [], ◌∷◌, replicate, set, arith, some,
  none, length, Option, inl,
}
use cpp_aec.Bytes.{to_big_endian}
use cpp_aec.Evm.Schedule.{constantinople_schedule, byzantium_schedule}
use cpp_aec.Evm.Machine.{
  CallParameters, CallResult, CreateResult, ExtVmFace, Vm, interpret_cases, Outcome, ok, throw,
}
use cpp_aec.Evm.Machine
use cpp_aec.Evm.Gas.{fetch_instruction}
use cpp_aec.Evm.Jumps.{jump_table, verify_jump_dest}
use cpp_aec.Evm.Case.{pay_mem}
use cpp_aec.Evm.Case.Calls.{call_setup, case_call, case_create}
use cpp_aec.Evm.Interpreter.{dispatch, bounce_step, entered, exec}
use cpp_aec.Evm.Proof.Rules.{Ensures}
use cpp_aec.Evm.Proof.Sound.{IsSane, IsFrugal, Sound, CaseDone, CallDone, NoMoreGas}
use cpp_aec.Evm.Proof.Memory.{MemPaid, SameGas, pay_mem-Ensures}
use cpp_aec.Evm.Proof.Calling.{CallPaid, call_setup-Ensures, case_call-Ensures, case_create-Ensures}
use cpp_aec.Evm.Proof.Dispatch.{dispatch-CaseDone}
use cpp_aec.Evm.Proof.Fetching.{Fetched, fetch_instruction-Ensures}
use cpp_aec.Evm.Proof.Running.{Running, Stepped, bounce_step-Ensures}
use cpp_aec.Evm.Proof.Deep.{with_frames, exec-with_frames}
use cpp_aec.Evm.Proof.Ending.{Ends, exec-Ends}
use cpp_aec.Evm.Proof.Worlds.{Maintains}
use cpp_aec.Evm.Proof.JumpTable.{is_dest, verify_jump_dest-is_dest}
use cpp_aec.Evm.Proof.Static.{Same}
use cpp_aec.Evm.Proof.Static.Switch.{dispatch-Same}

-- PUSH1 3 PUSH1 4 ADD PUSH1 0 MSTORE PUSH1 32 PUSH1 0 RETURN
abbrev adding : List ℕ
adding = 0x60 ∷ 3 ∷ 0x60 ∷ 4 ∷ 0x01 ∷ 0x60 ∷ 0 ∷ 0x52 ∷ 0x60 ∷ 32 ∷ 0x60 ∷ 0 ∷ 0xf3 ∷ []

-- One account, whose storage is one word; callees spend half of their gas.
abbrev world : ExtVmFace ℕ
world = record {
  my_address = 1;
  caller = 2;
  origin = 2;
  value = 0;
  gas_price = 1;
  input = [];
  code = adding;
  depth = 0;
  static_call = false;
  author = 3;
  timestamp = 100;
  number = 7;
  difficulty = 1000;
  gas_limit = 4000000;
  evm_schedule = constantinople_schedule;
  store = λ w _. w;
  set_store = λ w _ v. v;
  balance = λ _ _. 10;
  code_at = λ _ _. [];
  code_size_at = λ _ _. 0;
  exists = λ _ _. true;
  suicide = λ w _. w;
  log = λ w _ _. w;
  block_hash = λ _. 5;
  create = λ w _ g _ _ _. record { address = 77; output = []; gas = g / 2; world = w };
  call = λ w p. record { success = true; output = 9 ∷ []; gas = p.gas / 2; world = w };
  sha3 = λ bs. length bs;
}

world-IsSane : IsSane world.evm_schedule
world-IsSane = ground arith

world-IsFrugal : IsFrugal world
world-IsFrugal = record { create_gas = λ _ _ g _ _ _. omega arith; call_gas = λ _ p. omega arith }

-- The output and the gas that is left.
abbrev result : Option (Outcome ℕ (Unit {0})) → List ℕ × ℕ
result none = ([], 0)
result (some (ok _ t)) = (t.output, t.io_gas)
result (some (throw _ t)) = ([], t.io_gas)

-- A run of `adding` returns the word 7.
exec_adding : result (exec world 12 100 0) ≡ (replicate 31 0 ++ 7 ∷ [], 76)
unfolding exec cpp_aec.Evm.Case.Control.case_push1 cpp_aec.Evm.Case.Arithmetic.case_add
    cpp_aec.Evm.Case.simple cpp_aec.Evm.Case.Memory.case_mstore cpp_aec.Evm.Case.Memory.case_return
    cpp_aec.Bytes.write_at to_big_endian
exec_adding = refl

exec-Ends_example : Ends (entered 100 0) (exec world 300 100 0)
exec-Ends_example = exec-Ends world 300 100 0 world-IsSane world-IsFrugal (omega arith)

-- The machine before the first instruction.
abbrev started : Vm ℕ
started = record (entered 100 0) { bounce = interpret_cases; code = adding ++ replicate 33 0 }

started-Sound : Sound started
started-Sound = ground arith

fetch_instruction-Ensures_example :
    Ensures (λ _ t. Fetched world started t) (SameGas started) (fetch_instruction world started)
fetch_instruction-Ensures_example =
    fetch_instruction-Ensures world started world-IsSane started-Sound refl

started-Running : Running started
started-Running = record { sound = started-Sound; waits = inl refl }

bounce_step-Ensures_example :
    Ensures
      (λ _ t. Stepped started t)
      (NoMoreGas started)
      (bounce_step world interpret_cases started)
bounce_step-Ensures_example =
    bounce_step-Ensures world started interpret_cases world-IsSane world-IsFrugal started-Running
      refl refl

-- ADD is fetched with two operands.
abbrev adding_two : Vm ℕ
adding_two = record started {
  stack = set (set (replicate 1024 0) 1022 4) 1023 3;
  op = 0x01;
  sp = 1022;
  spp = 1023;
  run_gas = 3;
}

dispatch-CaseDone_example :
    Ensures (CaseDone adding_two) (NoMoreGas adding_two) (dispatch world 0x01 adding_two)
unfolding cpp_aec.Evm.Instruction.instruction_info
dispatch-CaseDone_example = dispatch-CaseDone world 0x01 adding_two world-IsSane (ground arith) refl

pay_mem-Ensures_example :
    Ensures (λ _ t. MemPaid 5 40 adding_two t) (SameGas adding_two) (pay_mem world 5 40 adding_two)
pay_mem-Ensures_example = pay_mem-Ensures world 5 40 adding_two refl (ground arith) (omega arith)

-- CALL with 50 units of gas, no value, and two ranges of memory.
abbrev calling : Vm ℕ
calling = record started {
  io_gas = 2000;
  stack = replicate 1017 0 ++ 50 ∷ 2 ∷ 0 ∷ 0 ∷ 32 ∷ 32 ∷ 32 ∷ [];
  op = 0xf1;
  sp = 1017;
  spp = 1023;
  bounce = Machine.case_call;
}

calling-Sound : Sound calling
calling-Sound = ground arith

call_setup-Ensures_example :
    Ensures (λ gas t. CallPaid world calling gas t) (NoMoreGas calling) (call_setup world calling)
call_setup-Ensures_example = call_setup-Ensures world calling world-IsSane refl refl

case_call-Ensures_example :
    Ensures (λ _ t. CallDone calling t) (NoMoreGas calling) (case_call world calling)
case_call-Ensures_example =
    case_call-Ensures world calling world-IsSane world-IsFrugal calling-Sound refl

-- CREATE with an endowment of 1 and 10 bytes of code.
abbrev creating : Vm ℕ
creating = record started {
  io_gas = 50000;
  stack = replicate 1021 0 ++ 1 ∷ 0 ∷ 10 ∷ [];
  op = 0xf0;
  sp = 1021;
  spp = 1023;
  bounce = Machine.case_create;
}

case_create-Ensures_example :
    Ensures (λ _ t. CallDone creating t) (NoMoreGas creating) (case_create world creating)
case_create-Ensures_example =
    case_create-Ensures world creating world-IsSane world-IsFrugal (ground arith) refl

-- PUSH1 0x5b hides a JUMPDEST; the next one counts.
abbrev jumping : List ℕ
jumping = 0x60 ∷ 0x5b ∷ 0x5b ∷ []

verify_jump_dest-is_dest_example : verify_jump_dest (jump_table jumping).jump_dests 2 ≡ some 2
unfolding is_dest cpp_aec.Evm.Proof.JumpTable.data_bytes
verify_jump_dest-is_dest_example = verify_jump_dest-is_dest jumping 2

-- PUSH1 1 PUSH1 0 SSTORE, in a frame that must not change state.
abbrev frozen : ExtVmFace ℕ
frozen = record world {
  static_call = true;
  evm_schedule = byzantium_schedule;
  code = 0x60 ∷ 1 ∷ 0x60 ∷ 0 ∷ 0x55 ∷ [];
}

dispatch-Same_example :
    Ensures
      (λ _ t. Same false adding_two t)
      (λ t. t.world ≡ adding_two.world)
      (dispatch frozen 0x55 adding_two)
dispatch-Same_example = dispatch-Same frozen 0x55 adding_two refl

-- A frame at the limit, and calls that answer with other accounts.
abbrev deepest : ExtVmFace ℕ
deepest = record world { depth = 1024 }

abbrev other_call : ℕ → CallParameters → CallResult ℕ
other_call w p = record { success = true; output = 1 ∷ []; gas = 5; world = w + 9 }

abbrev other_create : ℕ → (endowment gas : ℕ) → List ℕ → (op salt : ℕ) → CreateResult ℕ
other_create w v g code op salt = record { address = 3; output = []; gas = 1; world = w + 8 }

exec-with_frames_example :
    exec deepest 300 100 0 ≡ exec (with_frames deepest other_call other_create) 300 100 0
exec-with_frames_example = exec-with_frames deepest other_call other_create refl 300 100 0
