-- ===== src/Executive/Tests.antt =====
-- The theorems about frames within frames at a small block.
use cpp_aec.Base.{
  refl, Bool-cases, inl, inr, ◌≡◌, ℕ, ◌+◌, ◌==◌, true, false, List, [], ◌∷◌, none, some, length,
  if◌then◌else◌, arith,
}
use cpp_aec.Evm.Schedule.{byzantium_schedule, constantinople_schedule}
use cpp_aec.Evm.Proof.Sound.{IsSane}
use cpp_aec.State.Account.{Db, Stored}
use cpp_aec.State.Journal.{State, state_of}
use cpp_aec.State.Cache
use cpp_aec.State.Cache.{account_code, get_nonce}
use cpp_aec.State.Changes.{transfer_balance}
use cpp_aec.State.World.{world}
use cpp_aec.State.Spec
use cpp_aec.State.Proof.Refining.{answer}
use cpp_aec.State.Proof.Coherent.{IsLawful}
use cpp_aec.State.Proof.Undoing.{Journaled}
use cpp_aec.State.Proof.History.{here, next, transfer}
use cpp_aec.Executive.Frame.{Env, Params, Context, no_sub}
use cpp_aec.Executive.Starting.{Executive, fresh_executive}
use cpp_aec.Executive.Frames.{ext_vm}
use cpp_aec.Executive.Running.{go, returned}
use cpp_aec.Evm.Interpreter.{exec, entered}
use cpp_aec.Evm.Machine.{Vm, throw, revert_instruction}
use cpp_aec.Executive.Proof.Depth.{ext_vm-enough}
use cpp_aec.Executive.Proof.Failing.{Failed, returned-Failed}
use cpp_aec.Executive.Proof.Static.Levels.{CalmEnd, ext_vm-CalmEnd}
use cpp_aec.Executive.Proof.Feeding.{IsFed, go-IsFed_levels}
use cpp_aec.Executive.Transaction.{
  given_back, fees_earned, pay_out, Transaction, contract_creation, initialize,
}
use cpp_aec.Executive.Proof.Settling.{Paid, run_transaction-Paid}
use cpp_aec.Executive.Proof.Paying.{pay_out-answer}
use cpp_aec.Executive.Proof.Spending.{IsFair, ext_vm-IsFair}

-- An account with money.
abbrev rich : Stored
rich = record { nonce = 5; balance = 1000000; storage_root = 9; code_hash = 0 }

abbrev db : Db
db = record {
  at = λ a. if a == 1 then some rich else none;
  storage_at = λ root key. 0;
  code_of = λ h. [];
  sha3 = λ bs. length bs;
  empty_trie = 0;
  random = λ draws n. 0;
}

abbrev env : Env
env = record {
  author = 7;
  timestamp = 1000;
  number = 50;
  difficulty = 3;
  gas_limit = 100000;
  evm_schedule = constantinople_schedule;
  eip158_fork_block = 10;
  constantinople_fork_block = 40;
  last_hash = λ n. 100 + n;
  hash_from_contract = λ caller n. n;
  is_precompiled = λ a. a == 4;
  cost_of_precompiled = λ a input. 15 + length input;
  execute_precompiled = λ a input. (true, input);
  create_address = λ sender nonce. 1000 + sender + nonce;
  create2_address = λ sender salt code. 2000 + sender + salt;
}

abbrev empty : State
empty = record {
  cache = [];
  unchanged_entries = [];
  non_existing = [];
  start_nonce = 0;
  change_log = [];
  draws = 0;
}

-- A frame that puts 7 into memory and returns it.
abbrev adding : List ℕ
adding = 0x60 ∷ 7 ∷ 0x60 ∷ 0 ∷ 0x52 ∷ 0x60 ∷ 32 ∷ 0x60 ∷ 0 ∷ 0xf3 ∷ []

abbrev params : Params
params = record {
  my_address = 2;
  caller = 1;
  origin = 1;
  value = 0;
  gas_price = 1;
  input = [];
  code = adding;
  depth = 0;
  is_create = false;
  static_call = false;
}

abbrev begun : Executive
begun = record (fresh_executive empty none) { gas = 100; ext = some params }

env-IsSane : IsSane env.evm_schedule
env-IsSane = ground arith

ext_vm-IsFair_example : IsFair db env (ext_vm db env 1024)
ext_vm-IsFair_example = ext_vm-IsFair db env 1024 env-IsSane

ext_vm-enough_example : exec (ext_vm db env 1024 params) ≡ exec (ext_vm db env 2000 params)
ext_vm-enough_example = ext_vm-enough db env 1024 2000 params (omega arith) (omega arith)

go-IsFed_levels_example : IsFed (go db env (ext_vm db env 3) begun).stop
go-IsFed_levels_example = go-IsFed_levels db env 3 begun env-IsSane tt

db-no_collision : (bs : List ℕ) → length bs ≡ 0 → bs ≡ []
db-no_collision [] h = refl
db-no_collision (b ∷ bs) h = absurd (omega arith)

db-IsLawful : IsLawful db
unfolding account_code
db-IsLawful = record {
  no_collision = db-no_collision;
  code_known = λ a st h. elim (Bool-cases (a == 1)) [ inl e ↦ ground arith | inr e ↦ ground arith ];
  in_range = λ a st h. ground arith;
}

empty-Journaled : Journaled db empty
empty-Journaled = record {
  coherent = record {
    missing = λ a h. cc h;
    clean = λ a acc h u. cc h;
    fits = λ a acc h. cc h;
    logged = tt;
  };
  restores = tt;
}

-- Before CREATE2; and a frame that must not change state, which calls the account 9 for a read.
abbrev earlier : Env
earlier = record env { evm_schedule = byzantium_schedule }

earlier-IsSane : IsSane earlier.evm_schedule
earlier-IsSane = ground arith

abbrev asking : Params
asking = record params {
  code = 0x60 ∷ 32 ∷ 0x60 ∷ 0 ∷ 0x60 ∷ 0 ∷ 0x60 ∷ 0 ∷ 0x60 ∷ 9 ∷ 0x60 ∷ 40 ∷ 0xfa ∷ [];
  static_call = true;
}

abbrev outset : Context
outset = record { state = empty; sub = no_sub; stop = none }

ext_vm-CalmEnd_example : CalmEnd db outset (exec (ext_vm db earlier 1024 asking) 3000 1000 outset)
ext_vm-CalmEnd_example =
    ext_vm-CalmEnd db db-IsLawful earlier 1024 3000 1000 asking outset earlier-IsSane refl refl
      empty-Journaled (omega arith)

-- The machine after a transfer, where it reverts with one byte.
abbrev moved : State
moved = state_of (transfer_balance db 1 2 30 empty)

abbrev reverting : Vm Context
reverting = record (entered 60 (record { state = moved; sub = no_sub; stop = none })) { pc = 9 }

returned-Failed_example :
    Failed db db-IsLawful env empty
      (revert_instruction (9 ∷ []))
      60
      []
      (returned db env params (throw (revert_instruction (9 ∷ [])) reverting) begun)
returned-Failed_example =
    returned-Failed db db-IsLawful env params empty (revert_instruction (9 ∷ [])) reverting begun
      empty-Journaled (next (here refl) (transfer 1 2 30 empty (omega arith))) refl refl

-- A creation with init code that returns the word 7 as the code of the new account.
abbrev creation : Transaction
creation = record {
  type = contract_creation;
  sender = 1;
  nonce = 5;
  value = 3;
  receive_address = 0;
  gas_price = 2;
  gas = 90000;
  data_bytes = adding;
  has_zero_signature = false;
}

accepted : initialize db env (λ t. true) 0 creation empty ≡ inr 180000
unfolding initialize get_nonce Cache.balance
accepted = refl

run_transaction-Paid_example : Paid db db-IsLawful env 1024 180000 creation empty
run_transaction-Paid_example =
    run_transaction-Paid db db-IsLawful env (λ t. true) 0 1024 180000 creation empty env-IsSane
      empty-Journaled (omega arith) refl refl accepted

-- A creation that has used half of its gas.
abbrev half_used : Executive
half_used = record (fresh_executive empty none) { gas = 45000 }

pay_out-answer_example :
    answer db (pay_out db env creation half_used)
    ≡ Spec.and_then db
        (Spec.credit db 1 (given_back db env creation half_used) (world db empty) 0)
        (Spec.credit db 7 (fees_earned db env creation half_used))
pay_out-answer_example = pay_out-answer db db-IsLawful env creation half_used empty-Journaled refl
