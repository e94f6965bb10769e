-- ===== src/Executive/Frame.antt =====
-- class ExtVM of libaecereum/ExtVM.h and ExtVM.cpp, and what the interpreter sees through it. What
-- its reads leave in the cache of State is dropped.
use cpp_aec.Base.{
  ◌+◌, ◌-◌, ◌%◌, ◌||◌, leb, ltb, max, ℕ, Bool, List, [], ◌∷◌, ◌++◌, Option, some, length,
  if◌then◌else◌,
}
use cpp_aec.Base.Dict.{contains}
use cpp_aec.Evm.Word.{u256_mod}
use cpp_aec.Evm.Schedule.{EvmSchedule, emptiness_is_nonexistence}
use cpp_aec.Evm.Machine.{ExtVmFace, CallParameters, CallResult, CreateResult}
use cpp_aec.State.Account.{Db}
use cpp_aec.State.Journal.{State, StateFault, Outcome, done, throw, ◌>>>◌}
use cpp_aec.State.Cache
use cpp_aec.State.Cache.{account_nonempty_and_existing, address_in_use}
use cpp_aec.State.Changes.{credit, set_balance, set_store}

-- struct LogEntry
pub record LogEntry : Type 0 where
  pub address : ℕ
  pub topics : List ℕ
  pub data_bytes : List ℕ

-- struct SubState; `suicides` is a set.
pub record SubState : Type 0 where
  pub suicides : List ℕ
  pub logs : List LogEntry
  pub refunds : ℕ

abbrev pub no_sub : SubState
no_sub = record { suicides = []; logs = []; refunds = 0 }

abbrev pub insert_suicide : ℕ → List ℕ → List ℕ
insert_suicide a xs = if contains a xs then xs else a ∷ xs

abbrev pub union : List ℕ → List ℕ → List ℕ
union [] ys = ys
union (x ∷ xs) ys = insert_suicide x (union xs ys)

-- The process ends in `go`, by `exit(1)` on an exception of State; or a run of the model has not
-- had fuel enough.
pub data Stop : Type 0 where
  exits : StateFault → Stop
  no_fuel : Stop

-- What a frame changes: m_s, and m_ext->sub but for the refunds of the frame's own SSTOREs, which
-- the interpreter keeps.
pub record Context : Type 0 where
  pub state : State
  pub sub : SubState
  pub stop : Option Stop

-- The block, the chain's parameters and the precompiled contracts (EnvInfo and SealEngineFace), the
-- hashes of earlier blocks, what the contract of block hashes answers from Constantinople on, and
-- the addresses of new contracts, which are hashes.
pub record Env : Type 0 where
  pub author : ℕ
  pub timestamp : ℕ
  pub number : ℕ
  pub difficulty : ℕ
  pub gas_limit : ℕ
  pub evm_schedule : EvmSchedule
  pub eip158_fork_block : ℕ
  pub constantinople_fork_block : ℕ
  pub last_hash : ℕ → ℕ
  pub hash_from_contract : (caller number : ℕ) → ℕ
  pub is_precompiled : ℕ → Bool
  pub cost_of_precompiled : ℕ → List ℕ → ℕ
  pub execute_precompiled : ℕ → List ℕ → Bool × List ℕ
  pub create_address : (sender nonce : ℕ) → ℕ
  pub create2_address : (sender salt : ℕ) → List ℕ → ℕ

-- The arguments of ExtVM's constructor.
pub record Params : Type 0 where
  pub my_address : ℕ
  pub caller : ℕ
  pub origin : ℕ
  pub value : ℕ
  pub gas_price : ℕ
  pub input : List ℕ
  pub code : List ℕ
  pub depth : ℕ
  pub is_create : Bool
  pub static_call : Bool

-- ExtVM::blockHash; `last_hash i` is the hash of the ancestor i behind the parent. That its last
-- branch clears the cache of State is left out.
unfoldable pub block_hash : Env → (caller number : ℕ) → ℕ
block_hash env caller n =
    if leb env.number n || ltb n (max 256 env.number - 256)
    then 0
    else if ltb env.number ((env.constantinople_fork_block + 256) % u256_mod)
    then env.last_hash (env.number - 1 - n)
    else env.hash_from_contract caller n

-- An exception of State leaves ExtVM and the interpreter, and `go` ends the process.
abbrev pub after : Outcome → Context → Context
after (done s) w = record w { state = s }
after (throw e s) w = record w { state = s; stop = some (exits e) }

module _ (db : Db) where
  -- ExtVM::suicide
  unfoldable pub suicide : (my_address beneficiary : ℕ) → Context → Context
  suicide my a w =
      let moved =
        credit db a (Cache.balance db my w.state) w.state >>> λ s. set_balance db my 0 s in
      let w' = after moved w in
      record w' { sub = record w'.sub { suicides = insert_suicide my w'.sub.suicides } }

  -- ExtVM::exists
  unfoldable pub exists : EvmSchedule → Context → ℕ → Bool
  exists g w a =
      if emptiness_is_nonexistence g
      then account_nonempty_and_existing db a w.state
      else address_in_use db a w.state

  -- `call` and `create` run another frame.
  unfoldable pub make_ext :
      Env
      → (call : Context → CallParameters → CallResult Context)
      → (create : Context
          → (endowment gas : ℕ) → (init_code : List ℕ) → (op salt : ℕ) → CreateResult Context)
      → Params
      → ExtVmFace Context
  unfolding suicide exists block_hash
  make_ext env call create ps = record {
    my_address = ps.my_address;
    caller = ps.caller;
    origin = ps.origin;
    value = ps.value;
    gas_price = ps.gas_price;
    input = ps.input;
    code = ps.code;
    depth = ps.depth;
    static_call = ps.static_call;
    author = env.author;
    timestamp = env.timestamp;
    number = env.number;
    difficulty = env.difficulty;
    gas_limit = env.gas_limit;
    evm_schedule = env.evm_schedule;
    store = λ w n. (Cache.storage db ps.my_address n w.state).1;
    set_store = λ w n v. after (set_store db ps.my_address n v w.state) w;
    balance = λ w a. Cache.balance db a w.state;
    code_at = λ w a. (Cache.code db a w.state).1;
    code_size_at = λ w a. length (Cache.code db a w.state).1;
    exists = exists env.evm_schedule;
    suicide = λ w a. suicide ps.my_address a w;
    log = λ w topics bytes. record w {
      sub = record w.sub {
        logs =
            w.sub.logs
            ++ record { address = ps.my_address; topics = topics; data_bytes = bytes } ∷ [];
      };
    };
    block_hash = block_hash env ps.caller;
    create = create;
    call = call;
    sha3 = db.sha3;
  }
