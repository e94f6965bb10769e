-- ===== src/Executive/Starting.antt =====
-- class Executive of libaecereum/Executive.cpp: how a call or a creation begins, up to the run of the
-- interpreter.
use cpp_aec.Base.{
  ℕ, ◌+◌, ◌-◌, ◌%◌, ◌^◌, ◌==◌, ◌||◌, Bool, true, false, not, ltb, leb, List, [], ◌∷◌, Option, none,
  some, if◌then◌else◌,
}
use cpp_aec.Evm.Word.{u256_mod}
use cpp_aec.Evm.Machine.{CallParameters, Fault}
use cpp_aec.State.Account.{Db}
use cpp_aec.State.Journal.{State, Outcome, done, throw, ◌>>>◌, with_start_nonce}
use cpp_aec.State.Cache
use cpp_aec.State.Cache.{load, address_has_code, get_nonce}
use cpp_aec.State.Changes.{
  increment_nonce, change_nonce, credit, transfer_balance, rollback, savepoint,
}
use cpp_aec.Executive.Frame.{Env, Params, SubState, no_sub, Stop, exits}

-- TransactionException, as far as a call or a creation sets it.
pub data Excepted : Type 0 where
  out_of_gas_base out_of_gas address_already_used reverted : Excepted
  vm_fault : Fault → Excepted

-- The members of Executive; `ext` and `sub` are m_ext with its sub-state.
pub record Executive : Type 0 where
  pub state : State
  pub stop : Option Stop
  pub ext : Option Params
  pub sub : SubState
  pub output : List ℕ
  pub excepted : Option Excepted
  pub gas : ℕ
  pub is_creation : Bool
  pub new_address : ℕ
  pub savepoint : ℕ

-- Executive{m_s, envInfo(), m_sealEngine, depth}
abbrev pub fresh_executive : State → Option Stop → Executive
fresh_executive s stop = record {
  state = s;
  stop = stop;
  ext = none;
  sub = no_sub;
  output = [];
  excepted = none;
  gas = 0;
  is_creation = false;
  new_address = 0;
  savepoint = 0;
}

-- MaxAddress
abbrev pub max_address : ℕ
max_address = 2 ^ 160 - 1

-- An exception of State leaves the member function. It is told apart from one that it sets.
abbrev pub and_then : Outcome → Executive → (Executive → Executive) → Executive
and_then (done s) e f = f (record e { state = s })
and_then (throw x s) e f = record e { state = s; stop = some (exits x) }

module _ (db : Db) where
  unfoldable pub revert : Executive → Executive
  revert e = record e { sub = no_sub; new_address = 0; state = rollback db e.savepoint e.state }

module _ (db : Db) (env : Env) where
  -- EIP86: the nonce of the sender, unless that is MaxAddress from Constantinople on.
  abbrev pub bump_nonce : ℕ → State → Outcome
  bump_nonce sender s =
      if not (sender == max_address) || ltb env.number env.constantinople_fork_block
      then increment_nonce db sender s
      else done s

  unfoldable pub transfer : CallParameters → Executive → Executive
  transfer p e =
      and_then (transfer_balance db p.sender_address p.receive_address p.value_transfer e.state) e
        (λ x. x)

  unfoldable pub call_precompiled : CallParameters → Executive → Executive
  unfolding transfer
  call_precompiled p e =
      let g = env.cost_of_precompiled p.code_address p.input_data in
      let result = env.execute_precompiled p.code_address p.input_data in
      if ltb p.gas g
      then (let failed = record e { excepted = some out_of_gas_base } in
          if leb env.eip158_fork_block env.number
          then and_then (credit db p.code_address 0 e.state) failed (λ x. x)
          else failed)
      else if result.0
      then transfer p (record e { gas = p.gas - g; output = result.1 })
      else record e { gas = 0; output = result.1; excepted = some out_of_gas }

  -- The account's code is run, if it has any.
  unfoldable pub call_code : (gas_price origin depth : ℕ) → CallParameters → Executive → Executive
  unfolding transfer
  call_code gas_price origin depth p e =
      let e' = record e { gas = p.gas; state = load db p.code_address e.state } in
      if address_has_code db p.code_address e.state
      then (let (s, code) = Cache.code db p.code_address e'.state in
          transfer p (record e' {
            state = s;
            ext = some (record {
              my_address = p.receive_address;
              caller = p.sender_address;
              origin = origin;
              value = p.apparent_value;
              gas_price = gas_price;
              input = p.input_data;
              code = code;
              depth = depth;
              is_create = false;
              static_call = p.static_call;
            });
          }))
      else transfer p e'

  -- call, from the savepoint on.
  unfoldable pub call_from_savepoint :
      (gas_price origin depth : ℕ) → CallParameters → Executive → Executive
  unfolding call_precompiled call_code
  call_from_savepoint gas_price origin depth p e =
      let e' = record e { savepoint = savepoint e.state } in
      if env.is_precompiled p.code_address
      then call_precompiled p e'
      else call_code gas_price origin depth p e'

  -- call; `is_transaction` is m_t. It has returned true where no `ext` is set.
  unfoldable pub call :
      (is_transaction : Bool) (gas_price origin depth : ℕ) → CallParameters → Executive → Executive
  unfolding call_from_savepoint
  call is_transaction gas_price origin depth p e =
      and_then (if is_transaction then bump_nonce p.sender_address e.state else done e.state) e
        (call_from_savepoint gas_price origin depth p)

  unfoldable pub new_nonce : ℕ → ℕ
  new_nonce n = if leb env.eip158_fork_block env.number then (n + 1) % u256_mod else n

  -- Only a creation with init code runs the interpreter.
  abbrev pub schedule_init : Params → List ℕ → Executive → Executive
  schedule_init ps [] x = x
  schedule_init ps (c ∷ cs) x = record x { ext = some (record ps { code = c ∷ cs }) }

  abbrev pub init_params : (address sender origin endowment gas_price depth : ℕ) → Params
  init_params address sender origin endowment gas_price depth = record {
    my_address = address;
    caller = sender;
    origin = origin;
    value = endowment;
    gas_price = gas_price;
    input = [];
    code = [];
    depth = depth;
    is_create = true;
    static_call = false;
  }

  -- executeCreate, from the test of the address on.
  unfoldable pub create_account_at :
      (sender endowment gas_price gas origin depth : ℕ) → List ℕ → Executive → Executive
  unfolding new_nonce
  create_account_at sender endowment gas_price gas origin depth init e =
      let a = e.new_address in
      and_then
        (transfer_balance db sender a endowment e.state >>> λ s.
          with_start_nonce s (λ n. change_nonce db a (new_nonce n) s))
        e (schedule_init (init_params a sender origin endowment gas_price depth) init)

  unfoldable pub execute_create :
      (sender endowment gas_price gas origin depth : ℕ) → List ℕ → Executive → Executive
  unfolding create_account_at revert
  execute_create sender endowment gas_price gas origin depth init e =
      and_then (bump_nonce sender e.state) e (λ x.
        let a = x.new_address in
        let begun = record x {
          savepoint = savepoint x.state;
          is_creation = true;
          gas = gas;
          state = load db a x.state;
        } in
        if address_has_code db a x.state || ltb 0 (get_nonce db a x.state)
        then revert db (record begun { gas = 0; excepted = some address_already_used; ext = none })
        else create_account_at sender endowment gas_price gas origin depth init begun)

  unfoldable pub create_opcode :
      (sender endowment gas_price gas origin depth : ℕ) → List ℕ → Executive → Executive
  unfolding execute_create
  create_opcode sender endowment gas_price gas origin depth init e =
      execute_create sender endowment gas_price gas origin depth init (record e {
        state = load db sender e.state;
        new_address = env.create_address sender (get_nonce db sender e.state);
      })

  unfoldable pub create2_opcode :
      (sender endowment gas_price gas origin depth : ℕ) → List ℕ → ℕ → Executive → Executive
  unfolding execute_create
  create2_opcode sender endowment gas_price gas origin depth init salt e =
      execute_create sender endowment gas_price gas origin depth init
        (record e { new_address = env.create2_address sender salt init })
