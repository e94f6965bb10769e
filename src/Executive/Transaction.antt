-- ===== src/Executive/Transaction.antt =====
-- class Executive of libaecereum/Executive.cpp: a transaction from initialize to finalize, as
-- executeTransaction of libaecereum/State.cpp runs it, with the gas of libaeccore/TransactionBase.cpp
-- and SealEngine.cpp.
use cpp_aec.Base.{
  ℕ, ◌+◌, ◌-◌, ◌*◌, ◌/◌, ◌%◌, ◌==◌, Bool, true, false, not, ltb, min, List, [], ◌∷◌, Option, none,
  some, ◌⊎◌, inl, inr, length, if◌then◌else◌,
}
use cpp_aec.Evm.Word.{u64_mod, u256_mod}
use cpp_aec.State.Account.{Db}
use cpp_aec.State.Journal.{State, Outcome, done, ◌>>>◌}
use cpp_aec.State.Cache
use cpp_aec.State.Cache.{get_nonce}
use cpp_aec.State.Changes.{credit, debit, kill_account}
use cpp_aec.Executive.Frame.{Env, Params}
use cpp_aec.Executive.Starting.{Executive, fresh_executive, and_then, call, create_opcode}
use cpp_aec.Executive.Running.{go}
use cpp_aec.Executive.Frames.{ext_vm}

pub data TransactionType : Type 0 where
  null_transaction contract_creation message_call : TransactionType

pub record Transaction : Type 0 where
  pub type : TransactionType
  pub sender : ℕ
  pub nonce : ℕ
  pub value : ℕ
  pub receive_address : ℕ
  pub gas_price : ℕ
  pub gas : ℕ
  pub data_bytes : List ℕ
  pub has_zero_signature : Bool

abbrev pub is_creation : TransactionType → Bool
is_creation null_transaction = false
is_creation contract_creation = true
is_creation message_call = false

abbrev pub is_null : TransactionType → Bool
is_null null_transaction = true
is_null contract_creation = false
is_null message_call = false

-- What initialize throws.
pub data Refusal : Type 0 where
  invalid_signature out_of_gas_intrinsic block_gas_limit_reached : Refusal
  invalid_nonce not_enough_cash : Refusal

module _ (env : Env) where
  abbrev data_gas : List ℕ → ℕ
  data_gas [] = 0
  data_gas (b ∷ bs) =
      (if b == 0 then env.evm_schedule.tx_data_zero_gas else env.evm_schedule.tx_data_non_zero_gas)
      + data_gas bs

  -- baseGasRequired
  unfoldable pub base_gas_required : Transaction → ℕ
  base_gas_required t =
      (if is_creation t.type then env.evm_schedule.tx_create_gas else env.evm_schedule.tx_gas)
      + data_gas t.data_bytes

module _ (db : Db) (env : Env) where
  -- initialize: what it throws, or m_gasCost. The checks of verifyTransaction on signatures give
  -- `is_signed`; `gas_used` is the gas of the block up to here.
  unfoldable pub initialize :
      (is_signed : Transaction → Bool) (gas_used : ℕ) → Transaction → State → Refusal ⊎ ℕ
  unfolding base_gas_required
  initialize is_signed gas_used t s =
      if not (is_signed t)
      then inl invalid_signature
      else if ltb t.gas (base_gas_required env t)
      then inl out_of_gas_intrinsic
      else if ltb env.gas_limit (gas_used + t.gas)
      then inl block_gas_limit_reached
      else if t.has_zero_signature
      then inr 0
      else if not (t.nonce == get_nonce db t.sender s)
      then inl invalid_nonce
      else if ltb (Cache.balance db t.sender s) (t.value + t.gas * t.gas_price)
      then inl not_enough_cash
      else inr (t.gas * t.gas_price % u256_mod)

  -- execute, once the gas is paid.
  unfoldable pub begin : Transaction → Executive → Executive
  unfolding call create_opcode base_gas_required
  begin t e =
      let gas = t.gas - base_gas_required env t in
      if is_creation t.type
      then create_opcode db env t.sender t.value t.gas_price gas t.sender 0 t.data_bytes e
      else call db env (not (is_null t.type)) t.gas_price t.sender 0
          (record {
            sender_address = t.sender;
            code_address = t.receive_address;
            receive_address = t.receive_address;
            value_transfer = t.value;
            apparent_value = t.value;
            gas = gas;
            input_data = t.data_bytes;
            static_call = false;
          })
          e

  -- execute
  unfoldable pub execute : Transaction → (gas_cost : ℕ) → Executive → Executive
  unfolding begin
  execute t gas_cost e = and_then (debit db t.sender gas_cost e.state) e (begin t)

  -- m_ext->sub.refunds, with the refunds of suicides.
  unfoldable pub refunds : Executive → ℕ
  refunds e = elim e.ext [
    | none ↦ 0
    | some ps ↦
        (e.sub.refunds + env.evm_schedule.suicide_refund_gas * length e.sub.suicides % u64_mod)
        % u256_mod
  ]

  -- m_refunded
  unfoldable pub refunded : Transaction → Executive → ℕ
  unfolding refunds
  refunded t e = min ((t.gas + u256_mod - e.gas) % u256_mod / 2) (refunds e)

  unfoldable pub gas_left : Transaction → Executive → ℕ
  unfolding refunded
  gas_left t e = (e.gas + refunded t e) % u256_mod

  -- gasUsed, after finalize
  unfoldable pub gas_used : Transaction → Executive → ℕ
  unfolding gas_left
  gas_used t e = (t.gas + u256_mod - gas_left t e) % u256_mod

  unfoldable pub given_back : Transaction → Executive → ℕ
  unfolding gas_left
  given_back t e = gas_left t e * t.gas_price % u256_mod

  unfoldable pub fees_earned : Transaction → Executive → ℕ
  unfolding gas_used
  fees_earned t e = gas_used t e * t.gas_price % u256_mod

  abbrev kill_all : List ℕ → State → State
  kill_all [] s = s
  kill_all (a ∷ rest) s = kill_all rest (kill_account db a s)

  unfoldable pub pay_out : Transaction → Executive → Outcome
  unfolding given_back fees_earned
  pay_out t e =
      if is_null t.type
      then done e.state
      else credit db t.sender (given_back t e) e.state >>> credit db env.author (fees_earned t e)

  abbrev pub kill_suicides : Option Params → Executive → Executive
  kill_suicides none e = e
  kill_suicides (some ps) e = record e { state = kill_all e.sub.suicides e.state }

  -- finalize; m_logs is the logs of the sub-state.
  unfoldable pub finalize : Transaction → Executive → Executive
  unfolding pay_out gas_left
  finalize t e = and_then (pay_out t e) (record e { gas = gas_left t e }) (kill_suicides e.ext)

  -- executeTransaction, after initialize.
  unfoldable pub run_transaction : (levels gas_cost : ℕ) → Transaction → State → Executive
  unfolding execute go
  run_transaction levels gas_cost t s =
      go db env (ext_vm db env levels) (execute t gas_cost (fresh_executive s none))

  unfoldable pub execute_transaction :
      (is_signed : Transaction → Bool) (gas_used levels : ℕ)
      → Transaction
      → State
      → Refusal ⊎ Executive
  unfolding initialize run_transaction finalize
  execute_transaction is_signed gas_used levels t s = elim (initialize is_signed gas_used t s) [
    | inl r ↦ inl r
    | inr gas_cost ↦ inr (finalize t (run_transaction levels gas_cost t s))
  ]
