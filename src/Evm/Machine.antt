-- ===== src/Evm/Machine.antt =====
-- libevm/LegacyVM.h: the state of the interpreter, the exceptions of libevm/VMFace.h, and the
-- interface libevm/ExtVMFace.h through which it sees accounts and blocks.
use cpp_aec.Base.{ℕ, Bool, List, if◌then◌else◌}
use cpp_aec.Evm.Schedule.{EvmSchedule}

-- struct CallParameters, but for the tracing callback.
pub record CallParameters : Type 0 where
  pub sender_address : ℕ
  pub code_address : ℕ
  pub receive_address : ℕ
  pub value_transfer : ℕ
  pub apparent_value : ℕ
  pub gas : ℕ
  pub input_data : List ℕ
  pub static_call : Bool

-- What a message call gives back: the result, the gas that is left in the parameters, the accounts.
pub record CallResult (W : Type 0) : Type 0 where
  pub success : Bool
  pub output : List ℕ
  pub gas : ℕ
  pub world : W

pub record CreateResult (W : Type 0) : Type 0 where
  pub address : ℕ
  pub output : List ℕ
  pub gas : ℕ
  pub world : W

-- class ExtVMFace: its fields, and its virtual methods over the accounts `W`. `env` is EnvInfo.
-- `sha3` is the hash of libdevcore/SHA3.h.
pub record ExtVmFace (W : Type 0) : Type 0 where
  pub my_address : ℕ
  pub caller : ℕ
  pub origin : ℕ
  pub value : ℕ
  pub gas_price : ℕ
  pub input : List ℕ
  pub code : List ℕ
  pub depth : ℕ
  pub static_call : Bool
  pub author : ℕ
  pub timestamp : ℕ
  pub number : ℕ
  pub difficulty : ℕ
  pub gas_limit : ℕ
  pub evm_schedule : EvmSchedule
  pub store : W → ℕ → ℕ
  pub set_store : W → ℕ → ℕ → W
  pub balance : W → ℕ → ℕ
  pub code_at : W → ℕ → List ℕ
  pub code_size_at : W → ℕ → ℕ
  pub exists : W → ℕ → Bool
  pub suicide : W → ℕ → W
  pub log : W → List ℕ → List ℕ → W
  pub block_hash : ℕ → ℕ
  pub create : W → (endowment gas : ℕ) → (init_code : List ℕ) → (op salt : ℕ) → CreateResult W
  pub call : W → CallParameters → CallResult W
  pub sha3 : List ℕ → ℕ

-- m_bounce: the member function that the trampoline of `exec` calls next.
pub data Bounce : Type 0 where
  init_entry interpret_cases case_create case_call stopped : Bounce

-- `stack` is m_stack, with m_SP and m_SPP as indices into it; it grows towards index 0, and index
-- 1024 is m_stackEnd. `world` and `refunds` are what m_ext holds that changes.
pub record Vm (W : Type 0) : Type 0 where
  pub io_gas : ℕ
  pub output : List ℕ
  pub mem : List ℕ
  pub code : List ℕ
  pub return_data : List ℕ
  pub stack : List ℕ
  pub pool : List ℕ
  pub op : ℕ
  pub pc : ℕ
  pub sp : ℕ
  pub spp : ℕ
  pub run_gas : ℕ
  pub new_mem_size : ℕ
  pub copy_mem_size : ℕ
  pub jump_dests : List ℕ
  pub bounce : Bounce
  pub refunds : ℕ
  pub world : W

-- The exceptions of libevm/VMFace.h.
pub data Fault : Type 0 where
  bad_instruction bad_jump_destination out_of_gas out_of_stack stack_underflow : Fault
  disallowed_state_change buffer_overrun : Fault
  revert_instruction : List ℕ → Fault

-- A member function returns or throws; either way it leaves its changes behind.
pub data Outcome (W A : Type 0) : Type 0 where
  ok : A → Vm W → Outcome W A
  throw : Fault → Vm W → Outcome W A

abbrev pub M : Type 0 → Type 0 → Type 0
M W A = Vm W → Outcome W A

-- How an interpreter case ends: NEXT, CONTINUE or BREAK.
pub data Ctl : Type 0 where
  next continue break : Ctl

module _ {W A : Type 0} where
  abbrev pub pure : A → M W A
  pure a s = ok a s

  abbrev pub raise : Fault → M W A
  raise e s = throw e s

module _ {W A B : Type 0} where
  abbrev pub on_ok : Outcome W A → (A → M W B) → Outcome W B
  on_ok (ok a s) f = f a s
  on_ok (throw e s) f = throw e s

  infixl 5 ◌>>=◌
  abbrev pub ◌>>=◌ : M W A → (A → M W B) → M W B
  ◌>>=◌ m f s = on_ok (m s) f

infixl 5 ◌>>◌
abbrev pub ◌>>◌ : {W B : Type 0} → M W (Unit {0}) → M W B → M W B
m >> k = m >>= λ _. k

module _ {W : Type 0} where
  abbrev pub get : M W (Vm W)
  get s = ok s s

  abbrev pub modify : (Vm W → Vm W) → M W (Unit {0})
  modify f s = ok tt (f s)

  abbrev pub skip : M W (Unit {0})
  skip s = ok tt s

  -- if (b) throw e;
  abbrev pub throw_if : Bool → Fault → M W (Unit {0})
  throw_if b e s = if b then throw e s else ok tt s

module _ {W A : Type 0} where
  -- if (b) m else n
  abbrev pub branch : Bool → M W A → M W A → M W A
  branch b m n s = if b then m s else n s
