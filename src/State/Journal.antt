-- ===== src/State/Journal.antt =====
-- struct Change and the members of class State, libaecereum/State.h, with what they throw.
use cpp_aec.Base.{ℕ, ◌-◌, ◌==◌, List, [], ◌∷◌, if◌then◌else◌}
use cpp_aec.Base.Dict.{Dict, insert}
use cpp_aec.Evm.Word.{u256_mod}
use cpp_aec.State.Account.{Account}

-- struct Change: the fields that each kind uses. `old_code` of Code, `key` of Storage.
pub data Kind : Type 0 where
  balance storage storage_root nonce create code touch : Kind

pub record Change : Type 0 where
  pub kind : Kind
  pub address : ℕ
  pub value : ℕ
  pub key : ℕ
  pub old_code : List ℕ

-- The newest change stands first in `change_log`; `draws` counts the random numbers drawn.
pub record State : Type 0 where
  pub cache : Dict Account
  pub unchanged_entries : List ℕ
  pub non_existing : List ℕ
  pub start_nonce : ℕ
  pub change_log : List Change
  pub draws : ℕ

-- Invalid256
abbrev pub invalid256 : ℕ
invalid256 = u256_mod - 1

abbrev pub put_account : ℕ → Account → State → State
put_account a acc s = record s { cache = insert a acc s.cache }

abbrev pub log_change : Change → State → State
log_change c s = record s { change_log = c ∷ s.change_log }

-- The constructors of Change.
abbrev pub change_of : Kind → (address value : ℕ) → Change
change_of k a v = record { kind = k; address = a; value = v; key = 0; old_code = [] }

abbrev pub storage_change : (address key value : ℕ) → Change
storage_change a k v = record (change_of Kind.storage a v) { key = k }

abbrev pub code_change : ℕ → List ℕ → Change
code_change a old = record (change_of Kind.code a 0) { old_code = old }

pub data StateFault : Type 0 where
  not_enough_cash invalid_start_nonce incorrect_start_nonce : StateFault

-- A member function returns or throws; either way it leaves its changes behind.
pub data Outcome : Type 0 where
  done : State → Outcome
  throw : StateFault → State → Outcome

infixl 5 ◌>>>◌
abbrev pub ◌>>>◌ : Outcome → (State → Outcome) → Outcome
done s >>> f = f s
throw e s >>> f = throw e s

abbrev pub state_of : Outcome → State
state_of (done s) = s
state_of (throw e s) = s

-- requireAccountStartNonce, and what follows it.
abbrev pub with_start_nonce : State → (ℕ → Outcome) → Outcome
with_start_nonce s f =
    if s.start_nonce == invalid256 then throw invalid_start_nonce s else f s.start_nonce
