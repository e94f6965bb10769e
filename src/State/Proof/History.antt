-- ===== src/State/Proof/History.antt =====
-- Sequences of calls of class State of libaecereum/State.cpp, and the rollback over them.
use cpp_aec.Base.{ℕ, ◌<◌, ◌≡◌, ◌∙◌, false, List, [], none, some}
use cpp_aec.Base.Dict.{lookup}
use cpp_aec.Evm.Word.{u256_mod}
use cpp_aec.State.Account.{Db, Account}
use cpp_aec.State.Journal.{State, state_of}
use cpp_aec.State.Cache.{load, storage, code, cached_storage}
use cpp_aec.State.Changes.{
  increment_nonce, change_nonce, credit, debit, transfer_balance, set_balance, create_contract,
  set_store, clear_store, change_code, rollback, savepoint,
}
use cpp_aec.State.World.{View, world}
use cpp_aec.State.Proof.Coherent.{IsLawful}
use cpp_aec.State.Proof.Undoing.{Journaled}
use cpp_aec.State.Proof.Rollback.{rollback-RolledBack}
use cpp_aec.State.Proof.Changing.{Undoable, Undoable-trans}
use cpp_aec.State.Proof.Crediting.{
  load-Undoable, increment_nonce-Undoable, change_nonce-Undoable, credit-Undoable, debit-Undoable,
  transfer_balance-Undoable, set_balance-Undoable, create_contract-Undoable, nothing-Undoable,
}
use cpp_aec.State.Proof.Writing.{
  storage-Undoable, code-Undoable, set_store-Undoable, clear_store-Undoable, change_code-Undoable,
}

-- One call, with what the caller sees to. A call that throws is a step too.
pub data Step (db : Db) : State → State → Type 0 where
  look_up : (a : ℕ) (s : State) → Step db s (load db a s)
  read_storage : (a key : ℕ) (s : State) → Step db s (storage db a key s).0
  read_code : (a : ℕ) (s : State) → Step db s (code db a s).0
  inc_nonce : (a : ℕ) (s : State) → Step db s (state_of (increment_nonce db a s))
  set_nonce : (a n : ℕ) (s : State) → Step db s (state_of (change_nonce db a n s))
  add_balance : (a v : ℕ) (s : State) → v < u256_mod → Step db s (state_of (credit db a v s))
  sub_balance : (a v : ℕ) (s : State) → Step db s (state_of (debit db a v s))
  transfer :
      (from to v : ℕ) (s : State)
      → v < u256_mod
      → Step db s (state_of (transfer_balance db from to v s))
  put_balance : (a v : ℕ) (s : State) → Step db s (state_of (set_balance db a v s))
  new_contract :
      (a : ℕ) (s : State) → world db s a ≡ none → Step db s (state_of (create_contract db a s))
  set_storage :
      (a key value : ℕ) (s : State) (v : View)
      → world db s a ≡ some v
      → Step db s (state_of (set_store db a key value s))
  clear_storage :
      (a : ℕ) (s : State) (acc : Account)
      → lookup a s.cache ≡ some acc
      → ((k : ℕ) → cached_storage db k acc ≡ db.storage_at acc.storage_root k)
      → Step db s (state_of (clear_store db a s))
  set_code :
      (a : ℕ) (new_code : List ℕ) (s : State) (acc : Account)
      → lookup a s.cache ≡ some acc
      → acc.is_unchanged ≡ false
      → Step db s (state_of (change_code db a new_code s))

-- Calls in a row; those since a savepoint may be rolled back, and calls may follow.
pub data Steps (db : Db) : State → State → Type 0 where
  here : {s t : State} → t ≡ s → Steps db s t
  next : {s t u : State} → Steps db s t → Step db t u → Steps db s u
  reverted :
      {s t u : State} → Steps db s t → Steps db t u → Steps db s (rollback db (savepoint t) u)

module _ (db : Db) (law : IsLawful db) where
  Step-Undoable : {s t : State} → Step db s t → Journaled db s → Undoable db s t
  Step-Undoable (look_up a s) j = load-Undoable db law a s j
  Step-Undoable (read_storage a key s) j = storage-Undoable db law a key s j
  Step-Undoable (read_code a s) j = code-Undoable db law a s j
  Step-Undoable (inc_nonce a s) j = increment_nonce-Undoable db law a s j
  Step-Undoable (set_nonce a n s) j = change_nonce-Undoable db law a n s j
  Step-Undoable (add_balance a v s h) j = credit-Undoable db law a v s j h
  Step-Undoable (sub_balance a v s) j = debit-Undoable db law a v s j
  Step-Undoable (transfer from to v s h) j = transfer_balance-Undoable db law from to v s j h
  Step-Undoable (put_balance a v s) j = set_balance-Undoable db law a v s j
  Step-Undoable (new_contract a s h) j = create_contract-Undoable db law a s j h
  Step-Undoable (set_storage a key value s v h) j = set_store-Undoable db law a key value s v j h
  Step-Undoable (clear_storage a s acc h p) j = clear_store-Undoable db a s acc j h p
  Step-Undoable (set_code a new s acc h u) j = change_code-Undoable db law a new s acc j h u

  -- What is seen, and the log, are as they were.
  pub record Restored (s t : State) : Type 0 where
    pub journaled : Journaled db t
    pub world_eq : world db t ≡ world db s
    pub log_eq : t.change_log ≡ s.change_log

  pub Undoable-Restored : (s t : State) → Undoable db s t → Restored s (rollback db (savepoint s) t)
  Undoable-Restored s t u =
      let r = rollback-RolledBack db law u.entries s.change_log t u.journaled u.log_eq in
      record { journaled = r.journaled; world_eq = r.world_eq ∙ u.goes_back; log_eq = r.log_eq }

  pub Restored-Undoable : (s t : State) → Restored s t → Undoable db s t
  Restored-Undoable s t r = record {
    journaled = r.journaled;
    entries = [];
    log_eq = r.log_eq;
    goes_back = r.world_eq;
  }

  Steps-Undoable : {s t : State} → Steps db s t → Journaled db s → Undoable db s t
  Steps-Undoable {s} {t} (here e) j = rw e (nothing-Undoable db law s j)
  Steps-Undoable (next {s} {t} {u} r k) j =
      let p = Steps-Undoable r j in Undoable-trans db s t u p (Step-Undoable k p.journaled)
  Steps-Undoable (reverted {s} {t} {u} r q) j =
      let p = Steps-Undoable r j in
      let w = Steps-Undoable q p.journaled in
      Undoable-trans db s t _ p (Restored-Undoable t _ (Undoable-Restored t u w))

  -- With a hash that gives no other string the hash of the empty one and a trie of accounts in
  -- range whose code has its hash, after any sequence of calls from a state that satisfies the
  -- invariant between cache, journal and trie, with reads, changes of nonces, balances, storage
  -- and code, new contracts, calls that throw and inner rollbacks among them, rolling back to the
  -- first savepoint gives a state that satisfies the invariant, whose log is as it was and in
  -- which every account is seen as it was; new contracts are made where there is no account,
  -- storage is set where there is one, code is set where the account is cached and marked, and
  -- storage is cleared where nothing is pending in the overlay.
  pub rollback-Restored :
      (s t : State) → Journaled db s → Steps db s t → Restored s (rollback db (savepoint s) t)
  rollback-Restored s t j r = Undoable-Restored s t (Steps-Undoable r j)
