-- ===== src/State/Changes.antt =====
-- class State of libaecereum/State.cpp: the functions that change accounts, and the rollback.
use cpp_aec.Base.{
  ℕ, ◌+◌, ◌-◌, ◌%◌, ◌==◌, ◌&&◌, ltb, List, [], ◌∷◌, ◌++◌, none, some, length, if◌then◌else◌,
}
use cpp_aec.Base.Dict.{Dict, lookup, erase}
use cpp_aec.Evm.Word.{u256_mod}
use cpp_aec.State.Account.{
  Db, Account, is_dirty, is_empty, add_balance, inc_nonce, set_nonce, set_storage, set_storage_root,
  clear_storage, set_code, untouch, kill, dead_account, new_account,
}
use cpp_aec.State.Journal.{
  Kind, Change, State, Outcome, done, throw, not_enough_cash, incorrect_start_nonce, invalid256,
  put_account, log_change, change_of, storage_change, code_change, ◌>>>◌, with_start_nonce,
}
use cpp_aec.State.Cache.{load, balance, storage, code}

abbrev pub remove : ℕ → List ℕ → List ℕ
remove a [] = []
remove a (x ∷ xs) = let rest = remove a xs in if a == x then rest else x ∷ rest

-- `0 - v` of u256
abbrev pub neg256 : ℕ → ℕ
neg256 v = (u256_mod - v) % u256_mod

abbrev pub create_account : ℕ → Account → State → State
create_account a acc s =
    log_change (change_of Kind.create a 0)
      (record (put_account a acc s) { non_existing = remove a s.non_existing })

pub note_account_start_nonce : ℕ → State → Outcome
note_account_start_nonce actual s =
    if s.start_nonce == invalid256
    then done (record s { start_nonce = actual })
    else if s.start_nonce == actual
    then done s
    else throw incorrect_start_nonce s

abbrev pub log_touch : Db → ℕ → Account → State → State
log_touch db a acc s =
    if acc.is_unchanged && is_empty db acc then log_change (change_of Kind.touch a 0) s else s

abbrev pub log_balance : (a v : ℕ) → State → State
log_balance a v s = if v == 0 then s else log_change (change_of Kind.balance a v) s

module _ (db : Db) where
  -- `m_cache[a]`
  abbrev pub entry : ℕ → State → Account
  entry a s = elim (lookup a s.cache) [ none ↦ dead_account db | some acc ↦ acc ]

  unfoldable pub increment_nonce : ℕ → State → Outcome
  unfolding load
  increment_nonce a s =
      let s' = load db a s in
      elim (lookup a s'.cache) [
        | some acc ↦
            done (log_change (change_of Kind.nonce a acc.nonce) (put_account a (inc_nonce acc) s'))
        | none ↦
            with_start_nonce s'
              (λ n. done (create_account a (new_account db ((n + 1) % u256_mod) 0) s'))
      ]

  unfoldable pub change_nonce : (a new_nonce : ℕ) → State → Outcome
  unfolding load
  change_nonce a new_nonce s =
      let s' = load db a s in
      elim (lookup a s'.cache) [
        | some acc ↦ done (
            log_change (change_of Kind.nonce a acc.nonce)
              (put_account a (set_nonce new_nonce acc) s'))
        | none ↦ done (create_account a (new_account db new_nonce 0) s')
      ]

  unfoldable pub credit : (id amount : ℕ) → State → Outcome
  unfolding load
  credit id amount s =
      let s' = load db id s in
      elim (lookup id s'.cache) [
        | some acc ↦ done (
            log_balance id amount
              (put_account id (add_balance amount acc) (log_touch db id acc s')))
        | none ↦
            with_start_nonce s'
              (λ n. done (log_balance id amount (create_account id (new_account db n amount) s')))
      ]

  unfoldable pub debit : (a value : ℕ) → State → Outcome
  unfolding load credit
  debit a value s =
      if value == 0
      then done s
      else let s' = load db a s in
        elim (lookup a s'.cache) [
          | none ↦ throw not_enough_cash s'
          | some acc ↦
              if ltb acc.balance value then throw not_enough_cash s' else credit a (neg256 value) s'
        ]

  unfoldable pub transfer_balance : (from to value : ℕ) → State → Outcome
  unfolding debit credit
  transfer_balance from to value s = debit from value s >>> credit to value

  unfoldable pub set_balance : (a value : ℕ) → State → Outcome
  unfolding balance credit load
  set_balance a value s = credit a ((value + u256_mod - balance db a s) % u256_mod) (load db a s)

  unfoldable pub create_contract : ℕ → State → Outcome
  create_contract a s = with_start_nonce s (λ n. done (create_account a (new_account db n 0) s))

  unfoldable pub set_store : (contract key value : ℕ) → State → Outcome
  unfolding storage
  set_store contract key value s =
      let (s', old) = storage db contract key s in
      let logged = log_change (storage_change contract key old) s' in
      done (put_account contract (set_storage key value (entry contract logged)) logged)

  -- Unlike the others this does not look the account up in the trie.
  unfoldable pub clear_store : ℕ → State → Outcome
  clear_store contract s =
      let acc = entry contract s in
      let found = put_account contract acc s in
      if acc.storage_root == db.empty_trie
      then done found
      else done (
          put_account contract (clear_storage db acc)
            (log_change (change_of Kind.storage_root contract acc.storage_root) found))

  unfoldable pub change_code : ℕ → List ℕ → State → Outcome
  unfolding code
  change_code a new_code s =
      let (s', old) = code db a s in
      let logged = log_change (code_change a old) s' in
      done (put_account a (set_code db new_code (entry a logged)) logged)

  -- No change is logged.
  unfoldable pub kill_account : ℕ → State → State
  unfolding load
  kill_account a s =
      let s' = load db a s in
      elim (lookup a s'.cache) [ none ↦ s' | some acc ↦ put_account a (kill db acc) s' ]

  remove_empty : Dict Account → Dict Account
  remove_empty [] = []
  remove_empty (e ∷ d) =
      (e.0, if is_dirty e.1 && is_empty db e.1 then kill db e.1 else e.1) ∷ remove_empty d

  pub remove_empty_accounts : State → State
  unfolding remove_empty
  remove_empty_accounts s = record s { cache = remove_empty s.cache }

  -- The switch of rollback.
  unfoldable pub undo_kind : Kind → Change → Account → State → State
  undo_kind Kind.storage c acc s = put_account c.address (set_storage c.key c.value acc) s
  undo_kind Kind.storage_root c acc s = put_account c.address (set_storage_root c.value acc) s
  undo_kind Kind.balance c acc s = put_account c.address (add_balance (neg256 c.value) acc) s
  undo_kind Kind.nonce c acc s = put_account c.address (set_nonce c.value acc) s
  undo_kind Kind.create c acc s = record s { cache = erase c.address s.cache }
  undo_kind Kind.code c acc s = put_account c.address (set_code db c.old_code acc) s
  undo_kind Kind.touch c acc s = record (put_account c.address (untouch acc) s) {
    unchanged_entries = s.unchanged_entries ++ c.address ∷ [];
  }

  -- One round of the loop of rollback, up to `pop_back`.
  unfoldable pub undo : Change → State → State
  unfolding undo_kind
  undo c s = let acc = entry c.address s in undo_kind c.kind c acc (put_account c.address acc s)

  unfoldable pub rollback_loop : (savepoint : ℕ) → List Change → State → State
  unfolding undo
  rollback_loop savepoint [] s = s
  rollback_loop savepoint (c ∷ cs) s =
      let rest = rollback_loop savepoint cs (record (undo c s) { change_log = cs }) in
      if savepoint == length (c ∷ cs) then s else rest

  unfoldable pub rollback : ℕ → State → State
  unfolding rollback_loop
  rollback savepoint s = rollback_loop savepoint s.change_log s

abbrev pub savepoint : State → ℕ
savepoint s = length s.change_log
