-- ===== src/State/Cache.antt =====
-- class State of libaecereum/State.cpp: the cache of accounts over the trie, and the reads.
use cpp_aec.Base.{
  ℕ, zero, suc, ◌+◌, ◌-◌, ◌==◌, Bool, true, false, not, ltb, List, [], ◌∷◌, ◌++◌, Option, none,
  some, length, get_or, set, take, if◌then◌else◌,
}
use cpp_aec.Base.Dict.{Dict, contains, lookup, erase}
use cpp_aec.State.Account.{
  Db, Account, is_dirty, is_empty, empty_sha3, stored_account, set_storage_cache, note_code,
}
use cpp_aec.State.Journal.{State, put_account}

-- `m_unchangedCacheEntries.back()` and `pop_back()`
abbrev pub back : List ℕ → ℕ
back xs = get_or xs (length xs - 1) 0

abbrev pub pop_back : List ℕ → List ℕ
pop_back xs = take (length xs - 1) xs

abbrev pub erase_clean : ℕ → Option Account → Dict Account → Dict Account
erase_clean a none d = d
erase_clean a (some acc) d = if is_dirty acc then d else erase a d

module _ (db : Db) where
  -- One round of the loop of clearCacheIfTooLarge.
  unfoldable pub drop_one : State → State
  drop_one s =
      let i = db.random s.draws (length s.unchanged_entries) in
      let a = get_or s.unchanged_entries i 0 in
      record s {
        unchanged_entries = pop_back (set s.unchanged_entries i (back s.unchanged_entries));
        cache = erase_clean a (lookup a s.cache) s.cache;
        draws = s.draws + 1;
      }

  unfoldable pub clear_loop : ℕ → State → State
  unfolding drop_one
  clear_loop zero s = s
  clear_loop (suc fuel) s =
      let rest = clear_loop fuel (drop_one s) in
      if ltb 1000 (length s.unchanged_entries) then rest else s

  unfoldable pub clear_cache_if_too_large : State → State
  unfolding clear_loop
  clear_cache_if_too_large s = clear_loop (length s.unchanged_entries) s

  -- What State::account does to the cache; what it returns is the entry then found.
  unfoldable pub load : ℕ → State → State
  unfolding clear_cache_if_too_large
  load a s = elim (lookup a s.cache) [
    | some _ ↦ s
    | none ↦ if contains a s.non_existing then s else elim (db.at a) [
      | none ↦ record s { non_existing = a ∷ s.non_existing }
      | some st ↦
          let cleared = clear_cache_if_too_large s in
          record (put_account a (stored_account db st) cleared) {
            unchanged_entries = cleared.unchanged_entries ++ a ∷ [];
          }
    ]
  ]

  unfoldable pub account : ℕ → State → Option Account
  unfolding load
  account a s = lookup a (load a s).cache

  unfoldable pub address_in_use : ℕ → State → Bool
  unfolding account
  address_in_use a s = elim (account a s) [ none ↦ false | some _ ↦ true ]

  unfoldable pub account_nonempty_and_existing : ℕ → State → Bool
  unfolding account
  account_nonempty_and_existing a s = elim (account a s) [
    | none ↦ false
    | some acc ↦ not (is_empty db acc)
  ]

  unfoldable pub address_has_code : ℕ → State → Bool
  unfolding account
  address_has_code a s = elim (account a s) [
    | none ↦ false
    | some acc ↦ not (acc.code_hash == empty_sha3 db)
  ]

  unfoldable pub balance : ℕ → State → ℕ
  unfolding account
  balance a s = elim (account a s) [ none ↦ 0 | some acc ↦ acc.balance ]

  unfoldable pub get_nonce : ℕ → State → ℕ
  unfolding account
  get_nonce a s = elim (account a s) [ none ↦ s.start_nonce | some acc ↦ acc.nonce ]

  unfoldable pub code_hash : ℕ → State → ℕ
  unfolding account
  code_hash a s = elim (account a s) [ none ↦ empty_sha3 db | some acc ↦ acc.code_hash ]

  -- `storage` returns the value and leaves it in the overlay.
  unfoldable pub cached_storage : ℕ → Account → ℕ
  cached_storage key acc = elim (lookup key acc.storage_overlay) [
    | some v ↦ v
    | none ↦ db.storage_at acc.storage_root key
  ]

  unfoldable pub storage : (id key : ℕ) → State → State × ℕ
  unfolding load cached_storage
  storage id key s =
      let s' = load id s in
      elim (lookup id s'.cache) [
        | none ↦ (s', 0)
        | some acc ↦
            let v = cached_storage key acc in (put_account id (set_storage_cache key v acc) s', v)
      ]

  -- `code` returns the code and leaves it in the account; the cache of code sizes is left out.
  unfoldable pub known_code : (hash : ℕ) → (code_cache : List ℕ) → List ℕ
  known_code hash [] = db.code_of hash
  known_code hash (x ∷ xs) = x ∷ xs

  unfoldable pub account_code : Account → List ℕ
  unfolding known_code
  account_code acc =
      if acc.code_hash == empty_sha3 db then [] else known_code acc.code_hash acc.code_cache

  unfoldable pub with_code : Account → Account
  unfolding account_code
  with_code acc = if acc.code_hash == empty_sha3 db then acc else note_code (account_code acc) acc

  unfoldable pub code : ℕ → State → State × List ℕ
  unfolding load account_code with_code
  code a s =
      let s' = load a s in
      elim (lookup a s'.cache) [
        | none ↦ (s', [])
        | some acc ↦ (put_account a (with_code acc) s', account_code acc)
      ]
