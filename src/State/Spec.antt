-- ===== src/State/Spec.antt =====
-- The specification of class State of libaecereum/State.cpp: what each function answers and does
-- on accounts without a cache and without a journal.
use cpp_aec.Base.{
  ℕ, ◌+◌, ◌%◌, ◌==◌, Bool, true, false, ltb, List, [], Option, none, some, if◌then◌else◌,
}
use cpp_aec.Evm.Word.{u256_mod}
use cpp_aec.State.Account.{Db, empty_sha3}
use cpp_aec.State.Journal.{StateFault, not_enough_cash, invalid_start_nonce, invalid256}
use cpp_aec.State.Changes.{neg256}
use cpp_aec.State.World.{View, World, update}

-- What is thrown, if anything is; the accounts; and the nonce that new accounts start with.
abbrev pub Answer : Type 0
Answer = Option StateFault × World × ℕ

module _ (db : Db) where
  abbrev pub fresh : (nonce balance : ℕ) → View
  fresh n v = record {
    is_alive = true;
    nonce = n;
    balance = v;
    storage_root = db.empty_trie;
    code_hash = empty_sha3 db;
    code = [];
    storage = db.storage_at db.empty_trie;
  }

  abbrev pub create : ℕ → (ℕ → View) → World → ℕ → Answer
  create a v w n =
      if n == invalid256
      then (some invalid_start_nonce, w, n)
      else (none, update w a (some (v n)), n)

  abbrev pub credit : (a amount : ℕ) → World → ℕ → Answer
  credit a amount w n = elim (w a) [
    | none ↦ create a (λ m. fresh m amount) w n
    | some v ↦ (none, update w a (some (record v { balance = (v.balance + amount) % u256_mod })), n)
  ]

  abbrev pub debit : (a amount : ℕ) → World → ℕ → Answer
  debit a amount w n = if amount == 0 then (none, w, n) else elim (w a) [
    | none ↦ (some not_enough_cash, w, n)
    | some v ↦
        if ltb v.balance amount then (some not_enough_cash, w, n) else credit a (neg256 amount) w n
  ]

  abbrev pub and_then : Answer → (World → ℕ → Answer) → Answer
  and_then (none, w, n) f = f w n
  and_then (some e, w, n) f = (some e, w, n)

  abbrev pub transfer : (from to amount : ℕ) → World → ℕ → Answer
  transfer from to amount w n = and_then (debit from amount w n) (credit to amount)

  abbrev pub set_nonce : (a nonce : ℕ) → World → ℕ → Answer
  set_nonce a nonce w n = elim (w a) [
    | none ↦ (none, update w a (some (fresh nonce 0)), n)
    | some v ↦ (none, update w a (some (record v { nonce = nonce })), n)
  ]

  abbrev pub increment_nonce : ℕ → World → ℕ → Answer
  increment_nonce a w n = elim (w a) [
    | none ↦ create a (λ m. fresh ((m + 1) % u256_mod) 0) w n
    | some v ↦ (none, update w a (some (record v { nonce = (v.nonce + 1) % u256_mod })), n)
  ]

-- The reads of an account.
abbrev pub is_there : Option View → Bool
is_there none = false
is_there (some v) = true

abbrev pub balance : Option View → ℕ
balance none = 0
balance (some v) = v.balance

abbrev pub storage : Option View → ℕ → ℕ
storage none key = 0
storage (some v) key = v.storage key

abbrev pub code : Option View → List ℕ
code none = []
code (some v) = v.code

abbrev pub nonce : ℕ → Option View → ℕ
nonce n none = n
nonce n (some v) = v.nonce

abbrev pub code_hash : Db → Option View → ℕ
code_hash db none = empty_sha3 db
code_hash db (some v) = v.code_hash
