-- ===== src/State/Account.antt =====
-- class Account of libaecereum/Account.h and Account.cpp.
use cpp_aec.Base.{ℕ, ◌+◌, ◌%◌, ◌==◌, ◌&&◌, Bool, true, false, not, List, [], Option}
use cpp_aec.Base.Dict.{Dict, insert}
use cpp_aec.Evm.Word.{u256_mod}

-- The four items of an account in the trie.
pub record Stored : Type 0 where
  pub nonce : ℕ
  pub balance : ℕ
  pub storage_root : ℕ
  pub code_hash : ℕ

-- The trie of accounts, the tries of their storage by root, and the code by hash, as they stand in
-- the database between two commits; the hash of libdevcore/SHA3.h; the root of the empty trie; and
-- the engine of random numbers, by how many were drawn and below which bound.
pub record Db : Type 0 where
  pub at : ℕ → Option Stored
  pub storage_at : ℕ → ℕ → ℕ
  pub code_of : ℕ → List ℕ
  pub sha3 : List ℕ → ℕ
  pub empty_trie : ℕ
  pub random : ℕ → ℕ → ℕ

pub record Account : Type 0 where
  pub is_alive : Bool
  pub is_unchanged : Bool
  pub has_new_code : Bool
  pub nonce : ℕ
  pub balance : ℕ
  pub storage_root : ℕ
  pub code_hash : ℕ
  pub storage_overlay : Dict ℕ
  pub code_cache : List ℕ

abbrev pub is_dirty : Account → Bool
is_dirty acc = not acc.is_unchanged

abbrev pub add_balance : ℕ → Account → Account
add_balance v acc = record acc { balance = (acc.balance + v) % u256_mod; is_unchanged = false }

abbrev pub inc_nonce : Account → Account
inc_nonce acc = record acc { nonce = (acc.nonce + 1) % u256_mod; is_unchanged = false }

abbrev pub set_nonce : ℕ → Account → Account
set_nonce n acc = record acc { nonce = n; is_unchanged = false }

abbrev pub set_storage : (p v : ℕ) → Account → Account
set_storage p v acc = record acc {
  storage_overlay = insert p v acc.storage_overlay;
  is_unchanged = false;
}

abbrev pub set_storage_cache : (p v : ℕ) → Account → Account
set_storage_cache p v acc = record acc { storage_overlay = insert p v acc.storage_overlay }

abbrev pub set_storage_root : ℕ → Account → Account
set_storage_root root acc = record acc {
  storage_overlay = [];
  storage_root = root;
  is_unchanged = false;
}

abbrev pub untouch : Account → Account
untouch acc = record acc { is_unchanged = true }

abbrev pub note_code : List ℕ → Account → Account
note_code code acc = record acc { code_cache = code }

module _ (db : Db) where
  -- EmptySHA3
  abbrev pub empty_sha3 : ℕ
  empty_sha3 = db.sha3 []

  -- Account(), dead and changed.
  abbrev pub dead_account : Account
  dead_account = record {
    is_alive = false;
    is_unchanged = false;
    has_new_code = false;
    nonce = 0;
    balance = 0;
    storage_root = db.empty_trie;
    code_hash = empty_sha3;
    storage_overlay = [];
    code_cache = [];
  }

  -- Account(_nonce, _balance)
  abbrev pub new_account : (nonce balance : ℕ) → Account
  new_account n v = record dead_account { is_alive = true; nonce = n; balance = v }

  -- Account(_nonce, _balance, _contractRoot, _codeHash, Unchanged)
  abbrev pub stored_account : Stored → Account
  stored_account st = record dead_account {
    is_alive = true;
    is_unchanged = true;
    nonce = st.nonce;
    balance = st.balance;
    storage_root = st.storage_root;
    code_hash = st.code_hash;
  }

  -- `m_storageOverlay.clear()` first; code and its flag stay.
  abbrev pub kill : Account → Account
  kill acc = record acc {
    is_alive = false;
    storage_overlay = [];
    code_hash = empty_sha3;
    storage_root = db.empty_trie;
    balance = 0;
    nonce = 0;
    is_unchanged = false;
  }

  abbrev pub is_empty : Account → Bool
  is_empty acc = acc.nonce == 0 && acc.balance == 0 && acc.code_hash == empty_sha3

  abbrev pub clear_storage : Account → Account
  clear_storage = set_storage_root db.empty_trie

  -- This does not mark the account as changed.
  abbrev pub set_code : List ℕ → Account → Account
  set_code code acc = record acc {
    code_cache = code;
    has_new_code = true;
    code_hash = db.sha3 code;
  }
