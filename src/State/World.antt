-- ===== src/State/World.antt =====
-- What a client of class State of libaecereum/State.cpp sees, without the cache: the specification
-- of its accounts, and of undoing a change to them.
use mathlib.Core.Option
use cpp_aec.Base.{ℕ, ◌+◌, ◌%◌, ◌==◌, Bool, List, [], ◌∷◌, Option, none, some, if◌then◌else◌}
use cpp_aec.Base.Dict.{lookup}
use cpp_aec.Evm.Word.{u256_mod}
use cpp_aec.State.Account.{Db, Account, stored_account}
use cpp_aec.State.Journal.{Kind, Change, State}
use cpp_aec.State.Cache.{cached_storage, account_code}
use cpp_aec.State.Changes.{neg256}

pub record View : Type 0 where
  pub is_alive : Bool
  pub nonce : ℕ
  pub balance : ℕ
  pub storage_root : ℕ
  pub code_hash : ℕ
  pub code : List ℕ
  pub storage : ℕ → ℕ

abbrev pub World : Type 0
World = ℕ → Option View

abbrev pub update {ℓ} : {A : Type ℓ} → (ℕ → A) → ℕ → A → ℕ → A
update f a v x = if x == a then v else f x

module _ (db : Db) where
  abbrev pub view : Account → View
  view acc = record {
    is_alive = acc.is_alive;
    nonce = acc.nonce;
    balance = acc.balance;
    storage_root = acc.storage_root;
    code_hash = acc.code_hash;
    code = account_code db acc;
    storage = λ k. cached_storage db k acc;
  }

  -- The account as it stands in the trie.
  unfoldable pub view_at : ℕ → Option View
  view_at a = Option.map (λ st. view (stored_account db st)) (db.at a)

  abbrev pub view_in : Option Account → Option View → Option View
  view_in none base = base
  view_in (some acc) base = some (view acc)

  abbrev pub world : State → World
  world s a = view_in (lookup a s.cache) (view_at a)

  abbrev pub undo_view : Kind → Change → View → Option View
  undo_view Kind.storage c v = some (record v { storage = update v.storage c.key c.value })
  undo_view Kind.storage_root c v =
      some (record v { storage_root = c.value; storage = db.storage_at c.value })
  undo_view Kind.balance c v = some (record v { balance = (v.balance + neg256 c.value) % u256_mod })
  undo_view Kind.nonce c v = some (record v { nonce = c.value })
  undo_view Kind.create c v = none
  undo_view Kind.code c v = some (record v { code_hash = db.sha3 c.old_code; code = c.old_code })
  undo_view Kind.touch c v = some v

  abbrev pub undo_option : Change → Option View → Option View
  undo_option c none = none
  undo_option c (some v) = undo_view c.kind c v

  abbrev pub undo_world : Change → World → World
  undo_world c w = update w c.address (undo_option c (w c.address))

  -- The newest change first.
  abbrev pub undo_all : List Change → World → World
  undo_all [] w = w
  undo_all (c ∷ cs) w = undo_all cs (undo_world c w)
