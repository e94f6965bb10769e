-- ===== src/State/Tests.antt =====
-- The theorems about class State at a small database.
use cpp_aec.Base.{
  ℕ, ◌+◌, ◌==◌, ◌≡◌, refl, List, [], ◌∷◌, none, some, length, if◌then◌else◌, inl, inr, Bool-cases,
  arith,
}
use cpp_aec.State.Account.{Db, Stored}
use cpp_aec.State.Journal.{State, done, throw, not_enough_cash, state_of}
use cpp_aec.State.Cache.{account_code}
use cpp_aec.State.Changes.{transfer_balance, change_nonce, rollback, savepoint}
use cpp_aec.State.World.{world, view_at}
use cpp_aec.State.Spec
use cpp_aec.State.Proof.Coherent.{IsLawful}
use cpp_aec.State.Proof.Undoing.{Journaled}
use cpp_aec.State.Proof.History.{
  Steps, here, next, reverted, transfer, set_nonce, Restored, rollback-Restored,
}
use cpp_aec.State.Proof.Refining.{answer, transfer_balance-answer}
use cpp_aec.State.Proof.Querying.{Reads, Reads-World}
use cpp_aec.State.Proof.Moving.{Moves, transfer_balance-Moves, transfer_balance-throws}

-- An account with money, and one with code, whose hash is its length.
abbrev rich : Stored
rich = record { nonce = 5; balance = 100; storage_root = 9; code_hash = 0 }

abbrev contract : Stored
contract = record { nonce = 1; balance = 0; storage_root = 9; code_hash = 2 }

abbrev small : Db
small = record {
  at = λ a. if a == 1 then some rich else if a == 2 then some contract else none;
  storage_at = λ root key. if root == 9 then key + 1 else 0;
  code_of = λ h. 0x60 ∷ 0x00 ∷ [];
  sha3 = λ bs. length bs;
  empty_trie = 0;
  random = λ draws n. 0;
}

small-no_collision : (bs : List ℕ) → length bs ≡ 0 → bs ≡ []
small-no_collision [] h = refl
small-no_collision (b ∷ bs) h = absurd (omega arith)

small-IsLawful : IsLawful small
unfolding account_code
small-IsLawful = record {
  no_collision = small-no_collision;
  code_known = λ a st h. elim (Bool-cases (a == 1)) [
    | inl e ↦ ground arith
    | inr e ↦ elim (Bool-cases (a == 2)) [ inl f ↦ ground arith | inr f ↦ ground arith ]
  ];
  in_range = λ a st h. ground arith;
}

abbrev empty : State
empty = record {
  cache = [];
  unchanged_entries = [];
  non_existing = [];
  start_nonce = 0;
  change_log = [];
  draws = 0;
}

empty-Journaled : Journaled small empty
empty-Journaled = record {
  coherent = record {
    missing = λ a h. cc h;
    clean = λ a acc h u. cc h;
    fits = λ a acc h. cc h;
    logged = tt;
  };
  restores = tt;
}

-- A transfer, an inner call that is reverted, and a nonce.
abbrev moved : State
moved = state_of (transfer_balance small 1 2 30 empty)

abbrev reverted_call : State
reverted_call = rollback small (savepoint moved) (state_of (transfer_balance small 2 7 10 moved))

abbrev called : State
called = state_of (change_nonce small 7 3 reverted_call)

some_calls : Steps small empty called
some_calls =
    next
      (reverted (next (here refl) (transfer 1 2 30 empty (omega arith)))
        (next (here refl) (transfer 2 7 10 moved (omega arith))))
      (set_nonce 7 3 reverted_call)

rollback-Restored_example : Restored small small-IsLawful empty (rollback small 0 called)
rollback-Restored_example =
    rollback-Restored small small-IsLawful empty called empty-Journaled some_calls

transfer_balance-answer_example :
    answer small (transfer_balance small 1 2 30 empty)
    ≡ Spec.transfer small 1 2 30 (world small empty) 0
transfer_balance-answer_example =
    transfer_balance-answer small small-IsLawful 1 2 30 empty empty-Journaled

Reads-World_example :
    Reads small small-IsLawful empty empty-Journaled.coherent 2 (world small empty 2)
Reads-World_example = Reads-World small small-IsLawful empty empty-Journaled.coherent 2

transfer_balance-Moves_example :
    (t : State) × (transfer_balance small 1 2 30 empty ≡ done t)
    × Moves 1 2 30 (world small empty) (world small t)
unfolding view_at
transfer_balance-Moves_example =
    transfer_balance-Moves small small-IsLawful 1 2 30 empty empty-Journaled (omega arith)
      (omega arith) (omega arith) (omega arith)

transfer_balance-throws_example :
    (t : State) × (transfer_balance small 1 2 300 empty ≡ throw not_enough_cash t)
    × (world small t ≡ world small empty)
unfolding view_at
transfer_balance-throws_example =
    transfer_balance-throws small small-IsLawful 1 2 300 empty empty-Journaled (omega arith)
