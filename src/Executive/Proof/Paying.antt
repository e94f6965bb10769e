-- ===== src/Executive/Proof/Paying.antt =====
-- The pay-out of a transaction, Executive::finalize of libaecereum/Executive.cpp, as the
-- specification of class State has it.
use cpp_aec.Base.{◌≡◌, ◌<◌, ap, ◌∙◌, false, arith}
use cpp_aec.Evm.Word.{u256_mod}
use cpp_aec.State.Account.{Db}
use cpp_aec.State.Changes.{credit}
use cpp_aec.State.World.{world}
use cpp_aec.State.Spec
use cpp_aec.State.Spec.{Answer, and_then}
use cpp_aec.State.Proof.Coherent.{IsLawful}
use cpp_aec.State.Proof.Undoing.{Journaled}
use cpp_aec.State.Proof.Crediting.{credit-Undoable}
use cpp_aec.State.Proof.Refining.{answer, then_answer, credit-answer}
use cpp_aec.Executive.Frame.{Env}
use cpp_aec.Executive.Starting.{Executive}
use cpp_aec.Executive.Transaction.{Transaction, is_null, given_back, fees_earned, pay_out}

module _ (db : Db) (law : IsLawful db) (env : Env) where
  given_in_range : (t : Transaction) (e : Executive) → given_back db env t e < u256_mod
  unfolding given_back
  given_in_range t e = omega arith

  -- From a state that satisfies the invariant, with the hash and the trie as for the rollback, the
  -- pay-out of finalize throws what the specification throws, and leaves the accounts that it
  -- leaves, when it credits the sender with the value of the gas that is left and then the author
  -- with the fees, whatever the cache holds; the transaction is not the null transaction.
  pub pay_out-answer :
      (t : Transaction) (e : Executive)
      → Journaled db e.state
      → is_null t.type ≡ false
      → answer db (pay_out db env t e)
        ≡ and_then db
            (Spec.credit db t.sender (given_back db env t e) (world db e.state) e.state.start_nonce)
            (Spec.credit db env.author (fees_earned db env t e))
  unfolding pay_out
  pay_out-answer t e j n =
      let given = given_back db env t e in
      let fees = fees_earned db env t e in
      let in_range : given < u256_mod = given_in_range t e in
      rw n (
        then_answer db law (credit db t.sender given e.state) (credit db env.author fees)
          (Spec.credit db env.author fees)
          (credit-Undoable db law t.sender given e.state j in_range).journaled
          (λ u k. credit-answer db law env.author fees u k.coherent)
        ∙ ap (λ (x : Answer). and_then db x (Spec.credit db env.author fees))
            (credit-answer db law t.sender given e.state j.coherent))
